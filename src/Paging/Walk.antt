-- ===== src/Paging/Walk.antt =====
-- The walk of paging_VirtToPhysical, level by level.
use lightux.Paging.{slot, is_present, and_look, walk}
use lightux.Paging.Words.{table_index_lem}
use lightux.Paging.Tables.{
  place, Roles, frame, index_at, prefix_at, base, IsTree, table_of-base, leaf, final, walk_from,
}
use lightux.Prelude.{
  ℕ, zero, suc, ◌+◌, ◌*◌, ◌≤◌, ◌<◌, ◌≡◌, refl, ap, sym, ◌∙◌, true, false, none, some, arith,
  Bool-cases, inl, inr,
}

-- The nested lookups of the source, as one recursion on the level.
pub walk-eq-walk_from :
    (hhdm : ℕ) (words : ℕ → ℕ) (page_dir virt virt_init : ℕ)
    → walk hhdm words page_dir virt virt_init ≡ walk_from hhdm 3 words page_dir virt virt_init
unfolding walk leaf
walk-eq-walk_from hhdm words page_dir virt virt_init = ground arith

pub index_at-lt : (level virt : ℕ) → index_at level virt < 512
index_at-lt level virt = omega (arith, table_index_lem (12 + 9 * level) virt)

-- The number above a level and the index there make up the number above the level below.
pub prefix_at-step :
    (level virt : ℕ)
    → level < 3
    → prefix_at (suc level) virt * 512 + index_at (suc level) virt ≡ prefix_at level virt
prefix_at-step zero virt h = omega (arith, table_index_lem 21 virt)
prefix_at-step (suc zero) virt h = omega (arith, table_index_lem 30 virt)
prefix_at-step (suc (suc zero)) virt h = omega (arith, table_index_lem 39 virt)
prefix_at-step (suc (suc (suc level))) virt h = absurd (omega arith)

module _ (hhdm : ℕ) where
  -- A present entry leads to the frame that it names.
  pub leaf-present :
      (level : ℕ) (words : ℕ → ℕ) (q virt : ℕ)
      → is_present (words (slot (base hhdm q) (index_at (suc level) virt))) ≡ true
      → leaf hhdm (suc level) words (base hhdm q) virt
        ≡ leaf hhdm level words
            (base hhdm (frame (words (slot (base hhdm q) (index_at (suc level) virt)))))
            virt
  unfolding leaf
  leaf-present level words q virt present = rw present (
      ap (λ t. leaf hhdm level words t virt)
        (table_of-base hhdm (words (slot (base hhdm q) (index_at (suc level) virt)))))

  pub leaf-absent :
      (level : ℕ) (words : ℕ → ℕ) (q virt : ℕ)
      → is_present (words (slot (base hhdm q) (index_at (suc level) virt))) ≡ false
      → leaf hhdm (suc level) words (base hhdm q) virt ≡ none
  unfolding leaf
  leaf-absent level words q virt absent = rw absent

  pub leaf-zero :
      (words : ℕ → ℕ) (q virt : ℕ) → leaf hhdm 0 words (base hhdm q) virt ≡ some (base hhdm q)
  unfolding leaf
  leaf-zero words q virt = refl

  -- The page table in which a walk ends stands for the address of the walk.
  pub leaf-Place :
      {role : Roles} {words : ℕ → ℕ} (tree : IsTree hhdm role words) (level q virt : ℕ) {t : ℕ}
      → level ≤ 3
      → role q ≡ some (place level (prefix_at level virt))
      → leaf hhdm level words (base hhdm q) virt ≡ some t
      → (r : ℕ) × (t ≡ base hhdm r) × (role r ≡ some (place 0 (prefix_at 0 virt)))
  leaf-Place tree zero q virt h at e = (q, cc (leaf-zero _ q virt), at)
  leaf-Place {words} tree (suc level) q virt h at e =
      elim (Bool-cases (is_present (words (slot (base hhdm q) (index_at (suc level) virt))))) [
        | inl present ↦
            leaf-Place tree level (frame (words (slot (base hhdm q) (index_at (suc level) virt))))
              virt (omega arith)
              (tree.child q level _ _ at (index_at-lt (suc level) virt) present
                ∙ ap (λ n. some (place level n)) (prefix_at-step level virt (omega arith)))
              (sym (leaf-present level words q virt present) ∙ e)
        | inr absent ↦ cc (leaf-absent level words q virt absent)
      ]

  -- A walk by one step.
  pub walk_from-zero :
      (words : ℕ → ℕ) (q virt virt_init : ℕ)
      → walk_from hhdm 0 words (base hhdm q) virt virt_init
        ≡ final words virt virt_init (base hhdm q)
  walk_from-zero words q virt virt_init =
      ap (λ o. and_look 0 o (final words virt virt_init)) (leaf-zero words q virt)

  module _ (level : ℕ) (words : ℕ → ℕ) (q virt virt_init : ℕ) where
    pub walk_from-present :
        is_present (words (slot (base hhdm q) (index_at (suc level) virt))) ≡ true
        → walk_from hhdm (suc level) words (base hhdm q) virt virt_init
          ≡ walk_from hhdm level words
              (base hhdm (frame (words (slot (base hhdm q) (index_at (suc level) virt)))))
              virt
              virt_init
    walk_from-present present =
        ap (λ o. and_look 0 o (final words virt virt_init))
          (leaf-present level words q virt present)

    pub walk_from-absent :
        is_present (words (slot (base hhdm q) (index_at (suc level) virt))) ≡ false
        → walk_from hhdm (suc level) words (base hhdm q) virt virt_init ≡ 0
    walk_from-absent absent =
        ap (λ o. and_look 0 o (final words virt virt_init)) (leaf-absent level words q virt absent)
