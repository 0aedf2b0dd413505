-- ===== src/Paging/Entry.antt =====
-- The last entry of a walk, set in a page table of the tree: which walks see it.
use lightux.Paging.{slot, is_present, and_look, pte, write_word}
use lightux.Paging.Tables.{
  Place, place, Roles, frame, index_at, prefix_at, base, IsTree, Low, slot-base_injective, leaf,
  final, walk_from,
}
use lightux.Paging.Walk.{
  index_at-lt, prefix_at-step, leaf-present, leaf-absent, leaf-zero, leaf-Place,
}
use lightux.Paging.Fresh.{last_entry}
use lightux.Prelude.{
  ℕ, zero, suc, ◌+◌, ◌*◌, ◌%◌, ◌^◌, ◌≤◌, ◌<◌, ◌≡◌, ◌≢◌, refl, ap, sym, ◌∙◌, true, Option, none,
  some, arith, Bool-cases, inl, inr,
}

abbrev prefix_of : Option Place → ℕ
prefix_of none = 0
prefix_of (some p) = p.prefix

module _ (hhdm : ℕ) (aligned : hhdm % 4096 ≡ 0) (role : Roles) (low : Low hhdm role) (words : ℕ → ℕ)
    (tree : IsTree hhdm role words) (t number i entry : ℕ) (at : role t ≡ some (place 0 number))
    (hi : i < 512) where
  abbrev pub with_entry : ℕ → ℕ
  with_entry = write_word (slot (base hhdm t) i) entry words

  elsewhere :
      (q j : ℕ)
      → q < 2 ^ 40
      → j < 512
      → ¬ ((q ≡ t) × (j ≡ i))
      → with_entry (slot (base hhdm q) j) ≡ words (slot (base hhdm q) j)
  elsewhere q j hq hj differ =
      ground (arith, slot-base_injective hhdm q t j i aligned hq (low t _ at) hj hi)

  -- A table above the last level is another one.
  upper :
      (l q x j : ℕ)
      → j < 512
      → role q ≡ some (place (suc l) x)
      → with_entry (slot (base hhdm q) j) ≡ words (slot (base hhdm q) j)
  upper l q x j hj h = elsewhere q j (low q _ h) hj λ same. let e = ap role same.0 in cc

  leaf-set :
      (l q x : ℕ)
      → l ≤ 3
      → role q ≡ some (place l (prefix_at l x))
      → leaf hhdm l with_entry (base hhdm q) x ≡ leaf hhdm l words (base hhdm q) x
  leaf-set zero q x hl h = leaf-zero hhdm with_entry q x ∙ sym (leaf-zero hhdm words q x)
  leaf-set (suc l) q x hl h =
      elim (Bool-cases (is_present (words (slot (base hhdm q) (index_at (suc l) x))))) [
        | inl present ↦
            leaf-present hhdm l with_entry q x (ap is_present same ∙ present)
            ∙ ap (λ w. leaf hhdm l with_entry (base hhdm (frame w)) x) same
            ∙ leaf-set l _ x (omega arith) (
                tree.child q l _ _ h (index_at-lt (suc l) x) present
                ∙ ap (λ n. some (place l n)) (prefix_at-step l x (omega arith)))
            ∙ sym (leaf-present hhdm l words q x present)
        | inr absent ↦
            leaf-absent hhdm l with_entry q x (ap is_present same ∙ absent)
            ∙ sym (leaf-absent hhdm l words q x absent)
      ]
    where
      same :
          with_entry (slot (base hhdm q) (index_at (suc l) x))
          ≡ words (slot (base hhdm q) (index_at (suc l) x))
      same = upper l q _ (index_at (suc l) x) (index_at-lt (suc l) x) h

  module _ (l q x virt_init : ℕ) (hl : l ≤ 3) (h : role q ≡ some (place l (prefix_at l x))) where
    -- A walk for another page.
    pub walk_from-other :
        prefix_at 0 x * 512 + pte x ≢ number * 512 + i
        → walk_from hhdm l with_entry (base hhdm q) x virt_init
          ≡ walk_from hhdm l words (base hhdm q) x virt_init
    walk_from-other differ =
        ap (λ o. and_look 0 o (final with_entry x virt_init)) (leaf-set l q x hl h)
        ∙ go (leaf hhdm l words (base hhdm q) x) refl
      where
        go :
            (o : Option ℕ)
            → leaf hhdm l words (base hhdm q) x ≡ o
            → and_look 0 o (final with_entry x virt_init) ≡ and_look 0 o (final words x virt_init)
        go none e = refl
        go (some u) e =
            let (r, base_r, role_r) = leaf-Place hhdm tree l q x hl h e in
            let same = elsewhere r (pte x) (low r _ role_r) (index_at-lt 0 x) λ both.
              let same_table : r ≡ t = both.0 in
              let places : some (place 0 (prefix_at 0 x)) ≡ some (place 0 number) =
                sym role_r ∙ ap role same_table ∙ at in
              let p : prefix_at 0 x ≡ number = ap prefix_of places in
              differ (omega (arith, p, both.1)) in
            ap (final with_entry x virt_init) base_r
            ∙ ap (λ w. last_entry w virt_init) same
            ∙ sym (ap (final words x virt_init) base_r)

    -- A walk for the page of the entry.
    pub walk_from-here :
        leaf hhdm l words (base hhdm q) x ≡ some (base hhdm t)
        → pte x ≡ i
        → walk_from hhdm l with_entry (base hhdm q) x virt_init ≡ last_entry entry virt_init
    walk_from-here e same =
        ap (λ o. and_look 0 o (final with_entry x virt_init)) (leaf-set l q x hl h ∙ e)
        ∙ ap (λ w. last_entry w virt_init) here
      where
        here : with_entry (slot (base hhdm t) (pte x)) ≡ entry
        here = ground (arith, same)

  pub with_entry-IsTree : IsTree hhdm role with_entry
  with_entry-IsTree = record { child = child }
    where
      child :
          (q level prefix j : ℕ)
          → role q ≡ some (place (suc level) prefix)
          → j < 512
          → is_present (with_entry (slot (base hhdm q) j)) ≡ true
          → role (frame (with_entry (slot (base hhdm q) j))) ≡ some (place level (prefix * 512 + j))
      child q level prefix j h hj present =
          let same = upper level q prefix j hj h in
          ap (λ w. role (frame w)) same
          ∙ tree.child q level prefix j h hj (ap is_present (sym same) ∙ present)
