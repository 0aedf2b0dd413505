-- ===== src/Paging/Descend.antt =====
-- One level of paging_MapPage: the table below an entry is found, or made.
use lightux.Pmm.{Pmm, allocate_page}
use lightux.Pmm.FirstFit.{Allocated}
use lightux.Pmm.Room.{Room, allocate_page-returns}
use lightux.Paging.{
  Paging, pf_present, pf_rw, pf_user, slot, table_of, is_present, clear_page, write_word,
  physical_allocate, next_table,
}
use lightux.Paging.Words.{table_entry_lem}
use lightux.Paging.Tables.{
  Place, place, Roles, frame, prefix_at, base, IsTree, IsOwned, IsOwned-Low, table_of-base,
  walk_from,
}
use lightux.Paging.Fresh.{
  entry, linked, linked-at, with_page, with_page-extends, linked-IsTree, linked-walks,
  present-entry,
}
use lightux.Prelude.{
  ℕ, suc, ◌+◌, ◌*◌, ◌^◌, ◌≤◌, ◌<◌, ◌≡◌, refl, ap, ap₂, subst, sym, ◌∙◌, true, false, ◌&&◌, Option,
  none, some, arith, ◌==◌, add64, bit_or, Bool-cases, inl, inr, ==_refl, Outcome, returns, panics,
  spins, Returns, and_then,
}

-- The outcome `t` of a step from entry `i` of table `q`, which stands at (suc level, prefix): a table
-- of the tree below it, with every walk as before.
pub record Below (hhdm total n : ℕ) (role : Roles) (q level prefix i : ℕ) (s : Paging) (t : ℕ)
    (s' : Paging) : Type 0 where
  pub r : ℕ
  pub table : t ≡ base hhdm r
  pub role' : Roles
  pub tree : IsTree hhdm role' s'.words
  pub owned : IsOwned hhdm total role' s'.pmm
  pub at : role' r ≡ some (place level (prefix * 512 + i))
  pub extends : (x : ℕ) (p : Place) → role x ≡ some p → role' x ≡ some p
  pub present : is_present (s'.words (slot (base hhdm q) i)) ≡ true
  pub leads : frame (s'.words (slot (base hhdm q) i)) ≡ r
  pub kept :
      (x j : ℕ) (p : Place)
      → role x ≡ some p
      → j < 512
      → is_present (s.words (slot (base hhdm x) j)) ≡ true
      → s'.words (slot (base hhdm x) j) ≡ s.words (slot (base hhdm x) j)
  pub walks :
      (l x virt virt_init : ℕ)
      → l ≤ 3
      → role x ≡ some (place l (prefix_at l virt))
      → walk_from hhdm l s'.words (base hhdm x) virt virt_init
        ≡ walk_from hhdm l s.words (base hhdm x) virt virt_init
  pub room : Room n s'.pmm
  pub page_dir : s'.page_dir ≡ s.page_dir
  pub lock : s'.lock ≡ s.lock

module _ (hhdm total n : ℕ) (role : Roles) (q level prefix i : ℕ) (s : Paging)
    (tree : IsTree hhdm role s.words) (owned : IsOwned hhdm total role s.pmm)
    (room : Room (suc n) s.pmm) (at : role q ≡ some (place (suc level) prefix)) (hi : i < 512) where
  abbrev word : ℕ
  word = s.words (slot (base hhdm q) i)

  present-Below :
      is_present word ≡ true → Below hhdm total n role q level prefix i s (table_of hhdm word) s
  present-Below present = record {
    r = frame word;
    table = table_of-base hhdm word;
    role' = role;
    tree = tree;
    owned = owned;
    at = tree.child q level prefix i at hi present;
    extends = λ x p h. h;
    present = present;
    leads = refl;
    kept = λ x j p h hj there. refl;
    walks = λ l x virt virt_init hl h. refl;
    room = omega (arith, room);
    page_dir = refl;
    lock = refl;
  }

  module _ (addr : ℕ) (pmm : Pmm) (a : Allocated total 1 s.pmm addr pmm) (still : Room n pmm)
      (absent : is_present word ≡ false) where
    unused : role a.region ≡ none
    unused = go (role a.region) refl
      where
        go : (o : Option Place) → role a.region ≡ o → o ≡ none
        go none e = refl
        go (some p) e =
            let set = owned.taken a.region p e in
            let clear = a.first.2 a.region (omega arith) (omega arith) in cc

    small : a.region < 2 ^ 40
    small = omega (arith, a.first.1, owned.frames)

    abbrev role_after : Roles
    role_after =
        with_page hhdm owned.aligned role (IsOwned-Low hhdm owned) s.words q level prefix i a.region
          small at hi absent unused

    abbrev words_after : ℕ → ℕ
    words_after =
        linked hhdm owned.aligned role (IsOwned-Low hhdm owned) s.words q level prefix i a.region
          small at hi absent unused

    abbrev after : Paging
    after = record s { pmm = pmm; words = words_after }

    after-IsOwned : IsOwned hhdm total role_after pmm
    after-IsOwned = record {
      idle = record { valid = a.valid; unlocked = a.unlocked };
      inside = λ x p h. ground (arith, owned.inside x p, a.size, a.first.1);
      taken = λ x p h. ground (arith, owned.taken x p, a.bits x);
      frames = omega (arith, owned.frames, a.size);
      aligned = owned.aligned;
    }

    here : words_after (slot (base hhdm q) i) ≡ a.region * 4096 + 7
    here =
        linked-at hhdm owned.aligned role (IsOwned-Low hhdm owned) s.words q level prefix i a.region
          small at hi absent unused q i _ at hi
        ∙ rw (==_refl q, ==_refl i)

    absent-Below : Below hhdm total n role q level prefix i s (base hhdm a.region) after
    absent-Below = record {
      r = a.region;
      table = refl;
      role' = role_after;
      tree =
          linked-IsTree hhdm owned.aligned role (IsOwned-Low hhdm owned) s.words q level prefix i
            a.region small at hi absent unused tree;
      owned = after-IsOwned;
      at = rw (==_refl a.region);
      extends =
          with_page-extends hhdm owned.aligned role (IsOwned-Low hhdm owned) s.words q level prefix
            i a.region small at hi absent unused;
      present = ap is_present here ∙ present-entry a.region;
      leads = omega (arith, here, small);
      kept = λ x j p h hj there. kept_at x j p h hj there;
      walks =
          linked-walks hhdm owned.aligned role (IsOwned-Low hhdm owned) s.words q level prefix i
            a.region small at hi absent unused tree;
      room = still;
      page_dir = refl;
      lock = refl;
    }
      where
        kept_at :
            (x j : ℕ) (p : Place)
            → role x ≡ some p
            → j < 512
            → is_present (s.words (slot (base hhdm x) j)) ≡ true
            → words_after (slot (base hhdm x) j) ≡ s.words (slot (base hhdm x) j)
        kept_at x j p h hj there =
            let value =
              linked-at hhdm owned.aligned role (IsOwned-Low hhdm owned) s.words q level prefix i
                a.region small at hi absent unused x j p h hj in
            elim (Bool-cases ((x == q) && (j == i))) [
              | inl same ↦
                  let same_table : x ≡ q = ground arith in
                  let same_index : j ≡ i = ground arith in
                  let e =
                    ap₂ (λ y k. is_present (s.words (slot (base hhdm y) k))) same_table
                      same_index in
                  cc
              | inr other ↦ value ∙ rw other
            ]

    -- What the source computes, with the page as the allocator gives it.
    abbrev entry_of : ℕ → ℕ
    entry_of target = bit_or (bit_or (bit_or target pf_present) pf_rw) pf_user

    abbrev written : (entry page : ℕ) → Paging
    written entry page = record s {
      pmm = pmm;
      words = write_word (slot (base hhdm q) i) entry (clear_page page s.words);
    }

    abbrev physical_step : Outcome Pmm ℕ → Outcome Paging ℕ
    physical_step o = elim o [
      | returns physical pmm ↦
          returns physical
            (record s { pmm = pmm; words = clear_page (add64 physical hhdm) s.words })
      | panics pmm ↦ panics (record s { pmm = pmm })
      | spins ↦ spins
    ]

    abbrev link_step : ℕ → Paging → Outcome Paging ℕ
    link_step target s' =
        returns (table_of hhdm (entry_of target))
          (record s' { words = write_word (slot (base hhdm q) i) (entry_of target) s'.words })

    made :
        allocate_page s.pmm ≡ returns addr pmm
        → next_table hhdm (base hhdm q) i s
          ≡ returns (table_of hhdm (entry_of addr)) (written (entry_of addr) (add64 addr hhdm))
    unfolding next_table physical_allocate
    made e = rw absent (
        subst
          (λ o.
            and_then (physical_step o) (link_step)
            ≡ returns (table_of hhdm (entry_of addr)) (written (entry_of addr) (add64 addr hhdm)))
          (sym e) refl)

    entry_lem : entry_of addr ≡ a.region * 4096 + 7
    entry_lem = ap entry_of a.address ∙ table_entry_lem a.region

    page_lem : add64 addr hhdm ≡ base hhdm a.region
    page_lem = omega (arith, a.address, small)

    next_table-made :
        allocate_page s.pmm ≡ returns addr pmm
        → next_table hhdm (base hhdm q) i s ≡ returns (base hhdm a.region) after
    next_table-made e =
        made e
        ∙ ap₂ (λ entry page. returns (table_of hhdm entry) (written entry page)) entry_lem page_lem
        ∙ ap (λ t. returns t after)
            (table_of-base hhdm (a.region * 4096 + 7) ∙ ap (base hhdm) (omega (arith, small)))

  next_table-present :
      is_present word ≡ true → next_table hhdm (base hhdm q) i s ≡ returns (table_of hhdm word) s
  unfolding next_table
  next_table-present present = rw present

  pub next_table-Below :
      Returns (next_table hhdm (base hhdm q) i s) (Below hhdm total n role q level prefix i s)
  next_table-Below = elim (Bool-cases (is_present word)) [
    | inl present ↦ (_, _, next_table-present present, present-Below present)
    | inr absent ↦
        let (addr, pmm, e, (a, still)) = allocate_page-returns n owned.idle room in
        (_, _, next_table-made addr pmm a still absent e, absent-Below addr pmm a still absent)
  ]
