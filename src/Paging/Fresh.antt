-- ===== src/Paging/Fresh.antt =====
-- A cleared page linked into the tree: what the walks see of it.
use lightux.Paging.{slot, is_present, pte_get_addr, pte, write_word, clear_page}
use lightux.Paging.Words.{is_present_lem}
use lightux.Paging.Tables.{
  Place, place, Roles, frame, index_at, prefix_at, base, IsTree, Low, slot-outside,
  slot-base_injective, walk_from,
}
use lightux.Paging.Walk.{
  index_at-lt, prefix_at-step, leaf-absent, leaf-zero, walk_from-zero, walk_from-present,
  walk_from-absent,
}
use lightux.Prelude.{
  ℕ, zero, suc, ◌+◌, ◌*◌, ◌%◌, ◌^◌, ◌≤◌, ◌<◌, ◌≡◌, ◌≢◌, ap, ap₂, sym, ◌∙◌, true, false, ◌&&◌, none,
  some, arith, if◌then◌else◌, ◌==◌, add64, bit_and, Bool-cases, inl, inr, ==→eq, ne→==-false,
}

present-zero : is_present 0 ≡ false
present-zero = is_present_lem 0

pub present-entry : (r : ℕ) → is_present (r * 4096 + 7) ≡ true
present-entry r = is_present_lem (r * 4096 + 7) ∙ ground arith

-- What the last entry of a walk comes to.
abbrev pub last_entry : (word virt_init : ℕ) → ℕ
last_entry word virt_init =
    if is_present word then add64 (pte_get_addr word) (bit_and virt_init 0xfff) else 0

module _ (hhdm : ℕ) where
  -- In a page of zeros every walk ends at once.
  walk_from-zeros :
      (level : ℕ) (words : ℕ → ℕ) (r virt virt_init : ℕ)
      → ((j : ℕ) → j < 512 → words (slot (base hhdm r) j) ≡ 0)
      → walk_from hhdm level words (base hhdm r) virt virt_init ≡ 0
  walk_from-zeros zero words r virt virt_init zeros =
      rw (leaf-zero hhdm words r virt, zeros (pte virt) (index_at-lt 0 virt), present-zero)
  walk_from-zeros (suc level) words r virt virt_init zeros = rw (
      leaf-absent hhdm level words r virt (
        ap is_present (zeros (index_at (suc level) virt) (index_at-lt (suc level) virt))
        ∙ present-zero))

  module _ (aligned : hhdm % 4096 ≡ 0) (role : Roles) (low : Low hhdm role) (words : ℕ → ℕ)
      (q level prefix i r : ℕ) (small : r < 2 ^ 40) (at : role q ≡ some (place (suc level) prefix))
      (hi : i < 512) (absent : is_present (words (slot (base hhdm q) i)) ≡ false)
      (unused : role r ≡ none) where
    abbrev pub entry : ℕ
    entry = r * 4096 + 7

    -- The words after the page `r` is cleared and entry `i` of table `q` is set to it.
    abbrev pub linked : ℕ → ℕ
    linked = write_word (slot (base hhdm q) i) entry (clear_page (base hhdm r) words)

    pub linked-at :
        (x j : ℕ) (p : Place)
        → role x ≡ some p
        → j < 512
        → linked (slot (base hhdm x) j)
          ≡ (if (x == q) && (j == i) then entry else words (slot (base hhdm x) j))
    linked-at x j p h hj =
        let other : x ≢ r = λ e. cc (ap role e) in
        let outside = slot-outside hhdm x r j aligned (low x p h) small hj other in
        rw outside
          (ground (arith, slot-base_injective hhdm x q j i aligned (low x p h) (low q _ at) hj hi))

    pub linked-zeros : (j : ℕ) → j < 512 → linked (slot (base hhdm r) j) ≡ 0
    linked-zeros j hj =
        let other : r ≢ q = λ e. cc (ap role e) in
        ground (arith, slot-base_injective hhdm r q j i aligned small (low q _ at) hj hi)

    -- The new page stands where its entry says.
    abbrev pub with_page : Roles
    with_page x = if x == r then some (place level (prefix * 512 + i)) else role x

    pub with_page-extends : (x : ℕ) (p : Place) → role x ≡ some p → with_page x ≡ some p
    with_page-extends x p h = elim (Bool-cases (x == r)) [
      | inl same ↦ let e = ap role (==→eq x r same) in cc
      | inr other ↦ rw other h
    ]

    pub linked-IsTree : IsTree hhdm role words → IsTree hhdm with_page linked
    linked-IsTree tree = record { child = child }
      where
        old :
            (x k n j : ℕ)
            → role x ≡ some (place (suc k) n)
            → j < 512
            → is_present (linked (slot (base hhdm x) j)) ≡ true
            → with_page (frame (linked (slot (base hhdm x) j))) ≡ some (place k (n * 512 + j))
        old x k n j h hj present = elim (Bool-cases ((x == q) && (j == i))) [
          | inl here ↦
              let value : linked (slot (base hhdm x) j) ≡ entry = linked-at x j _ h hj ∙ rw here in
              let to_r : frame (linked (slot (base hhdm x) j)) ≡ r = omega (arith, value) in
              let same_table : x ≡ q = ground arith in
              let same_index : j ≡ i = ground arith in
              let same_place : some (place (suc k) n) ≡ some (place (suc level) prefix) =
                sym h ∙ ap role same_table ∙ at in
              rw to_r (ground arith)
          | inr elsewhere ↦
              let value : linked (slot (base hhdm x) j) ≡ words (slot (base hhdm x) j) =
                linked-at x j _ h hj ∙ rw elsewhere in
              with_page-extends _ _
                (rw value (tree.child x k n j h hj (ap is_present (sym value) ∙ present)))
        ]

        child :
            (x k n j : ℕ)
            → with_page x ≡ some (place (suc k) n)
            → j < 512
            → is_present (linked (slot (base hhdm x) j)) ≡ true
            → with_page (frame (linked (slot (base hhdm x) j))) ≡ some (place k (n * 512 + j))
        child x k n j h hj present = elim (Bool-cases (x == r)) [
          | inl new ↦
              let e = ==→eq x r new in
              let zero_word : linked (slot (base hhdm x) j) ≡ 0 =
                ap (λ y. linked (slot (base hhdm y) j)) e ∙ linked-zeros j hj in
              let no_entry = ap is_present zero_word ∙ present-zero in cc
          | inr other ↦ old x k n j (ground arith) hj present
        ]

    -- No walk from a table of the tree sees a difference: what was absent leads to an empty page.
    pub linked-walks :
        IsTree hhdm role words
        → (l x virt virt_init : ℕ) → l ≤ 3
        → role x ≡ some (place l (prefix_at l virt))
        → walk_from hhdm l linked (base hhdm x) virt virt_init
          ≡ walk_from hhdm l words (base hhdm x) virt virt_init
    linked-walks tree zero x virt virt_init hl h =
        walk_from-zero hhdm linked x virt virt_init
        ∙ ap (λ w. last_entry w virt_init) value
        ∙ sym (walk_from-zero hhdm words x virt virt_init)
      where
        other : (x == q) ≡ false
        other = ne→==-false x q (λ e. cc (sym h ∙ ap role e ∙ at))

        value : linked (slot (base hhdm x) (pte virt)) ≡ words (slot (base hhdm x) (pte virt))
        value = linked-at x (pte virt) _ h (index_at-lt 0 virt) ∙ rw other
    linked-walks tree (suc l) x virt virt_init hl h =
        elim (Bool-cases (is_present (words (slot (base hhdm x) j)))) [
          | inl present ↦
              let value : linked (slot (base hhdm x) j) ≡ words (slot (base hhdm x) j) =
                value_of ∙ rw (old_entry present) in
              let next = frame (words (slot (base hhdm x) j)) in
              walk_from-present hhdm l linked x virt virt_init (ap is_present value ∙ present)
              ∙ ap (λ w. walk_from hhdm l linked (base hhdm (frame w)) virt virt_init) value
              ∙ linked-walks tree l next virt virt_init (omega arith) (
                  tree.child x l _ j h hj present
                  ∙ ap (λ n. some (place l n)) (prefix_at-step l virt (omega arith)))
              ∙ sym (walk_from-present hhdm l words x virt virt_init present)
          | inr none_there ↦
              ends_at_zero none_there
              ∙ sym (walk_from-absent hhdm l words x virt virt_init none_there)
        ]
      where
        j : ℕ
        j = index_at (suc l) virt

        hj : j < 512
        hj = index_at-lt (suc l) virt

        value_of :
            linked (slot (base hhdm x) j)
            ≡ (if (x == q) && (j == i) then entry else words (slot (base hhdm x) j))
        value_of = linked-at x j _ h hj

        old_entry :
            is_present (words (slot (base hhdm x) j)) ≡ true → ((x == q) && (j == i)) ≡ false
        old_entry present = elim (Bool-cases ((x == q) && (j == i))) [
          | inl here ↦
              let same_table : x ≡ q = ground arith in
              let same_index : j ≡ i = ground arith in
              let same_word =
                ap₂ (λ y k. is_present (words (slot (base hhdm y) k))) same_table same_index in
              cc
          | inr elsewhere ↦ elsewhere
        ]

        ends_at_zero :
            is_present (words (slot (base hhdm x) j)) ≡ false
            → walk_from hhdm (suc l) linked (base hhdm x) virt virt_init ≡ 0
        ends_at_zero none_there = elim (Bool-cases ((x == q) && (j == i))) [
          | inl here ↦
              let value : linked (slot (base hhdm x) j) ≡ entry = value_of ∙ rw here in
              walk_from-present hhdm l linked x virt virt_init
                (ap is_present value ∙ present-entry r)
              ∙ ap (λ k. walk_from hhdm l linked (base hhdm k) virt virt_init)
                  (omega (arith, value))
              ∙ walk_from-zeros l linked r virt virt_init linked-zeros
          | inr elsewhere ↦
              walk_from-absent hhdm l linked x virt virt_init
                (ap is_present (value_of ∙ rw elsewhere) ∙ none_there)
        ]
