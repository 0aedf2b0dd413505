-- ===== src/Pmm/Pages.antt =====
-- Each operation of pmm.c on a page, and on a run of pages, keeps the invariant.
use lightux.Bitmap.{bitmap_get, bitmap_set}
use lightux.Pmm.{
  Pmm, page_size, index_of, release_index, lock_page, free_page, reserve_page, unreserve_page,
  for_pages, lock_pages, free_pages, reserve_pages, unreserve_pages,
}
use lightux.Pmm.Invariant.{
  limit, IsValid, occupied-Flipped, bitmap_set-Flipped, release_index-Flipped, bitmap_set-HintHolds,
  release_index-HintHolds, Accounts-step,
}
use lightux.Prelude.{
  ℕ, zero, suc, ◌+◌, ◌*◌, ◌%◌, ◌^◌, ◌≤◌, ◌<◌, ◌≡◌, refl, ◌∙◌, true, false, arith, Bool-cases, inl,
  inr, add64,
}

-- What a page operation keeps: the invariant, and how many pages there are.
pub record Kept (total : ℕ) (s s' : Pmm) : Type 0 where
  pub valid : IsValid total s'
  pub size : s'.bitmap.bitmap_size ≡ s.bitmap.bitmap_size
  pub lock : s'.lock ≡ s.lock

module _ {total : ℕ} {s : Pmm} (addr : ℕ) (v : IsValid total s)
    (inside : index_of addr < limit s.bitmap) where
  open v.accounts use {bytes}

  -- A clear bit set, with a page moved from the free memory to the used or the reserved.
  take-Kept :
      (free used reserved : ℕ)
      → bitmap_get s.bitmap (index_of addr) ≡ false
      → (free + page_size) % 2 ^ 64 ≡ s.free_memory % 2 ^ 64
      → (used + reserved) % 2 ^ 64 ≡ (s.used_memory + s.reserved_memory + page_size) % 2 ^ 64
      → Kept total s (record s {
        bitmap = bitmap_set s.bitmap (index_of addr) true;
        free_memory = free;
        used_memory = used;
        reserved_memory = reserved;
      })
  take-Kept free used reserved clear less more =
      let f = bitmap_set-Flipped s.bitmap (index_of addr) true bytes in
      let count = occupied-Flipped f (limit s.bitmap) inside in
      record {
        valid = record {
          accounts =
              Accounts-step v.accounts 0 1 f.bytes f.size (ground arith) (omega arith)
                (omega arith);
          hint = bitmap_set-HintHolds s.bitmap (index_of addr) bytes v.hint;
        };
        size = f.size;
        lock = refl;
      }

  -- A set bit cleared, with a page moved back.
  give-Kept :
      (free used reserved : ℕ)
      → bitmap_get s.bitmap (index_of addr) ≡ true
      → free % 2 ^ 64 ≡ (s.free_memory + page_size) % 2 ^ 64
      → (used + reserved + page_size) % 2 ^ 64 ≡ (s.used_memory + s.reserved_memory) % 2 ^ 64
      → Kept total s (record s {
        bitmap = release_index s.bitmap (index_of addr);
        free_memory = free;
        used_memory = used;
        reserved_memory = reserved;
      })
  give-Kept free used reserved taken more less =
      let f = release_index-Flipped s.bitmap (index_of addr) bytes in
      let count = occupied-Flipped f (limit s.bitmap) inside in
      record {
        valid = record {
          accounts =
              Accounts-step v.accounts 1 0 f.bytes f.size (ground arith) (omega arith)
                (omega arith);
          hint = release_index-HintHolds s.bitmap (index_of addr) bytes v.hint;
        };
        size = f.size;
        lock = refl;
      }

  same-Kept : Kept total s s
  same-Kept = record { valid = v; size = refl; lock = refl }

  pub lock_page-Kept : Kept total s (lock_page addr s)
  unfolding lock_page
  lock_page-Kept = elim (Bool-cases (bitmap_get s.bitmap (index_of addr))) [
    | inl taken ↦ rw taken same-Kept
    | inr clear ↦ rw clear (take-Kept _ _ _ clear (omega arith) (omega arith))
  ]

  pub reserve_page-Kept : Kept total s (reserve_page addr s)
  unfolding reserve_page
  reserve_page-Kept = elim (Bool-cases (bitmap_get s.bitmap (index_of addr))) [
    | inl taken ↦ rw taken same-Kept
    | inr clear ↦ rw clear (take-Kept _ _ _ clear (omega arith) (omega arith))
  ]

  pub free_page-Kept : Kept total s (free_page addr s)
  unfolding free_page
  free_page-Kept = elim (Bool-cases (bitmap_get s.bitmap (index_of addr))) [
    | inl taken ↦ rw taken (give-Kept _ _ _ taken (omega arith) (omega arith))
    | inr clear ↦ rw clear same-Kept
  ]

  pub unreserve_page-Kept : Kept total s (unreserve_page addr s)
  unfolding unreserve_page
  unreserve_page-Kept = elim (Bool-cases (bitmap_get s.bitmap (index_of addr))) [
    | inl taken ↦ rw taken (give-Kept _ _ _ taken (omega arith) (omega arith))
    | inr clear ↦ rw clear same-Kept
  ]

-- The run of `n` pages at `addr` lies below the end of the bitmap.
abbrev pub InRange : Pmm → (addr n : ℕ) → Type 0
InRange s addr n = addr + n * page_size ≤ limit s.bitmap * page_size

module _ {total : ℕ} (page : ℕ → Pmm → Pmm)
    (page-Kept : (s : Pmm) (addr : ℕ)
      → IsValid total s
      → index_of addr < limit s.bitmap
      → Kept total s (page addr s)) where
  for_pages-Kept :
      (rounds addr i n : ℕ) (s : Pmm)
      → i + rounds ≡ n
      → IsValid total s
      → InRange s addr n
      → Kept total s (for_pages page rounds addr i s)
  unfolding for_pages
  for_pages-Kept zero addr i n s e v range = record { valid = v; size = refl; lock = refl }
  for_pages-Kept (suc rounds) addr i n s e v range =
      let small = v.accounts.small in
      let k = page-Kept s (add64 addr (i * page_size)) v (omega arith) in
      let r =
        for_pages-Kept rounds addr (i + 1) n _ (omega arith) k.valid (omega (arith, k.size)) in
      record { valid = r.valid; size = r.size ∙ k.size; lock = r.lock ∙ k.lock }

module _ {total : ℕ} {s : Pmm} (addr n : ℕ) (v : IsValid total s) (range : InRange s addr n) where
  pub lock_pages-Kept : Kept total s (lock_pages addr n s)
  unfolding lock_pages
  lock_pages-Kept =
      for_pages-Kept lock_page (λ s a. lock_page-Kept a) n addr 0 n s (omega arith) v range

  pub reserve_pages-Kept : Kept total s (reserve_pages addr n s)
  unfolding reserve_pages
  reserve_pages-Kept =
      for_pages-Kept reserve_page (λ s a. reserve_page-Kept a) n addr 0 n s (omega arith) v range

  pub free_pages-Kept : Kept total s (free_pages addr n s)
  unfolding free_pages
  free_pages-Kept =
      for_pages-Kept free_page (λ s a. free_page-Kept a) n addr 0 n s (omega arith) v range

  pub unreserve_pages-Kept : Kept total s (unreserve_pages addr n s)
  unfolding unreserve_pages
  unreserve_pages-Kept =
      for_pages-Kept unreserve_page (λ s a. unreserve_page-Kept a) n addr 0 n s (omega arith) v
        range
