-- ===== src/Pmm/Room.antt =====
-- While pages are free, pmm_AllocatePage returns one.
use lightux.Bitmap.{Bitmap, bitmap_get}
use lightux.Pmm.{Pmm, allocate_page}
use lightux.Pmm.Invariant.{occupied, limit}
use lightux.Pmm.Reach.{Idle}
use lightux.Pmm.FirstFit.{
  Allocated, occupied-run, allocate_pages-first_fit, allocate_page-eq-allocate_pages,
}
use lightux.Prelude.{
  ℕ, zero, suc, ◌+◌, ◌≤◌, ◌<◌, ◌≡◌, refl, ap, ◌*◌, ◌∙◌, inl, inr, true, false, arith, Bool-cases,
  Returns,
}

-- At least `n` pages are free.
abbrev pub Room : (n : ℕ) → Pmm → Type 0
Room n s = occupied s.bitmap (limit s.bitmap) + n ≤ limit s.bitmap

occupied-full :
    (bitmap : Bitmap) (n : ℕ)
    → ((k : ℕ) → k < n → bitmap_get bitmap k ≡ true)
    → occupied bitmap n ≡ n
unfolding occupied
occupied-full bitmap zero full = refl
occupied-full bitmap (suc n) full =
    ground (arith, full n, occupied-full bitmap n (λ k h. full k (omega arith)))

module _ {total : ℕ} (n : ℕ) {s : Pmm} (idle : Idle total s) (room : Room (suc n) s) where
  Room-Allocated : {addr : ℕ} {s' : Pmm} → Allocated total 1 s addr s' → Room n s'
  Room-Allocated {s'} a =
      let grown = occupied-run s.bitmap s'.bitmap a.region 1 a.first.2 a.bits (limit s.bitmap) in
      let same : occupied s'.bitmap (limit s'.bitmap) ≡ occupied s'.bitmap (limit s.bitmap) =
        ap (λ m. occupied s'.bitmap (m * 8)) a.size in
      omega (arith, grown, same, a.first.1, a.size, room)

  -- In a valid state with the lock free and more than n pages free, pmm_AllocatePage returns a page
  -- as its contract says, and at least n pages are still free.
  pub allocate_page-returns :
      Returns (allocate_page s) (λ addr s'. Allocated total 1 s addr s' × Room n s')
  allocate_page-returns = elim (allocate_pages-first_fit 1 idle.valid idle.unlocked (omega arith)) [
    | inl (addr, s', e, a) ↦
        (addr, s', allocate_page-eq-allocate_pages s ∙ e, (a, Room-Allocated a))
    | inr out ↦
        let full = occupied-full s.bitmap (limit s.bitmap) (λ k h. used k h out.full) in
        absurd (omega (arith, full, room))
  ]
    where
      used :
          (k : ℕ)
          → k < limit s.bitmap
          → ((r : ℕ)
              → 0 ≤ r
              → r + 1 ≤ limit s.bitmap
              → ¬ ((j : ℕ) → r ≤ j → j < r + 1 → bitmap_get s.bitmap j ≡ false))
          → bitmap_get s.bitmap k ≡ true
      used k h no_run = elim (Bool-cases (bitmap_get s.bitmap k)) [
        | inl set ↦ set
        | inr clear ↦ absurd (
            no_run k (omega arith) (omega arith)
              λ j lo hi. let e : j ≡ k = omega arith in rw e clear)
      ]
