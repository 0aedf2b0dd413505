-- ===== src/Pmm/Init.antt =====
-- InitializePMM: the state that it leaves.
use lightux.Boot.{BootInfo, MemmapEntry, limine_memmap_usable}
use lightux.Bitmap.{Bitmap, bitmap_get, initialize_bitmap}
use lightux.Bitmap.Laws.{bitmap_get-initialize_bitmap, initialize_bitmap-IsBytes}
use lightux.Pmm.{
  Pmm, page_size, lock_pages, reserve_pages, largest_segment, unreserve_entries, initialize_pmm,
}
use lightux.Pmm.Invariant.{occupied, limit, IsValid}
use lightux.Pmm.Pages.{Kept, lock_pages-Kept, reserve_pages-Kept, unreserve_pages-Kept}
use lightux.Prelude.{
  ℕ, zero, suc, ◌+◌, ◌*◌, ◌/◌, ◌^◌, ◌≤◌, ◌<◌, ◌≡◌, ◌≢◌, refl, subst, sym, false, arith, ◌==◌,
  Bool-cases, ==→eq, ne→==-false, inl, inr, ◌∙◌, Returns, List, [], ◌∷◌,
}

occupied-clear :
    (bitmap : Bitmap) (n : ℕ)
    → ((k : ℕ) → k < n → bitmap_get bitmap k ≡ false)
    → occupied bitmap n ≡ 0
unfolding occupied
occupied-clear bitmap zero clear = refl
occupied-clear bitmap (suc n) clear =
    ground (arith, clear n, occupied-clear bitmap n (λ k h. clear k (omega arith)))

-- Every usable entry lies within the pages that the bitmap has.
abbrev pub EntriesFit : List MemmapEntry → (pages : ℕ) → Type 0
EntriesFit [] pages = Unit {0}
EntriesFit (entry ∷ entries) pages =
    (entry.kind ≡ limine_memmap_usable → entry.base + entry.length ≤ pages * page_size)
    × EntriesFit entries pages

abbrev pub pages_of : BootInfo → ℕ
pages_of boot_info = (boot_info.mm_total / page_size / 8 + 1) * 8

unreserve_entries-Kept :
    (total : ℕ) (entries : List MemmapEntry) (s : Pmm)
    → IsValid total s
    → EntriesFit entries (limit s.bitmap)
    → Kept total s (unreserve_entries entries s)
unfolding unreserve_entries
unreserve_entries-Kept total [] s v fit = record { valid = v; size = refl; lock = refl }
unreserve_entries-Kept total (entry ∷ entries) s v fit =
    elim (Bool-cases (entry.kind == limine_memmap_usable)) [
      | inl usable ↦
          let range = fit.0 (==→eq _ _ usable) in
          let k = unreserve_pages-Kept entry.base (entry.length / page_size) v (omega arith) in
          let r =
            unreserve_entries-Kept total entries _ k.valid
              (subst (λ n. EntriesFit entries (n * 8)) (sym k.size) fit.1) in
          rw usable (record { valid = r.valid; size = r.size ∙ k.size; lock = r.lock ∙ k.lock })
      | inr other ↦ rw other (unreserve_entries-Kept total entries s v fit.1)
    ]

-- The state of a kernel that has just been loaded: the counters and the lock are zero.
pub record Fresh (s : Pmm) : Type 0 where
  pub used : s.used_memory ≡ 0
  pub reserved : s.reserved_memory ≡ 0

-- The hypotheses on the machine under which InitializePMM stays in bounds.
pub record Fits (boot_info : BootInfo) : Type 0 where
  pub small : pages_of boot_info ≤ 2 ^ 52
  pub low : 16 ≤ pages_of boot_info
  pub entries : EntriesFit boot_info.mm_entries (pages_of boot_info)
  pub segment :
      (largest_segment boot_info.mm_entries 0 0).0
        + ((boot_info.mm_total / page_size / 8 + 1) / page_size + 1) * page_size
      ≤ pages_of boot_info * page_size

module _ (boot_info : BootInfo) (memory : ℕ → ℕ) (s : Pmm) where
  abbrev pub cleared : Pmm
  cleared = record s {
    free_memory = boot_info.mm_total;
    bitmap =
        initialize_bitmap boot_info.hhdm_offset memory (boot_info.mm_total / page_size / 8 + 1)
          (largest_segment boot_info.mm_entries 0 0).0;
  }

  cleared-IsValid :
      Fresh s → Fits boot_info → ((i : ℕ) → memory i < 256) → IsValid boot_info.mm_total cleared
  unfolding initialize_bitmap
  cleared-IsValid fresh fits bytes = record {
    accounts = record {
      bytes = initialize_bitmap-IsBytes _ memory _ _ bytes;
      small = fits.small;
      free = omega (arith, no_page);
      taken = omega (arith, no_page, fresh.used, fresh.reserved);
    };
    hint = λ k h. absurd (omega arith);
  }
    where
      no_page : occupied cleared.bitmap (limit cleared.bitmap) ≡ 0
      no_page = occupied-clear cleared.bitmap (limit cleared.bitmap) λ k h.
          bitmap_get-initialize_bitmap boot_info.hhdm_offset memory
            (boot_info.mm_total / page_size / 8 + 1) (largest_segment boot_info.mm_entries 0 0).0 k
            h

  abbrev pub reserved : Pmm
  reserved = reserve_pages 0 (boot_info.mm_total / page_size + 1) cleared

  abbrev pub usable : Pmm
  usable = unreserve_entries boot_info.mm_entries reserved

  abbrev pub low_reserved : Pmm
  low_reserved = reserve_pages 0 0x10 usable

  abbrev pub locked : Pmm
  locked =
      lock_pages (largest_segment boot_info.mm_entries 0 0).0
        ((boot_info.mm_total / page_size / 8 + 1) / page_size + 1) low_reserved

  locked-IsValid :
      Fresh s → Fits boot_info → ((i : ℕ) → memory i < 256) → IsValid boot_info.mm_total locked
  unfolding initialize_bitmap
  locked-IsValid fresh fits bytes =
      let first =
        reserve_pages-Kept {total = boot_info.mm_total} {s = cleared} 0
          (boot_info.mm_total / page_size + 1) (cleared-IsValid fresh fits bytes) (omega arith) in
      let second =
        unreserve_entries-Kept boot_info.mm_total boot_info.mm_entries reserved first.valid
          (subst (λ n. EntriesFit boot_info.mm_entries (n * 8)) (sym first.size) fits.entries) in
      let size₂ = second.size ∙ first.size in
      let third = reserve_pages-Kept 0 0x10 second.valid (omega (arith, size₂, fits.low)) in
      let size₃ = third.size ∙ size₂ in
      (lock_pages-Kept _ _ third.valid (omega (arith, size₃, fits.segment))).valid

  -- InitializePMM, run on a fresh kernel whose memory map fits the bitmap and whose largest usable
  -- segment is not at address 0, returns with the allocator's state valid for the total memory.
  pub initialize_pmm-IsValid :
      Fresh s
      → Fits boot_info
      → ((i : ℕ) → memory i < 256)
      → (largest_segment boot_info.mm_entries 0 0).0 ≢ 0
      → Returns (initialize_pmm boot_info memory s) (λ _ s'. IsValid boot_info.mm_total s')
  unfolding initialize_pmm
  initialize_pmm-IsValid fresh fits bytes some_segment =
      (tt, locked, rw (ne→==-false _ 0 some_segment), locked-IsValid fresh fits bytes)
