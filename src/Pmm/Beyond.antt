-- ===== src/Pmm/Beyond.antt =====
-- The pages of the bitmap's last byte that lie above the total memory.
use lightux.Boot.{BootInfo, MemmapEntry, limine_memmap_usable}
use lightux.Bitmap.{bitmap_get, initialize_bitmap}
use lightux.Bitmap.Laws.{IsBytes, bitmap_get-initialize_bitmap, initialize_bitmap-IsBytes}
use lightux.Pmm.{
  Pmm, page_size, index_of, lock_page, reserve_page, unreserve_page, for_pages, lock_pages,
  reserve_pages, unreserve_pages, largest_segment, unreserve_entries, initialize_pmm,
}
use lightux.Pmm.Invariant.{bitmap_set-Flipped, release_index-Flipped}
use lightux.Pmm.Init.{pages_of, Fits, cleared, locked}
use lightux.Prelude.{
  ℕ, zero, suc, ◌+◌, ◌*◌, ◌/◌, ◌^◌, ◌≤◌, ◌<◌, ◌≡◌, ◌≢◌, ◌⊎◌, true, false, arith, ◌==◌, Bool-cases,
  ne→==-false, inl, inr, add64, Returns, List, [], ◌∷◌,
}

-- Page `k` is free.
record Clear (k : ℕ) (s : Pmm) : Type 0 where
  bytes : IsBytes s.bitmap
  clear : bitmap_get s.bitmap k ≡ false

module _ {k : ℕ} {s : Pmm} (addr : ℕ) (c : Clear k s) where
  unreserve_page-Clear : Clear k (unreserve_page addr s)
  unfolding unreserve_page
  unreserve_page-Clear = elim (Bool-cases (bitmap_get s.bitmap (index_of addr))) [
    | inl taken ↦
        let f = release_index-Flipped s.bitmap (index_of addr) c.bytes in
        rw taken (record { bytes = f.bytes; clear = ground (arith, f.bits k, c.clear) })
    | inr free ↦ rw free c
  ]

  module _ (other : index_of addr ≢ k) where
    reserve_page-Clear : Clear k (reserve_page addr s)
    unfolding reserve_page
    reserve_page-Clear = elim (Bool-cases (bitmap_get s.bitmap (index_of addr))) [
      | inl taken ↦ rw taken c
      | inr free ↦
          let f = bitmap_set-Flipped s.bitmap (index_of addr) true c.bytes in
          rw free (record { bytes = f.bytes; clear = ground (arith, f.bits k, c.clear) })
    ]

    lock_page-Clear : Clear k (lock_page addr s)
    unfolding lock_page
    lock_page-Clear = elim (Bool-cases (bitmap_get s.bitmap (index_of addr))) [
      | inl taken ↦ rw taken c
      | inr free ↦
          let f = bitmap_set-Flipped s.bitmap (index_of addr) true c.bytes in
          rw free (record { bytes = f.bytes; clear = ground (arith, f.bits k, c.clear) })
    ]

-- None of the `n` pages at `addr` is page `k`.
abbrev Avoids : (k addr n : ℕ) → Type 0
Avoids k addr n = (i : ℕ) → i < n → index_of (add64 addr (i * page_size)) ≢ k

module _ {k : ℕ} (page : ℕ → Pmm → Pmm)
    (keeps : (addr : ℕ) (s : Pmm) → Clear k s → index_of addr ≢ k → Clear k (page addr s)) where
  for_pages-Clear :
      (rounds addr i n : ℕ) (s : Pmm)
      → i + rounds ≡ n
      → Avoids k addr n
      → Clear k s
      → Clear k (for_pages page rounds addr i s)
  unfolding for_pages
  for_pages-Clear zero addr i n s e avoids c = c
  for_pages-Clear (suc rounds) addr i n s e avoids c =
      for_pages-Clear rounds addr (i + 1) n _ (omega arith) avoids
        (keeps (add64 addr (i * page_size)) s c (avoids i (omega arith)))

unreserve_all-Clear :
    {k : ℕ} (rounds addr i : ℕ) (s : Pmm)
    → Clear k s
    → Clear k (for_pages unreserve_page rounds addr i s)
unfolding for_pages
unreserve_all-Clear zero addr i s c = c
unreserve_all-Clear (suc rounds) addr i s c =
    unreserve_all-Clear rounds addr (i + 1) _ (unreserve_page-Clear (add64 addr (i * page_size)) c)

unreserve_entries-Clear :
    {k : ℕ} (entries : List MemmapEntry) (s : Pmm)
    → Clear k s
    → Clear k (unreserve_entries entries s)
unfolding unreserve_entries unreserve_pages
unreserve_entries-Clear [] s c = c
unreserve_entries-Clear (entry ∷ entries) s c =
    elim (Bool-cases (entry.kind == limine_memmap_usable)) [
      | inl usable ↦ rw usable (
          unreserve_entries-Clear entries _
            (unreserve_all-Clear (entry.length / page_size) entry.base 0 s c))
      | inr other ↦ rw other (unreserve_entries-Clear entries s c)
    ]

abbrev segment_of : BootInfo → ℕ
segment_of boot_info = (largest_segment boot_info.mm_entries 0 0).0

-- The pages that the bitmap itself may touch, from the start of its segment on.
abbrev bitmap_pages : BootInfo → ℕ
bitmap_pages boot_info = (boot_info.mm_total / page_size / 8 + 1) / page_size + 1

module _ (boot_info : BootInfo) (memory : ℕ → ℕ) (s : Pmm) (k : ℕ) where
  -- On a machine whose memory map fits the bitmap (its pages are at most 2^52 and at least 16, every
  -- usable entry and the pages of the bitmap lie within the pages that it has bits for), with a memory of
  -- bytes, a total memory below 2^64 and a largest usable segment that is not at address 0: a page from 16
  -- on that the bitmap has a bit for, that begins above the total memory, and that is none of the pages
  -- which InitializePMM locks for the bitmap, is free once InitializePMM has returned.
  pub initialize_pmm-free_beyond_total :
      Fits boot_info
      → ((i : ℕ) → memory i < 256)
      → boot_info.mm_total < 2 ^ 64
      → segment_of boot_info ≢ 0
      → 16 ≤ k
      → k < pages_of boot_info
      → boot_info.mm_total < k * page_size
      → (k < segment_of boot_info / page_size)
        ⊎ (segment_of boot_info / page_size + bitmap_pages boot_info ≤ k)
      → Returns (initialize_pmm boot_info memory s) (λ _ s'. bitmap_get s'.bitmap k ≡ false)
  unfolding initialize_pmm initialize_bitmap reserve_pages lock_pages
  initialize_pmm-free_beyond_total fits bytes word some_segment high inside above apart =
      (tt, locked boot_info memory s, rw (ne→==-false _ 0 some_segment), final.clear)
    where
      start : Clear k (cleared boot_info memory s)
      start = record {
        bytes = initialize_bitmap-IsBytes _ memory _ _ bytes;
        clear =
            bitmap_get-initialize_bitmap boot_info.hhdm_offset memory _ (segment_of boot_info) k
              inside;
      }

      avoids_low : (n : ℕ) → n ≤ k → n * page_size ≤ 2 ^ 64 → Avoids k 0 n
      avoids_low n below fit i h = omega arith

      avoids_segment : Avoids k (segment_of boot_info) (bitmap_pages boot_info)
      avoids_segment i h =
          let index : index_of (add64 (segment_of boot_info) (i * page_size))
              ≡ segment_of boot_info / page_size + i =
            omega (arith, fits.segment, fits.small) in
          rw index (grind arith)

      reserve :
          (n : ℕ) (s : Pmm)
          → n ≤ k
          → n * page_size ≤ 2 ^ 64
          → Clear k s
          → Clear k (reserve_pages 0 n s)
      reserve n s below fit c =
          for_pages-Clear reserve_page (λ a s c. reserve_page-Clear a c) n 0 0 n s (omega arith)
            (avoids_low n below fit) c

      final : Clear k (locked boot_info memory s)
      final =
          for_pages-Clear lock_page (λ a s c. lock_page-Clear a c) (bitmap_pages boot_info)
            (segment_of boot_info) 0 (bitmap_pages boot_info) _ (omega arith) avoids_segment
            (reserve 0x10 _ high (omega arith) (
              unreserve_entries-Clear boot_info.mm_entries _ (
                reserve (boot_info.mm_total / page_size + 1) _ (omega arith)
                  (omega (arith, fits.small, inside)) start)))
