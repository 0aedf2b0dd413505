-- ===== src/Pmm.antt =====
-- kernel/src/arch/x86_64/memory/pmm.c: the physical page allocator. The three counters, the bitmap
-- and the lock of the file are the state `Pmm`. Addresses and counters are 64-bit words, whose
-- arithmetic wraps; a loop over pages recurs on the rounds left.
pub mod Allocate
pub mod FirstFit
pub mod Init
pub mod Beyond
pub mod Invariant
pub mod Pages
mod Tests
pub mod OutOfMemory
pub mod Reach
pub mod Release
pub mod Room
pub mod Search
use lightux.Bitmap.{Bitmap, initialize_bitmap, bitmap_get, bitmap_set}
use lightux.Boot.{BootInfo, MemmapEntry, limine_memmap_usable}
use lightux.Spinlock.{Spinlock, spinlock_acquire, spinlock_release}
use lightux.Prelude.{
  ℕ, zero, suc, ◌+◌, ◌-◌, ◌*◌, ◌/◌, ◌^◌, Bool, true, false, ltb, leb, ◌==◌, if◌then◌else◌, add64,
  sub64, Outcome, returns, panics, spins, and_then, ◌%◌, ◌&&◌, List, [], ◌∷◌,
}

abbrev pub page_size : ℕ
page_size = 0x1000

-- `(size_t)-1`
abbrev pub invalid_page : ℕ
invalid_page = 2 ^ 64 - 1

pub record Pmm : Type 0 where
  pub free_memory : ℕ
  pub used_memory : ℕ
  pub reserved_memory : ℕ
  pub bitmap : Bitmap
  pub lock : Spinlock

abbrev pub index_of : ℕ → ℕ
index_of addr = addr / page_size

-- The bit cleared, and the search hint moved down to it: the end of pmm_FreePage and pmm_UnreservePage.
unfoldable pub release_index : Bitmap → ℕ → Bitmap
release_index bitmap index =
    let cleared = bitmap_set bitmap index false in
    if ltb index bitmap.last_deep_fragmented
    then record cleared { last_deep_fragmented = index }
    else cleared

unfoldable pub lock_page : ℕ → Pmm → Pmm
lock_page addr s = if bitmap_get s.bitmap (index_of addr) then s else record s {
  bitmap = bitmap_set s.bitmap (index_of addr) true;
  free_memory = sub64 s.free_memory page_size;
  used_memory = add64 s.used_memory page_size;
}

unfoldable pub free_page : ℕ → Pmm → Pmm
unfolding release_index
free_page addr s =
    if bitmap_get s.bitmap (index_of addr)
    then record s {
      bitmap = release_index s.bitmap (index_of addr);
      free_memory = add64 s.free_memory page_size;
      used_memory = sub64 s.used_memory page_size;
    }
    else s

unfoldable pub reserve_page : ℕ → Pmm → Pmm
reserve_page addr s = if bitmap_get s.bitmap (index_of addr) then s else record s {
  bitmap = bitmap_set s.bitmap (index_of addr) true;
  free_memory = sub64 s.free_memory page_size;
  reserved_memory = add64 s.reserved_memory page_size;
}

unfoldable pub unreserve_page : ℕ → Pmm → Pmm
unfolding release_index
unreserve_page addr s =
    if bitmap_get s.bitmap (index_of addr)
    then record s {
      bitmap = release_index s.bitmap (index_of addr);
      free_memory = add64 s.free_memory page_size;
      reserved_memory = sub64 s.reserved_memory page_size;
    }
    else s

-- `for (i = 0; i < numPages; i++) page(addr + i * PAGE_SIZE)`
unfoldable pub for_pages : (page : ℕ → Pmm → Pmm) → (rounds addr i : ℕ) → Pmm → Pmm
for_pages page zero addr i s = s
for_pages page (suc rounds) addr i s =
    for_pages page rounds addr (i + 1) (page (add64 addr (i * page_size)) s)

unfoldable pub lock_pages : (addr num_pages : ℕ) → Pmm → Pmm
unfolding for_pages
lock_pages addr num_pages s = for_pages lock_page num_pages addr 0 s

unfoldable pub free_pages : (addr num_pages : ℕ) → Pmm → Pmm
unfolding for_pages
free_pages addr num_pages s = for_pages free_page num_pages addr 0 s

unfoldable pub reserve_pages : (addr num_pages : ℕ) → Pmm → Pmm
unfolding for_pages
reserve_pages addr num_pages s = for_pages reserve_page num_pages addr 0 s

unfoldable pub unreserve_pages : (addr num_pages : ℕ) → Pmm → Pmm
unfolding for_pages
unreserve_pages addr num_pages s = for_pages unreserve_page num_pages addr 0 s

-- The loop of pmm_FindFreeRegion at index `i`, with the run that it has seen so far: the region
-- found, or `invalid_page` at the end, and the bitmap with its search hint.
unfoldable pub find_loop : (num_pages rounds i start size : ℕ) → Bitmap → ℕ × Bitmap
find_loop num_pages zero i start size bitmap = (invalid_page, bitmap)
find_loop num_pages (suc rounds) i start size bitmap =
    let hinted =
      if num_pages == 1 then record bitmap { last_deep_fragmented = start + 1 } else bitmap in
    let skip = find_loop num_pages rounds (i + 1) (i + 1) 0 bitmap in
    let grow = find_loop num_pages rounds (i + 1) start (size + 1) hinted in
    if bitmap_get bitmap i then skip else if leb num_pages (size + 1) then (start, hinted) else grow

unfoldable pub find_free_region : (num_pages : ℕ) → Bitmap → ℕ × Bitmap
unfolding find_loop
find_free_region num_pages bitmap =
    let start = bitmap.last_deep_fragmented in
    find_loop num_pages (bitmap.bitmap_size * 8 - start) start start 0 bitmap

unfoldable pub acquire : Pmm → Outcome Pmm (Unit {0})
unfolding spinlock_acquire
acquire s = elim (spinlock_acquire s.lock) [
  | returns _ l ↦ returns tt (record s { lock = l })
  | panics _ ↦ panics s
  | spins ↦ spins
]

abbrev pub release : Pmm → Pmm
release s = record s { lock = spinlock_release s.lock }

-- `(void*)(region * PAGE_SIZE)`
abbrev pub page_address : ℕ → ℕ
page_address region = region * page_size % 2 ^ 64

-- What follows the release of the lock: the address, or a panic where no region was found.
abbrev pub hand_out : ℕ → Pmm → Outcome Pmm ℕ
hand_out region s = if region == invalid_page then panics s else returns (page_address region) s

unfoldable pub allocate_page : Pmm → Outcome Pmm ℕ
unfolding spinlock_release
allocate_page s = and_then (acquire s) λ _ s.
    let (region, bitmap) = find_free_region 1 s.bitmap in
    hand_out region (release (lock_page (page_address region) (record s { bitmap = bitmap })))

-- A request for no pages returns NULL.
unfoldable pub allocate_pages : ℕ → Pmm → Outcome Pmm ℕ
unfolding spinlock_release
allocate_pages num_pages s =
    if num_pages == 0
    then returns 0 s
    else and_then (acquire s) λ _ s.
      let (region, bitmap) = find_free_region num_pages s.bitmap in
      hand_out region
        (release (lock_pages (page_address region) num_pages (record s { bitmap = bitmap })))

-- The largest usable segment: base and size, `(0, 0)` where there is none.
unfoldable pub largest_segment : List MemmapEntry → (segment size : ℕ) → ℕ × ℕ
largest_segment [] segment size = (segment, size)
largest_segment (entry ∷ entries) segment size =
    let larger = entry.kind == limine_memmap_usable && ltb size entry.length in
    largest_segment entries (if larger then entry.base else segment)
      (if larger then entry.length else size)

unfoldable pub unreserve_entries : List MemmapEntry → Pmm → Pmm
unreserve_entries [] s = s
unreserve_entries (entry ∷ entries) s = unreserve_entries entries (
    if entry.kind == limine_memmap_usable
    then unreserve_pages entry.base (entry.length / page_size) s
    else s)

-- InitializePMM. `memory` is what the largest segment holds, where the bitmap is laid.
unfoldable pub initialize_pmm : BootInfo → (memory : ℕ → ℕ) → Pmm → Outcome Pmm (Unit {0})
unfolding largest_segment unreserve_entries
initialize_pmm boot_info memory s =
    let (segment, size) = largest_segment boot_info.mm_entries 0 0 in
    let bitmap_size = boot_info.mm_total / page_size / 8 + 1 in
    let s1 : Pmm = record s {
      free_memory = boot_info.mm_total;
      bitmap = initialize_bitmap boot_info.hhdm_offset memory bitmap_size segment;
    } in
    let s2 = reserve_pages 0 (boot_info.mm_total / page_size + 1) s1 in
    let s3 = unreserve_entries boot_info.mm_entries s2 in
    let s4 = reserve_pages 0 0x10 s3 in
    let s5 = lock_pages segment (bitmap_size / page_size + 1) s4 in
    if segment == 0 then panics s else returns tt s5
