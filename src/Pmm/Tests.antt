-- ===== src/Pmm/Tests.antt =====
-- pmm.c on a machine of eight pages, and on one that boots with twenty.
use lightux.Bitmap.{bitmap_get, bitmap_set, test_bit, write_bit}
use lightux.Boot.{BootInfo, get_boot_info}
use lightux.Spinlock.{Spinlock}
use lightux.Pmm.{
  Pmm, acquire, find_free_region, allocate_page, allocate_pages, free_page, free_pages, lock_pages,
  lock_page, initialize_pmm, largest_segment,
}
use lightux.Pmm.Invariant.{occupied, IsValid}
use lightux.Pmm.Search.{Found, find_free_region-Found}
use lightux.Pmm.FirstFit.{Allocated, Exhausted, allocate_pages-first_fit}
use lightux.Pmm.Room.{Room, allocate_page-returns}
use lightux.Pmm.Release.{Restored, free_pages-allocate_pages}
use lightux.Pmm.{lock_page}
use lightux.Pmm.Reach.{Reach, Idle, here, next, allocated, freed_page, Reach-Idle}
use lightux.Pmm.Init.{Fits, initialize_pmm-IsValid}
use lightux.Pmm.Beyond.{initialize_pmm-free_beyond_total}
use lightux.Prelude.{
  ◌*◌, ◌≡◌, refl, ◌⊎◌, inr, false, arith, ◌==◌, if◌then◌else◌, returns, Returns, [], ◌∷◌,
}

abbrev free_lock : Spinlock
free_lock = record { locked = false }

-- Pages 0 and 2 are taken; the other six are free.
abbrev eight : Pmm
eight = record {
  free_memory = 6 * 4096;
  used_memory = 4096;
  reserved_memory = 4096;
  bitmap = record {
    bitmap_size = 1;
    address = 0;
    buffer = λ i. if i == 0 then 0b1010_0000 else 0;
    last_deep_fragmented = 1;
  };
  lock = free_lock;
}

eight-IsValid : IsValid (8 * 4096) eight
unfolding occupied bitmap_get test_bit
eight-IsValid = record {
  accounts = record {
    bytes = record { byte = λ i. ground arith };
    small = omega arith;
    free = refl;
    taken = refl;
  };
  hint = λ k h. let e : k ≡ 0 = omega arith in rw e;
}

-- A request for two pages passes over page 1, which is free but alone.
eight_allocates : (find_free_region 2 eight.bitmap).0 ≡ 3
unfolding find_free_region bitmap_get test_bit
eight_allocates = refl

find_free_region-Found_example : Found eight.bitmap 2 1 8 (find_free_region 2 eight.bitmap)
find_free_region-Found_example = find_free_region-Found 2 eight.bitmap (omega arith)

allocate_pages-first_fit_example :
    Returns (allocate_pages 2 eight) (Allocated (8 * 4096) 2 eight)
    ⊎ Exhausted 2 eight (allocate_pages 2 eight)
allocate_pages-first_fit_example = allocate_pages-first_fit 2 eight-IsValid refl (omega arith)

-- The state after the two pages 3 and 4 are handed out.
abbrev after : Pmm
after = elim (allocate_pages 2 eight) [ returns a s ↦ s | _ ↦ eight ]

allocated_at : allocate_pages 2 eight ≡ returns 0x3000 after
unfolding allocate_pages acquire find_free_region bitmap_get test_bit
allocated_at = refl

free_pages-allocate_pages_example : Restored (8 * 4096) eight (free_pages 0x3000 2 after)
free_pages-allocate_pages_example =
    free_pages-allocate_pages 2 eight-IsValid refl (omega arith) allocated_at

-- Two pages out, and the first of them back.
one_life : Reach eight (free_page 0x3000 after)
unfolding allocate_pages acquire find_free_region bitmap_get test_bit lock_pages bitmap_set
    lock_page write_bit
one_life =
    next (next here (allocated 2 0x3000 (omega arith) allocated_at))
      (freed_page 0x3000 (omega arith))

Reach-Idle_example : Idle (8 * 4096) (free_page 0x3000 after)
Reach-Idle_example = Reach-Idle (record { valid = eight-IsValid; unlocked = refl }) one_life

-- The same machine with every page taken.
abbrev full : Pmm
full = record eight {
  free_memory = 0;
  used_memory = 7 * 4096;
  bitmap = record eight.bitmap { buffer = λ i. if i == 0 then 0b1111_1111 else 0 };
}

full-IsValid : IsValid (8 * 4096) full
unfolding occupied bitmap_get test_bit
full-IsValid = record {
  accounts = record {
    bytes = record { byte = λ i. ground arith };
    small = omega arith;
    free = refl;
    taken = refl;
  };
  hint = λ k h. let e : k ≡ 0 = omega arith in rw e;
}

-- Twenty pages, the last four usable.
abbrev machine : BootInfo
machine = get_boot_info 0x8000_0000 (
    record { base = 0; length = 0x1_0000; kind = 2 }
    ∷ record { base = 0x1_0000; length = 0x4000; kind = 0 }
    ∷ [])

abbrev unset : Pmm
unset = record eight { free_memory = 0; used_memory = 0; reserved_memory = 0 }

machine-Fits : Fits machine
unfolding get_boot_info largest_segment
machine-Fits = record {
  small = omega arith;
  low = omega arith;
  entries = omega arith;
  segment = omega arith;
}

initialize_pmm-IsValid_example :
    Returns (initialize_pmm machine (λ _. 0xff) unset) (λ _ s'. IsValid machine.mm_total s')
unfolding get_boot_info largest_segment
initialize_pmm-IsValid_example =
    initialize_pmm-IsValid machine (λ _. 0xff) unset (record { used = refl; reserved = refl })
      machine-Fits (λ i. omega arith) (omega arith)

initialize_pmm-free_beyond_total_example :
    Returns (initialize_pmm machine (λ _. 0xff) unset) (λ _ s'. bitmap_get s'.bitmap 22 ≡ false)
unfolding get_boot_info largest_segment
initialize_pmm-free_beyond_total_example =
    initialize_pmm-free_beyond_total machine (λ _. 0xff) unset 22 machine-Fits (λ i. omega arith)
      (omega arith) (omega arith) (omega arith) (omega arith) (omega arith) (inr (omega arith))

eight-Room : Room 6 eight
unfolding occupied bitmap_get test_bit
eight-Room = omega arith

allocate_page-returns_example :
    Returns (allocate_page eight) (λ addr s'. Allocated (8 * 4096) 1 eight addr s' × Room 5 s')
allocate_page-returns_example =
    allocate_page-returns 5 (record { valid = eight-IsValid; unlocked = refl }) eight-Room
