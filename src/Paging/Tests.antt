-- ===== src/Paging/Tests.antt =====
-- paging.c on a machine of eight pages, with an empty PML4 in page 2.
use lightux.Bitmap.{bitmap_get, test_bit}
use lightux.Boot.{BootInfo}
use lightux.Pmm.{Pmm}
use lightux.Pmm.Invariant.{occupied, IsValid}
use lightux.Pmm.Room.{Room}
use lightux.Paging.{Paging, map_page}
use lightux.Paging.Words.{is_present_lem}
use lightux.Paging.Tables.{Place, place, Roles}
use lightux.Paging.Mapping.{IsMapped, Translates}
use lightux.Paging.MapPage.{map_page-Translates}
use lightux.Prelude.{
  ℕ, ◌*◌, ◌≡◌, refl, ap, true, false, arith, ◌==◌, if◌then◌else◌, Returns, [], some, none, inl, inr,
  Bool-cases, ==→eq, ◌∙◌, sym,
}

abbrev pub boot : BootInfo
boot = record { hhdm_offset = 0xffff_8000_0000_0000; mm_total = 0x8000; mm_entries = [] }

abbrev pub pages : Pmm
pages = record {
  free_memory = 6 * 4096;
  used_memory = 4096;
  reserved_memory = 4096;
  bitmap = record {
    bitmap_size = 1;
    address = 0;
    buffer = λ i. if i == 0 then 0b1010_0000 else 0;
    last_deep_fragmented = 1;
  };
  lock = record { locked = false };
}

pub pages-IsValid : IsValid (8 * 4096) pages
unfolding occupied bitmap_get test_bit
pages-IsValid = record {
  accounts = record {
    bytes = record { byte = λ i. ground arith };
    small = omega arith;
    free = refl;
    taken = refl;
  };
  hint = λ k h. let e : k ≡ 0 = omega arith in rw e;
}

abbrev pub machine : Paging
machine = record {
  page_dir = 0xffff_8000_0000_2000;
  words = λ a. 0;
  pmm = pages;
  lock = record { locked = false };
  invalidated = [];
}

abbrev only_root : Roles
only_root q = if q == 2 then some (place 3 0) else none

nothing : (p : Place) → ¬ (none ≡ some p)
nothing p h = cc

root_only : (q : ℕ) (p : Place) → only_root q ≡ some p → q ≡ 2
root_only q p h = elim (Bool-cases (q == 2)) [
  | inl same ↦ ==→eq q 2 same
  | inr other ↦ absurd (nothing p (ap (λ b. if b then some (place 3 0) else none) (sym other) ∙ h))
]

root_taken : bitmap_get pages.bitmap 2 ≡ true
unfolding bitmap_get test_bit
root_taken = refl

pages-Room : Room 3 pages
unfolding occupied bitmap_get test_bit
pages-Room = omega arith

machine-IsMapped : IsMapped 0xffff_8000_0000_0000 (8 * 4096) only_root machine
machine-IsMapped = record {
  root = 2;
  page_dir = refl;
  at = refl;
  tree = record { child = λ q level prefix i h hi present. let empty = is_present_lem 0 in cc };
  owned = record {
    idle = record { valid = pages-IsValid; unlocked = refl };
    inside = λ q p h. omega (arith, root_only q p h);
    taken = λ q p h. ap (bitmap_get pages.bitmap) (root_only q p h) ∙ root_taken;
    frames = omega arith;
    aligned = refl;
  };
  unlocked = refl;
}

map_page-Translates_example :
    Returns
      (map_page boot 0x40_0000 0x5000 2 machine)
      (λ _ s'. Translates boot (8 * 4096) 0x40_0000 0x5000 machine s')
map_page-Translates_example =
    map_page-Translates boot (8 * 4096) 0x40_0000 0x5000 2 only_root machine machine-IsMapped
      pages-Room (omega arith) (omega arith)
