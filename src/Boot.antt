-- ===== src/Boot.antt =====
-- kernel/src/boot.c: what the boot loader reports, and the total that is computed from it.
use lightux.Prelude.{ℕ, List, [], ◌∷◌, ◌==◌, if◌then◌else◌, add64}

-- `struct limine_memmap_entry`, with the two kinds that the kernel tells apart.
pub record MemmapEntry : Type 0 where
  pub base : ℕ
  pub length : ℕ
  pub kind : ℕ

abbrev pub limine_memmap_usable : ℕ
limine_memmap_usable = 0

abbrev pub limine_memmap_reserved : ℕ
limine_memmap_reserved = 1

-- `bootInfo_t`; `mmNumEntries` is the length of the list.
pub record BootInfo : Type 0 where
  pub hhdm_offset : ℕ
  pub mm_total : ℕ
  pub mm_entries : List MemmapEntry

total_loop : List MemmapEntry → ℕ → ℕ
total_loop [] total = total
total_loop (entry ∷ entries) total =
    total_loop entries
      (if entry.kind == limine_memmap_reserved then total else add64 total entry.length)

-- GetBootInfo, for a boot loader that has set up four levels of page tables (it panics otherwise).
unfoldable pub get_boot_info : (hhdm_offset : ℕ) → List MemmapEntry → BootInfo
unfolding total_loop
get_boot_info hhdm_offset entries = record {
  hhdm_offset = hhdm_offset;
  mm_total = total_loop entries 0;
  mm_entries = entries;
}
