-- ===== src/Paging.antt =====
-- kernel/src/arch/x86_64/memory/paging.c: the four levels of page tables. `words` maps the virtual
-- address of an aligned 64-bit word to its value; the tables are read and written there, through the
-- higher half map. Taking and flushing the TLB entry is a record of the address.
pub mod Words
pub mod Tables
pub mod Walk
pub mod Fresh
pub mod Chain
pub mod Descend
pub mod Entry
pub mod MapPage
pub mod Mapping
pub mod Tests
use lightux.Boot.{BootInfo}
use lightux.Pmm.{Pmm, page_size, allocate_page}
use lightux.Spinlock.{Spinlock, spinlock_acquire, spinlock_release}
use lightux.Prelude.{
  ℕ, ◌+◌, ◌-◌, ◌*◌, ◌/◌, ◌^◌, ◌%◌, Bool, true, false, ◌&&◌, List, ◌∷◌, Option, none, some, leb, ltb,
  ◌==◌, if◌then◌else◌, add64, sub64, bit_and, bit_or, Outcome, returns, panics, spins, and_then,
}

pub record Paging : Type 0 where
  pub page_dir : ℕ
  pub words : ℕ → ℕ
  pub pmm : Pmm
  pub lock : Spinlock
  pub invalidated : List ℕ

abbrev pub pf_present : ℕ
pf_present = 1

abbrev pub pf_rw : ℕ
pf_rw = 2

abbrev pub pf_user : ℕ
pf_user = 4

-- `(a >> shift) & PGMASK_ENTRY`, for the shift of each level.
unfoldable pub table_index : (shift address : ℕ) → ℕ
table_index shift address = bit_and (address / 2 ^ shift) 0x1ff

abbrev pub pml4e : ℕ → ℕ
pml4e = table_index 39

abbrev pub pdpte : ℕ → ℕ
pdpte = table_index 30

abbrev pub pde : ℕ → ℕ
pde = table_index 21

abbrev pub pte : ℕ → ℕ
pte = table_index 12

-- AMD64_MM_STRIPSX, PTE_GET_ADDR and P_PHYS_ADDR; `~0xFFF` is the int -4096, widened to 64 bits.
unfoldable pub strip_sx : ℕ → ℕ
strip_sx address = bit_and address 0xffff_ffff_ffff

unfoldable pub pte_get_addr : ℕ → ℕ
pte_get_addr value = bit_and value 0x000f_ffff_ffff_f000

unfoldable pub p_phys_addr : ℕ → ℕ
p_phys_addr address = bit_and address (2 ^ 64 - 2 ^ 12)

unfoldable pub is_present : ℕ → Bool
is_present entry = ltb 0 (bit_and entry pf_present)

-- `table[index]` for a table of 64-bit words.
abbrev pub slot : (table index : ℕ) → ℕ
slot table index = table + 8 * index

abbrev pub write_word : ℕ → ℕ → (ℕ → ℕ) → (ℕ → ℕ)
write_word address value words a = if a == address then value else words a

-- `memset(page, 0, PAGE_SIZE)`, seen by words.
abbrev pub clear_page : ℕ → (ℕ → ℕ) → (ℕ → ℕ)
clear_page page words a = if leb page a && ltb a (page + page_size) then 0 else words a

-- The table that an entry points to, through the higher half map.
abbrev pub table_of : (hhdm_offset entry : ℕ) → ℕ
table_of hhdm_offset entry = add64 (pte_get_addr entry) hhdm_offset

unfoldable pub physical_allocate : (hhdm_offset : ℕ) → Paging → Outcome Paging ℕ
physical_allocate hhdm_offset s = elim (allocate_page s.pmm) [
  | returns physical pmm ↦
      returns physical
        (record s { pmm = pmm; words = clear_page (add64 physical hhdm_offset) s.words })
  | panics pmm ↦ panics (record s { pmm = pmm })
  | spins ↦ spins
]

-- One level of paging_MapPage: an entry that is not present gets a fresh table, and the table that
-- the entry then points to is returned.
unfoldable pub next_table : (hhdm_offset table index : ℕ) → Paging → Outcome Paging ℕ
next_table hhdm_offset table index s =
    if is_present (s.words (slot table index))
    then returns (table_of hhdm_offset (s.words (slot table index))) s
    else and_then (physical_allocate hhdm_offset s) λ target s.
      let entry = bit_or (bit_or (bit_or target pf_present) pf_rw) pf_user in
      returns (table_of hhdm_offset entry)
        (record s { words = write_word (slot table index) entry s.words })

unfoldable pub acquire : Paging → Outcome Paging (Unit {0})
acquire s = elim (spinlock_acquire s.lock) [
  | returns _ l ↦ returns tt (record s { lock = l })
  | panics _ ↦ panics s
  | spins ↦ spins
]

-- The last entry, the flush and the release of the lock.
unfoldable pub set_page : (virt physical flags table index : ℕ) → Paging → Paging
set_page virt physical flags table index s = record s {
  words =
      write_word (slot table index) (bit_or (bit_or (p_phys_addr physical) pf_present) flags)
        s.words;
  invalidated = virt ∷ s.invalidated;
  lock = spinlock_release s.lock;
}

unfoldable pub map_page :
    BootInfo → (virt_addr physical_addr flags : ℕ) → Paging → Outcome Paging (Unit {0})
map_page boot_info virt_addr physical_addr flags s =
    let virt = strip_sx virt_addr in
    let hhdm = boot_info.hhdm_offset in
    and_then (acquire s) λ _ s. and_then (next_table hhdm s.page_dir (pml4e virt) s) λ pdp s.
      and_then (next_table hhdm pdp (pdpte virt) s) λ pd s.
        and_then (next_table hhdm pd (pde virt) s)
          λ pt s. returns tt (set_page virt physical_addr flags pt (pte virt) s)

-- The table below an entry that is present.
abbrev pub lookup_table : (hhdm_offset : ℕ) → (ℕ → ℕ) → (table index : ℕ) → Option ℕ
lookup_table hhdm_offset words table index =
    if is_present (words (slot table index))
    then some (table_of hhdm_offset (words (slot table index)))
    else none

abbrev pub and_look {ℓ} : {A : Type ℓ} → A → Option ℕ → (ℕ → A) → A
and_look absent none k = absent
and_look absent (some t) k = k t

-- The walk of paging_VirtToPhysical; 0 where an entry is not present.
unfoldable pub walk : (hhdm_offset : ℕ) → (ℕ → ℕ) → (page_dir virt virt_init : ℕ) → ℕ
walk hhdm words page_dir virt virt_init =
    and_look 0 (lookup_table hhdm words page_dir (pml4e virt)) λ pdp.
      and_look 0 (lookup_table hhdm words pdp (pdpte virt)) λ pd.
        and_look 0 (lookup_table hhdm words pd (pde virt)) λ pt.
          if is_present (words (slot pt (pte virt)))
          then add64 (pte_get_addr (words (slot pt (pte virt)))) (bit_and virt_init 0xfff)
          else 0

-- Addresses of the higher half map are translated without the tables.
abbrev pub in_hhdm : BootInfo → ℕ → Bool
in_hhdm boot_info virt =
    leb boot_info.hhdm_offset virt && leb virt (add64 boot_info.hhdm_offset boot_info.mm_total)

unfoldable pub virt_to_physical : BootInfo → (virt_addr : ℕ) → Paging → ℕ
unfolding walk
virt_to_physical boot_info virt_addr s =
    if in_hhdm boot_info virt_addr
    then sub64 virt_addr boot_info.hhdm_offset
    else walk boot_info.hhdm_offset s.words s.page_dir (strip_sx (p_phys_addr virt_addr)) virt_addr
