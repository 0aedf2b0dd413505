-- ===== src/Paging/Tables.antt =====
-- The shape of a tree of page tables. A frame `q` is the physical page `q`, seen at `base q`.
use lightux.Bitmap.{bitmap_get}
use lightux.Pmm.{Pmm, page_size}
use lightux.Pmm.Invariant.{limit}
use lightux.Pmm.Reach.{Idle}
use lightux.Paging.{
  slot, table_of, table_index, is_present, lookup_table, and_look, pte_get_addr, pte,
}
use lightux.Paging.Words.{pte_get_addr_lem}
use lightux.Prelude.{
  ℕ, zero, suc, ◌+◌, ◌*◌, ◌/◌, ◌%◌, ◌^◌, ◌≤◌, ◌<◌, ◌≡◌, ◌≢◌, true, false, Option, none, some, arith,
  leb, ltb, ◌&&◌, if◌then◌else◌, add64, bit_and,
}

abbrev pub frame : ℕ → ℕ
frame entry = entry / 4096 % 2 ^ 40

-- The level of a table (3 for the PML4, 0 for a page table) and the number that the indices above
-- it spell: the virtual address that it stands for, cut below its level.
pub record Place : Type 0 where
  pub level : ℕ
  pub prefix : ℕ

abbrev pub place : ℕ → ℕ → Place
place level prefix = record { level = level; prefix = prefix }

-- Which frames hold tables, and where in the tree.
abbrev pub Roles : Type 0
Roles = ℕ → Option Place

-- The index of a virtual address at a level, and its number above the index.
abbrev pub index_at : (level virt : ℕ) → ℕ
index_at level virt = table_index (12 + 9 * level) virt

abbrev pub prefix_at : (level virt : ℕ) → ℕ
prefix_at zero virt = virt / 2 ^ 21
prefix_at (suc zero) virt = virt / 2 ^ 30
prefix_at (suc (suc zero)) virt = virt / 2 ^ 39
prefix_at (suc (suc (suc level))) virt = virt / 2 ^ 48

-- What the walk makes of the last entry.
abbrev pub final : (ℕ → ℕ) → (virt virt_init table : ℕ) → ℕ
final words virt virt_init table =
    if is_present (words (slot table (pte virt)))
    then add64 (pte_get_addr (words (slot table (pte virt)))) (bit_and virt_init 0xfff)
    else 0

module _ (hhdm_offset : ℕ) where
  abbrev pub base : ℕ → ℕ
  base q = add64 hhdm_offset (q * 4096)

  pub slot-base_injective :
      (q r i j : ℕ)
      → hhdm_offset % 4096 ≡ 0
      → q < 2 ^ 40
      → r < 2 ^ 40
      → i < 512
      → j < 512
      → slot (base q) i ≡ slot (base r) j
      → (q ≡ r) × (i ≡ j)
  slot-base_injective q r i j aligned hq hr hi hj e = (omega arith, omega arith)

  -- A word of one table does not lie in the page of another.
  pub slot-outside :
      (q r i : ℕ)
      → hhdm_offset % 4096 ≡ 0
      → q < 2 ^ 40
      → r < 2 ^ 40
      → i < 512
      → q ≢ r
      → (leb (base r) (slot (base q) i) && ltb (slot (base q) i) (base r + page_size)) ≡ false
  slot-outside q r i aligned hq hr hi differ = ground arith

  -- Every present entry above the last level points to a table that stands one index further down.
  pub record IsTree (role : Roles) (words : ℕ → ℕ) : Type 0 where
    pub child :
        (q level prefix i : ℕ)
        → role q ≡ some (place (suc level) prefix)
        → i < 512
        → is_present (words (slot (base q) i)) ≡ true
        → role (frame (words (slot (base q) i))) ≡ some (place level (prefix * 512 + i))

  abbrev pub Low : Roles → Type 0
  Low role = (q : ℕ) (p : Place) → role q ≡ some p → q < 2 ^ 40

  -- The tables are pages that the allocator has handed out, and its state is valid.
  pub record IsOwned (total : ℕ) (role : Roles) (pmm : Pmm) : Type 0 where
    pub idle : Idle total pmm
    pub inside : (q : ℕ) (p : Place) → role q ≡ some p → q < limit pmm.bitmap
    pub taken : (q : ℕ) (p : Place) → role q ≡ some p → bitmap_get pmm.bitmap q ≡ true
    pub frames : limit pmm.bitmap ≤ 2 ^ 40
    pub aligned : hhdm_offset % 4096 ≡ 0

  pub IsOwned-Low : {total : ℕ} {role : Roles} {pmm : Pmm} → IsOwned total role pmm → Low role
  IsOwned-Low owned q p h = omega (arith, owned.inside q p h, owned.frames)

  pub table_of-base : (entry : ℕ) → table_of hhdm_offset entry ≡ base (frame entry)
  table_of-base entry = omega (arith, pte_get_addr_lem entry)

  -- The page table that the walk for `virt` ends in, from the table at `table` down.
  unfoldable pub leaf : (level : ℕ) → (ℕ → ℕ) → (table virt : ℕ) → Option ℕ
  leaf zero words table virt = some table
  leaf (suc level) words table virt =
      and_look none (lookup_table hhdm_offset words table (index_at (suc level) virt))
        λ next. leaf level words next virt

  abbrev pub walk_from : (level : ℕ) → (ℕ → ℕ) → (table virt virt_init : ℕ) → ℕ
  walk_from level words table virt virt_init =
      and_look 0 (leaf level words table virt) (final words virt virt_init)
