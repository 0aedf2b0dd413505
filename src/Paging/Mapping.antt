-- ===== src/Paging/Mapping.antt =====
-- paging_MapPage and paging_VirtToPhysical together: the page mapped is the page translated, and no
-- other address is translated otherwise than before.
use lightux.Boot.{BootInfo}
use lightux.Paging.{
  Paging, pf_present, is_present, strip_sx, p_phys_addr, in_hhdm, virt_to_physical,
}
use lightux.Paging.Words.{
  strip_sx_lem, p_phys_addr_lem, pte_get_addr_lem, page_offset_lem, is_present_lem, page_entry_lem,
}
use lightux.Paging.Tables.{place, Roles, base, IsTree, IsOwned, walk_from}
use lightux.Paging.Walk.{walk-eq-walk_from}
use lightux.Paging.Fresh.{last_entry}
use lightux.Prelude.{
  ℕ, ◌+◌, ◌*◌, ◌/◌, ◌%◌, ◌^◌, ◌<◌, ◌≡◌, ◌≢◌, ap, ◌∙◌, true, false, some, arith, sub64, bit_or,
}

-- The page of an address, of those that 48 bits tell apart.
abbrev pub page_of : ℕ → ℕ
page_of virt = virt % 2 ^ 48 / 4096

-- A tree of tables below the page directory, in pages of the allocator, and the lock free.
pub record IsMapped (hhdm total : ℕ) (role : Roles) (s : Paging) : Type 0 where
  pub root : ℕ
  pub page_dir : s.page_dir ≡ base hhdm root
  pub at : role root ≡ some (place 3 0)
  pub tree : IsTree hhdm role s.words
  pub owned : IsOwned hhdm total role s.pmm
  pub unlocked : s.lock.locked ≡ false

-- What a call of paging_MapPage does to the translation of every address.
pub record Translates (boot_info : BootInfo) (total virt_addr physical : ℕ) (s s' : Paging)
    : Type 0 where
  pub role' : Roles
  pub still : IsMapped boot_info.hhdm_offset total role' s'
  pub here :
      (v : ℕ)
      → v < 2 ^ 64
      → in_hhdm boot_info v ≡ false
      → page_of v ≡ page_of virt_addr
      → virt_to_physical boot_info v s' ≡ physical / 4096 % 2 ^ 40 * 4096 + v % 4096
  pub elsewhere :
      (v : ℕ)
      → v < 2 ^ 64
      → page_of v ≢ page_of virt_addr
      → virt_to_physical boot_info v s' ≡ virt_to_physical boot_info v s
  pub higher_half :
      (v : ℕ)
      → in_hhdm boot_info v ≡ true
      → virt_to_physical boot_info v s' ≡ virt_to_physical boot_info v s

-- The address that the walk is done for.
abbrev pub walked : ℕ → ℕ
walked v = strip_sx (p_phys_addr v)

walked_lem : (v : ℕ) → v < 2 ^ 64 → walked v ≡ v / 4096 * 4096 % 2 ^ 48
walked_lem v h = strip_sx_lem (p_phys_addr v) ∙ ap (λ n. n % 2 ^ 48) (p_phys_addr_lem v h)

pub walked-page : (v : ℕ) → v < 2 ^ 64 → (walked v / 4096 ≡ page_of v) × (walked v / 2 ^ 48 ≡ 0)
walked-page v h = (omega (arith, walked_lem v h), omega (arith, walked_lem v h))

pub virt_to_physical-hhdm :
    (boot_info : BootInfo) (v : ℕ) (s : Paging)
    → in_hhdm boot_info v ≡ true
    → virt_to_physical boot_info v s ≡ sub64 v boot_info.hhdm_offset
unfolding virt_to_physical
virt_to_physical-hhdm boot_info v s h = rw h

pub virt_to_physical-walk :
    (boot_info : BootInfo) (v : ℕ) (s : Paging)
    → in_hhdm boot_info v ≡ false
    → virt_to_physical boot_info v s
      ≡ walk_from boot_info.hhdm_offset 3 s.words s.page_dir (walked v) v
unfolding virt_to_physical
virt_to_physical-walk boot_info v s h =
    rw h (walk-eq-walk_from boot_info.hhdm_offset s.words s.page_dir (walked v) v)

pub last_entry-page :
    (physical flags v : ℕ)
    → physical < 2 ^ 64
    → flags < 4096
    → last_entry (bit_or (bit_or (p_phys_addr physical) pf_present) flags) v
      ≡ physical / 4096 % 2 ^ 40 * 4096 + v % 4096
last_entry-page physical flags v hp hf =
    let word = bit_or (bit_or (p_phys_addr physical) pf_present) flags in
    let (q, low) = page_entry_lem physical flags hp hf in
    let present : is_present word ≡ true = is_present_lem word ∙ ground (arith, low) in
    rw present (omega (arith, pte_get_addr_lem word, page_offset_lem v, q))
