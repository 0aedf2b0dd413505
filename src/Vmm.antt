-- ===== src/Vmm.antt =====
-- kernel/src/arch/x86_64/memory/vmm.c: pages by their addresses in the higher half map.
pub mod Release
mod Tests
use lightux.Boot.{BootInfo}
use lightux.Pmm.{Pmm, allocate_pages, free_pages}
use lightux.Paging.{Paging, virt_to_physical}
use lightux.Prelude.{ℕ, add64, ◌==◌, if◌then◌else◌, Outcome, returns, panics, spins}

unfoldable pub vmm_allocate_pages : BootInfo → (num_pages : ℕ) → Paging → Outcome Paging ℕ
vmm_allocate_pages boot_info num_pages s = elim (allocate_pages num_pages s.pmm) [
  | returns physical pmm ↦ returns (add64 physical boot_info.hhdm_offset) (record s { pmm = pmm })
  | panics pmm ↦ panics (record s { pmm = pmm })
  | spins ↦ spins
]

unfoldable pub vmm_allocate_page : BootInfo → Paging → Outcome Paging ℕ
vmm_allocate_page boot_info s = vmm_allocate_pages boot_info 1 s

unfoldable pub vmm_free_pages : BootInfo → (addr num_pages : ℕ) → Paging → Outcome Paging (Unit {0})
vmm_free_pages boot_info addr num_pages s =
    let physical = virt_to_physical boot_info addr s in
    if physical == 0
    then panics s
    else returns tt (record s { pmm = free_pages physical num_pages s.pmm })

unfoldable pub vmm_free_page : BootInfo → (addr : ℕ) → Paging → Outcome Paging (Unit {0})
vmm_free_page boot_info addr s = vmm_free_pages boot_info addr 1 s
