-- ===== src/Vmm/Release.antt =====
-- vmm_FreePages undoes vmm_AllocatePages for pages that the higher half map covers.
use lightux.Boot.{BootInfo}
use lightux.Pmm.{Pmm, allocate_pages, free_pages}
use lightux.Pmm.Invariant.{IsValid}
use lightux.Pmm.FirstFit.{returns-Allocated}
use lightux.Pmm.Release.{Restored, free_pages-allocate_pages}
use lightux.Paging.{Paging, in_hhdm, virt_to_physical}
use lightux.Paging.Mapping.{virt_to_physical-hhdm}
use lightux.Vmm.{vmm_allocate_pages, vmm_free_pages}
use lightux.Prelude.{
  ℕ, ◌+◌, ◌<◌, ◌≤◌, ◌^◌, ◌≡◌, refl, ap, sym, subst, ◌∙◌, true, false, arith, add64, ◌==◌, Outcome,
  returns, panics, spins, Returns,
}

-- What a call that returns has had from the page allocator.
record Had (boot_info : BootInfo) (n : ℕ) (s : Paging) (virt : ℕ) (s' : Paging) : Type 0 where
  addr : ℕ
  pmm : Pmm
  call : allocate_pages n s.pmm ≡ returns addr pmm
  address : virt ≡ add64 addr boot_info.hhdm_offset
  state : s' ≡ record s { pmm = pmm }

vmm_allocate_pages-Had :
    (boot_info : BootInfo) (n : ℕ) (s : Paging) (virt : ℕ) (s' : Paging)
    → vmm_allocate_pages boot_info n s ≡ returns virt s'
    → Had boot_info n s virt s'
unfolding vmm_allocate_pages
vmm_allocate_pages-Had boot_info n s virt s' = go (allocate_pages n s.pmm) refl
  where
    go :
        (o : Outcome Pmm ℕ)
        → allocate_pages n s.pmm ≡ o
        → (elim o [
          | returns physical pmm ↦
              returns (add64 physical boot_info.hhdm_offset) (record s { pmm = pmm })
          | panics pmm ↦ panics (record s { pmm = pmm })
          | spins ↦ spins
        ])
          ≡ returns virt s'
        → Had boot_info n s virt s'
    go (returns a p) call e = record { addr = a; pmm = p; call = call; address = cc; state = cc }
    go (panics p) call e = cc
    go spins call e = cc

-- In a state that is valid for the total memory, with the lock free, and a higher half map that does
-- not wrap: where vmm_AllocatePages returns an address above the start of the map and not above its
-- end, vmm_FreePages of the same pages returns, and every bit and the three counters of the page
-- allocator are as they were before.
pub vmm_free_pages-vmm_allocate_pages :
    (boot_info : BootInfo) (n : ℕ) (s : Paging) (virt : ℕ) (s' : Paging)
    → IsValid boot_info.mm_total s.pmm
    → s.pmm.lock.locked ≡ false
    → 0 < n
    → boot_info.hhdm_offset + boot_info.mm_total < 2 ^ 64
    → vmm_allocate_pages boot_info n s ≡ returns virt s'
    → boot_info.hhdm_offset < virt
    → virt ≤ boot_info.hhdm_offset + boot_info.mm_total
    → Returns
        (vmm_free_pages boot_info virt n s')
        (λ _ s''. Restored boot_info.mm_total s.pmm s''.pmm)
unfolding vmm_free_pages
vmm_free_pages-vmm_allocate_pages boot_info n s virt s' valid unlocked pos fits e above below =
    let had = vmm_allocate_pages-Had boot_info n s virt s' e in
    let a = returns-Allocated n valid unlocked pos had.call in
    let small : had.addr < 2 ^ 64 =
      omega (arith, a.address, a.first.1, a.valid.accounts.small, a.size) in
    let inside : in_hhdm boot_info virt ≡ true = ground arith in
    let physical : virt_to_physical boot_info virt s' ≡ had.addr =
      virt_to_physical-hhdm boot_info virt s' inside ∙ omega (arith, had.address, small) in
    let some_page : (had.addr == 0) ≡ false = ground (arith, had.address, small) in
    (
      tt,
      record s' { pmm = free_pages had.addr n s'.pmm },
      rw (physical, some_page) refl,
      subst (λ p. Restored boot_info.mm_total s.pmm (free_pages had.addr n p))
          (sym (ap (λ (t : Paging). t.pmm) had.state))
          (free_pages-allocate_pages n valid unlocked pos had.call),
    )
