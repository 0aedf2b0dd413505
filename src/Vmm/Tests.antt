-- ===== src/Vmm/Tests.antt =====
-- vmm.c on the machine of eight pages: two pages are handed out at page 3 and freed again.
use lightux.Bitmap.{bitmap_get, test_bit}
use lightux.Pmm
use lightux.Pmm.{allocate_pages, find_free_region}
use lightux.Pmm.Release.{Restored}
use lightux.Paging.{Paging}
use lightux.Paging.Tests.{boot, machine, pages, pages-IsValid}
use lightux.Vmm.{vmm_allocate_pages, vmm_free_pages}
use lightux.Vmm.Release.{vmm_free_pages-vmm_allocate_pages}
use lightux.Prelude.{◌≡◌, refl, arith, Returns, returns}

abbrev after : Paging
after = elim (vmm_allocate_pages boot 2 machine) [ returns a s ↦ s | _ ↦ machine ]

allocated_at : vmm_allocate_pages boot 2 machine ≡ returns 0xffff_8000_0000_3000 after
unfolding vmm_allocate_pages allocate_pages Pmm.acquire find_free_region bitmap_get test_bit
allocated_at = refl

vmm_free_pages-vmm_allocate_pages_example :
    Returns
      (vmm_free_pages boot 0xffff_8000_0000_3000 2 after)
      (λ _ s''. Restored 0x8000 pages s''.pmm)
vmm_free_pages-vmm_allocate_pages_example =
    vmm_free_pages-vmm_allocate_pages boot 2 machine 0xffff_8000_0000_3000 after pages-IsValid refl
      (omega arith) (omega arith) allocated_at (omega arith) (omega arith)
