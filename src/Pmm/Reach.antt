-- ===== src/Pmm/Reach.antt =====
-- The life of the allocator: any sequence of its operations.
use lightux.Pmm.{Pmm, allocate_page, allocate_pages, free_page, free_pages, lock_pages, index_of}
use lightux.Pmm.Invariant.{limit, IsValid}
use lightux.Pmm.Pages.{InRange, free_page-Kept, free_pages-Kept, lock_pages-Kept}
use lightux.Pmm.FirstFit.{returns-Allocated, allocate_page-eq-allocate_pages}
use lightux.Spinlock.{Spinlock}
use lightux.Prelude.{ℕ, ◌<◌, ◌≡◌, false, arith, returns, ◌∙◌, sym, ap}

-- One call from another part of the kernel, on addresses within the bitmap.
pub data Step (s : Pmm) : Pmm → Type 0 where
  allocated_page : {s' : Pmm} (addr : ℕ) → allocate_page s ≡ returns addr s' → Step s s'
  allocated : {s' : Pmm} (n addr : ℕ) → 0 < n → allocate_pages n s ≡ returns addr s' → Step s s'
  locked : (addr n : ℕ) → InRange s addr n → Step s (lock_pages addr n s)
  freed_page : (addr : ℕ) → index_of addr < limit s.bitmap → Step s (free_page addr s)
  freed : (addr n : ℕ) → InRange s addr n → Step s (free_pages addr n s)

pub data Reach (s : Pmm) : Pmm → Type 0 where
  here : Reach s s
  next : {t u : Pmm} → Reach s t → Step t u → Reach s u

-- Between two calls the state is valid and the lock is free.
pub record Idle (total : ℕ) (s : Pmm) : Type 0 where
  pub valid : IsValid total s
  pub unlocked : s.lock.locked ≡ false

Step-Idle : {total : ℕ} {s t : Pmm} → Step s t → Idle total s → Idle total t
Step-Idle {s} (allocated_page addr e) idle =
    let a =
      returns-Allocated 1 idle.valid idle.unlocked (omega arith)
        (sym (allocate_page-eq-allocate_pages s) ∙ e) in
    record { valid = a.valid; unlocked = a.unlocked }
Step-Idle (allocated n addr pos e) idle =
    let a = returns-Allocated n idle.valid idle.unlocked pos e in
    record { valid = a.valid; unlocked = a.unlocked }
Step-Idle {s} (locked addr n range) idle = record {
  valid = (lock_pages-Kept addr n idle.valid range).valid;
  unlocked =
      ap (λ (l : Spinlock). l.locked) (lock_pages-Kept addr n idle.valid range).lock
      ∙ idle.unlocked;
}
Step-Idle (freed_page addr inside) idle = record {
  valid = (free_page-Kept addr idle.valid inside).valid;
  unlocked =
      ap (λ (l : Spinlock). l.locked) (free_page-Kept addr idle.valid inside).lock ∙ idle.unlocked;
}
Step-Idle (freed addr n range) idle = record {
  valid = (free_pages-Kept addr n idle.valid range).valid;
  unlocked =
      ap (λ (l : Spinlock). l.locked) (free_pages-Kept addr n idle.valid range).lock
      ∙ idle.unlocked;
}

-- However the kernel calls the allocator, on addresses within the bitmap, its state stays valid for
-- the same total and the lock is free after each call that returns.
pub Reach-Idle : {total : ℕ} {s t : Pmm} → Idle total s → Reach s t → Idle total t
Reach-Idle idle here = idle
Reach-Idle idle (next r step) = Step-Idle step (Reach-Idle idle r)
