-- ===== src/Spinlock.antt =====
-- kernel/src/arch/x86_64/multitasking/spinlock.c: a lock on one byte.
pub mod Threads
pub mod Exclusion
mod Tests
use lightux.Prelude.{Bool, true, false, Outcome, returns, spins}

pub record Spinlock : Type 0 where
  pub locked : Bool

-- `__atomic_test_and_set`: the old value is returned, and the lock is taken.
unfoldable pub test_and_set : Spinlock → Bool × Spinlock
test_and_set lock = (lock.locked, record { locked = true })

-- What a caller that runs alone sees of `spinlockAcquire`: a free lock is taken at the first
-- attempt, and a lock that is held is never given back, so the loop spins.
unfoldable pub spinlock_acquire : Spinlock → Outcome Spinlock (Unit {0})
unfolding test_and_set
spinlock_acquire lock =
    let (held, lock') = test_and_set lock in elim held [ true ↦ spins | false ↦ returns tt lock' ]

unfoldable pub spinlock_release : Spinlock → Spinlock
spinlock_release lock = record { locked = false }
