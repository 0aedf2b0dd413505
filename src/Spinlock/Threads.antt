-- ===== src/Spinlock/Threads.antt =====
-- spinlockAcquire and spinlockRelease as steps of threads that interleave: an attempt is one round of
-- the loop, which is one atomic operation, and a release is one atomic store.
use lightux.Spinlock.{Spinlock, test_and_set, spinlock_release}
use lightux.Prelude.{ℕ, ◌≡◌, ◌≢◌, ◌==◌, if◌then◌else◌}

-- Where a thread is: before the call or after the release, in the loop, or after the call.
pub data Phase : Type 0 where
  outside : Phase
  waiting : Phase
  holding : Phase

pub record System : Type 0 where
  pub lock : Spinlock
  pub phase : ℕ → Phase

abbrev pub set_phase : ℕ → Phase → (ℕ → Phase) → (ℕ → Phase)
set_phase t p phase u = if u == t then p else phase u

unfoldable pub attempt : ℕ → System → System
unfolding test_and_set
attempt t s =
    let (held, lock') = test_and_set s.lock in
    record { lock = lock'; phase = set_phase t (if held then waiting else holding) s.phase }

unfoldable pub leave : ℕ → System → System
unfolding spinlock_release
leave t s = record { lock = spinlock_release s.lock; phase = set_phase t outside s.phase }

-- A thread that does not hold the lock may try to take it, and one that holds it may release it.
pub data Step : System → System → Type 0 where
  attempts : {s : System} (t : ℕ) → s.phase t ≢ holding → Step s (attempt t s)
  leaves : {s : System} (t : ℕ) → s.phase t ≡ holding → Step s (leave t s)

pub data Run (s : System) : System → Type 0 where
  start : Run s s
  then_step : {s' s'' : System} → Run s s' → Step s' s'' → Run s s''
