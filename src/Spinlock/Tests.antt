-- ===== src/Spinlock/Tests.antt =====
-- Two threads at a spinlock: 0 takes it, 1 tries in vain, 0 releases it and 1 takes it.
use lightux.Spinlock.{test_and_set, spinlock_release}
use lightux.Spinlock.Threads.{
  outside, holding, System, attempt, leave, attempts, leaves, Run, start, then_step,
}
use lightux.Spinlock.Exclusion.{Exclusive, Run-Exclusive, attempt-progress}
use lightux.Prelude.{ℕ, ◌≡◌, ◌≢◌, ◌⊎◌, refl, false}

abbrev idle : System
idle = record { lock = record { locked = false }; phase = λ t. outside }

idle-Exclusive : Exclusive idle
idle-Exclusive = record { one = λ t u ht hu. cc; set = λ t ht. cc; owner = λ e. cc }

abbrev last : System
last = attempt 1 (leave 0 (attempt 1 (attempt 0 idle)))

contention : Run idle last
unfolding attempt leave test_and_set spinlock_release
contention =
    then_step
      (then_step (then_step (then_step start (attempts 0 (λ e. cc))) (attempts 1 (λ e. cc)))
        (leaves 0 refl))
      (attempts 1 (λ e. cc))

Run-Exclusive_example : Exclusive last
Run-Exclusive_example = Run-Exclusive contention idle-Exclusive

not_yet : idle.phase 1 ≢ holding
not_yet e = cc

attempt-progress_example :
    ((attempt 1 idle).phase 1 ≡ holding)
    ⊎ ((u : ℕ) × (idle.phase u ≡ holding) × ((v : ℕ) → (attempt 1 idle).phase v ≡ holding → v ≡ u))
attempt-progress_example = attempt-progress 1 idle idle-Exclusive not_yet
