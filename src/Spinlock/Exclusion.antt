-- ===== src/Spinlock/Exclusion.antt =====
-- Mutual exclusion and progress for the threads of a spinlock.
use lightux.Spinlock.{test_and_set, spinlock_release}
use lightux.Spinlock.Threads.{
  Phase, outside, waiting, holding, System, set_phase, attempt, leave, Step, attempts, leaves, Run,
  start, then_step,
}
use lightux.Prelude.{
  ℕ, ◌≡◌, ◌≢◌, ◌⊎◌, inl, inr, refl, ap, sym, ◌∙◌, Bool, true, false, ◌==◌, if◌then◌else◌,
  Bool-cases, ==→eq, ==-false→ne, ==_refl,
}

-- At most one thread holds the lock, and the byte is set exactly while one does.
pub record Exclusive (s : System) : Type 0 where
  pub one : (t u : ℕ) → s.phase t ≡ holding → s.phase u ≡ holding → t ≡ u
  pub set : (t : ℕ) → s.phase t ≡ holding → s.lock.locked ≡ true
  pub owner : s.lock.locked ≡ true → (t : ℕ) × (s.phase t ≡ holding)

waiting-holding : ¬ (waiting ≡ holding)
waiting-holding e = cc

clash : ¬ (false ≡ true)
clash e = cc

outside-holding : ¬ (outside ≡ holding)
outside-holding e = cc

set_phase-same :
    (t u : ℕ) (p : Phase) (phase : ℕ → Phase) → (u == t) ≡ true → set_phase t p phase u ≡ p
set_phase-same t u p phase e = rw e refl

set_phase-other :
    (t u : ℕ) (p : Phase) (phase : ℕ → Phase) → (u == t) ≡ false → set_phase t p phase u ≡ phase u
set_phase-other t u p phase e = rw e refl

abbrev tried : Bool → Phase
tried held = if held then waiting else holding

attempt-phase :
    (t : ℕ) (s : System) → (attempt t s).phase ≡ set_phase t (tried s.lock.locked) s.phase
unfolding attempt test_and_set
attempt-phase t s = refl

-- The lock was held: the thread waits, and nothing else changes.
attempt-held :
    (t : ℕ) (s : System)
    → s.phase t ≢ holding
    → s.lock.locked ≡ true
    → Exclusive s
    → Exclusive (attempt t s)
unfolding attempt test_and_set
attempt-held t s differ held x = record {
  one = λ u v hu hv. x.one u v (before u hu) (before v hv);
  set = λ u hu. refl;
  owner = λ e. let (u, hu) = x.owner held in (u, after u hu);
}
  where
    before : (u : ℕ) → (attempt t s).phase u ≡ holding → s.phase u ≡ holding
    before u hu = elim (Bool-cases (u == t)) [
      | inl same ↦ absurd (
          waiting-holding (
            sym (ap tried held) ∙ sym (set_phase-same t u (tried s.lock.locked) s.phase same) ∙ hu))
      | inr other ↦ sym (set_phase-other t u (tried s.lock.locked) s.phase other) ∙ hu
    ]

    after : (u : ℕ) → s.phase u ≡ holding → (attempt t s).phase u ≡ holding
    after u hu = elim (Bool-cases (u == t)) [
      | inl same ↦ absurd (differ (sym (ap s.phase (==→eq u t same)) ∙ hu))
      | inr other ↦ set_phase-other t u (tried s.lock.locked) s.phase other ∙ hu
    ]

-- The lock was free: the thread has it now.
attempt-free : (t : ℕ) (s : System) → s.lock.locked ≡ false → Exclusive s → Exclusive (attempt t s)
unfolding attempt test_and_set
attempt-free t s free x = record {
  one = λ u v hu hv. only u hu ∙ sym (only v hv);
  set = λ u hu. refl;
  owner = λ e. (t, set_phase-same t t (tried s.lock.locked) s.phase (==_refl t) ∙ ap tried free);
}
  where
    only : (u : ℕ) → (attempt t s).phase u ≡ holding → u ≡ t
    only u hu = elim (Bool-cases (u == t)) [
      | inl same ↦ ==→eq u t same
      | inr other ↦
          let held = x.set u (sym (set_phase-other t u (tried s.lock.locked) s.phase other) ∙ hu) in
          absurd (clash (sym free ∙ held))
    ]

leave-Exclusive : (t : ℕ) (s : System) → s.phase t ≡ holding → Exclusive s → Exclusive (leave t s)
unfolding leave spinlock_release
leave-Exclusive t s mine x = record {
  one = λ u v hu hv. absurd (none_holds u hu);
  set = λ u hu. absurd (none_holds u hu);
  owner = λ e. absurd (clash e);
}
  where
    none_holds : (u : ℕ) → ¬ ((leave t s).phase u ≡ holding)
    none_holds u hu = elim (Bool-cases (u == t)) [
      | inl same ↦ outside-holding (sym (set_phase-same t u outside s.phase same) ∙ hu)
      | inr other ↦
          let held = sym (set_phase-other t u outside s.phase other) ∙ hu in
          ==-false→ne u t other (x.one u t held mine)
    ]

Step-Exclusive : {s s' : System} → Step s s' → Exclusive s → Exclusive s'
Step-Exclusive {s} (attempts t differ) x = elim (Bool-cases s.lock.locked) [
  | inl held ↦ attempt-held t s differ held x
  | inr free ↦ attempt-free t s free x
]
Step-Exclusive {s} (leaves t mine) x = leave-Exclusive t s mine x

-- However the threads of a system interleave their attempts and releases, from a state in which at
-- most one holds the lock and the byte is set exactly while one does, this stays so.
pub Run-Exclusive : {s s' : System} → Run s s' → Exclusive s → Exclusive s'
Run-Exclusive start x = x
Run-Exclusive (then_step run step) x = Step-Exclusive step (Run-Exclusive run x)

-- In such a state an attempt of any thread takes the lock, unless one holds it, and then the attempt
-- leaves that thread alone in holding it.
pub attempt-progress :
    (t : ℕ) (s : System)
    → Exclusive s
    → s.phase t ≢ holding
    → ((attempt t s).phase t ≡ holding)
      ⊎ ((u : ℕ) × (s.phase u ≡ holding) × ((v : ℕ) → (attempt t s).phase v ≡ holding → v ≡ u))
attempt-progress t s x differ = elim (Bool-cases s.lock.locked) [
  | inl held ↦
      let (u, hu) = x.owner held in
      let after = attempt-held t s differ held x in
      inr (u, hu, λ v hv. after.one v u hv (still u hu))
  | inr free ↦ inl (
      ap (λ f. f t) (attempt-phase t s)
      ∙ set_phase-same t t (tried s.lock.locked) s.phase (==_refl t)
      ∙ ap tried free)
]
  where
    still : (u : ℕ) → s.phase u ≡ holding → (attempt t s).phase u ≡ holding
    still u hu = elim (Bool-cases (u == t)) [
      | inl same ↦ absurd (differ (sym (ap s.phase (==→eq u t same)) ∙ hu))
      | inr other ↦
          ap (λ f. f u) (attempt-phase t s)
          ∙ set_phase-other t u (tried s.lock.locked) s.phase other
          ∙ hu
    ]
