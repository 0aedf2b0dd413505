-- ===== src/Prelude/Runs.antt =====
-- How a kernel routine over a state `S` ends: it returns a value, it calls `panic`, which halts the
-- machine in the state reached, or it never gets past a lock or a loop.
use mathlib.Core.Path.{◌≡◌}

pub data Outcome (S A : Type 0) : Type 0 where
  returns : A → S → Outcome S A
  panics : S → Outcome S A
  spins : Outcome S A

-- A run that returns, with a postcondition on its value and its final state.
abbrev pub Returns : {S A : Type 0} → Outcome S A → (A → S → Type 0) → Type 0
Returns {S} {A} r P = (a : A) × (s : S) × (r ≡ returns a s) × P a s

-- The rest of a routine, run on what a part of it returns.
abbrev pub and_then : {S A B : Type 0} → Outcome S A → (A → S → Outcome S B) → Outcome S B
and_then (returns a s) k = k a s
and_then (panics s) k = panics s
and_then spins k = spins
