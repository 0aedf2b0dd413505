-- ===== src/Keyboard/Events.antt =====
-- What GetKey of keyboard.c comes to along a sequence of events, once a key has been read.
use lightux.Keyboard.{
  KeyInfo, irq_keyboard_handler, Event, runs, keyboard, other, Point, at_test, at_hlt, halted,
  at_read, at_clear, done, Thread, advance, happen, get_key,
}
use lightux.Prelude.{
  ℕ, suc, ◌≡◌, ◌≢◌, refl, ap, List, [], ◌∷◌, ◌++◌, inl, inr, ◌⊎◌, arith, Bool, true, false,
}

-- What the interrupts among the events do to the record of the keyboard.
abbrev pub handled : (behind : ℕ → ℕ) → List Event → KeyInfo → KeyInfo
handled behind [] s = s
handled behind (runs ∷ es) s = handled behind es s
handled behind (keyboard k ∷ es) s = handled behind es (irq_keyboard_handler behind k s)
handled behind (other ∷ es) s = handled behind es s

-- The number of steps that the thread takes.
abbrev pub steps : List Event → ℕ
steps [] = 0
steps (runs ∷ es) = suc (steps es)
steps (keyboard k ∷ es) = steps es
steps (other ∷ es) = steps es

abbrev pub is_done : Point → Bool
is_done at_test = false
is_done at_hlt = false
is_done halted = false
is_done at_read = false
is_done (at_clear key) = false
is_done (done key) = true

abbrev pub at : Point → KeyInfo → Thread
at p s = record { point = p; info = s }

-- The key is read after the events `before`, cleared after `between`, and `behind_it` come after that.
pub record Returned (behind : ℕ → ℕ) (events : List Event) (s : KeyInfo) (t : Thread) : Type 0 where
  pub before : List Event
  pub between : List Event
  pub after : List Event
  pub split : events ≡ before ++ (runs ∷ (between ++ (runs ∷ after)))
  pub some_key : (handled behind before s).key ≢ 0
  pub result :
      t
      ≡ at (done (handled behind before s).key) (
          handled behind after
            (record (handled behind between (handled behind before s)) { key = 0 }))

module _ (behind : ℕ → ℕ) where
  pub handler-key : (k : ℕ) (s : KeyInfo) → s.key ≢ 0 → (irq_keyboard_handler behind k s).key ≢ 0
  unfolding irq_keyboard_handler
  handler-key k s h e = ground (arith, h, e)

  pub get_key-done :
      (es : List Event) (k : ℕ) (s : KeyInfo)
      → get_key behind es (at (done k) s) ≡ at (done k) (handled behind es s)
  unfolding get_key happen
  get_key-done [] k s = refl
  get_key-done (runs ∷ es) k s = get_key-done es k s
  get_key-done (keyboard c ∷ es) k s = get_key-done es k (irq_keyboard_handler behind c s)
  get_key-done (other ∷ es) k s = get_key-done es k s

  -- From the point at which a key has been read.
  pub record Cleared (events : List Event) (k : ℕ) (s : KeyInfo) (t : Thread) : Type 0 where
    pub between : List Event
    pub after : List Event
    pub split : events ≡ between ++ (runs ∷ after)
    pub result :
        t ≡ at (done k) (handled behind after (record (handled behind between s) { key = 0 }))

  pub get_key-clear :
      (es : List Event) (k : ℕ) (s : KeyInfo)
      → Cleared es k s (get_key behind es (at (at_clear k) s))
        ⊎ ((is_done (get_key behind es (at (at_clear k) s)).point ≡ false) × (steps es ≡ 0))
  unfolding get_key happen advance
  get_key-clear [] k s = inr (refl, refl)
  get_key-clear (runs ∷ es) k s = inl (record {
    between = [];
    after = es;
    split = refl;
    result = get_key-done es k (record s { key = 0 });
  })
  get_key-clear (keyboard c ∷ es) k s =
      elim (get_key-clear es k (irq_keyboard_handler behind c s)) [
        | inl r ↦ inl (record {
          between = keyboard c ∷ r.between;
          after = r.after;
          split = ap (λ xs. keyboard c ∷ xs) r.split;
          result = r.result;
        })
        | inr late ↦ inr late
      ]
  get_key-clear (other ∷ es) k s = elim (get_key-clear es k s) [
    | inl r ↦ inl (record {
      between = other ∷ r.between;
      after = r.after;
      split = ap (λ xs. other ∷ xs) r.split;
      result = r.result;
    })
    | inr late ↦ inr late
  ]

  -- One event more in front.
  pub Returned-runs :
      (es : List Event) (s : KeyInfo) (t : Thread)
      → Returned behind es s t
      → Returned behind (runs ∷ es) s t
  Returned-runs es s t r = record {
    before = runs ∷ r.before;
    between = r.between;
    after = r.after;
    split = ap (λ xs. runs ∷ xs) r.split;
    some_key = r.some_key;
    result = r.result;
  }

  pub Returned-other :
      (es : List Event) (s : KeyInfo) (t : Thread)
      → Returned behind es s t
      → Returned behind (other ∷ es) s t
  Returned-other es s t r = record {
    before = other ∷ r.before;
    between = r.between;
    after = r.after;
    split = ap (λ xs. other ∷ xs) r.split;
    some_key = r.some_key;
    result = r.result;
  }

  pub Returned-keyboard :
      (c : ℕ) (es : List Event) (s : KeyInfo) (t : Thread)
      → Returned behind es (irq_keyboard_handler behind c s) t
      → Returned behind (keyboard c ∷ es) s t
  Returned-keyboard c es s t r = record {
    before = keyboard c ∷ r.before;
    between = r.between;
    after = r.after;
    split = ap (λ xs. keyboard c ∷ xs) r.split;
    some_key = r.some_key;
    result = r.result;
  }
