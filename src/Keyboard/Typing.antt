-- ===== src/Keyboard/Typing.antt =====
-- GetKey of keyboard.c, however interrupts interleave with it.
use lightux.Keyboard.{
  KeyInfo, irq_keyboard_handler, Event, runs, keyboard, other, Point, at_test, at_hlt, halted,
  at_read, at_clear, done, Thread, advance, happen, get_key,
}
use lightux.Prelude.{
  ℕ, ◌<◌, ◌≡◌, ◌≢◌, refl, ap, sym, subst, ◌==◌, if◌then◌else◌, List, [], ◌∷◌, ==-false→ne, ==→eq,
  Bool-cases, inl, inr, ◌⊎◌, arith, false,
}
use lightux.Keyboard.Events.{
  steps, is_done, at, Returned, handler-key, get_key-clear, Returned-runs, Returned-other,
  Returned-keyboard,
}

module _ (behind : ℕ → ℕ) where
  -- The points at which no key has been read; a key is there before the read.
  abbrev Ready : Point → KeyInfo → Type 0
  Ready at_test s = Unit {0}
  Ready at_hlt s = Unit {0}
  Ready halted s = Unit {0}
  Ready at_read s = s.key ≢ 0
  Ready (at_clear key) s = ⊥
  Ready (done key) s = ⊥

  -- Why GetKey need not have returned.
  abbrev Slow : Point → List Event → KeyInfo → Type 0
  Slow at_test es s = (s.key ≡ 0) ⊎ (steps es < 3)
  Slow at_hlt es s = Unit {0}
  Slow halted es s = Unit {0}
  Slow at_read es s = steps es < 2
  Slow (at_clear key) es s = Unit {0}
  Slow (done key) es s = Unit {0}

  abbrev Ends : Point → List Event → KeyInfo → Thread → Type 0
  Ends p es s t = Returned behind es s t ⊎ ((is_done t.point ≡ false) × Slow p es s)

  test-Slow :
      (c : ℕ) (es : List Event) (s : KeyInfo)
      → Slow at_test es (irq_keyboard_handler behind c s)
      → Slow at_test es s
  test-Slow c es s (inr few) = inr few
  test-Slow c es s (inl none_yet) = elim (Bool-cases (s.key == 0)) [
    | inl e ↦ inl (==→eq s.key 0 e)
    | inr e ↦ absurd (handler-key behind c s (==-false→ne s.key 0 e) none_yet)
  ]

  -- The same outcome, for other reasons.
  Ends-map :
      (p p' : Point) (es es' : List Event) (s s' : KeyInfo) (t : Thread)
      → (Returned behind es s t → Returned behind es' s' t)
      → (Slow p es s → Slow p' es' s')
      → Ends p es s t
      → Ends p' es' s' t
  Ends-map p p' es es' s s' t f g (inl r) = inl (f r)
  Ends-map p p' es es' s s' t f g (inr (waits, slow)) = inr (waits, g slow)

  get_key-Ends :
      (es : List Event) (p : Point) (s : KeyInfo)
      → Ready p s
      → Ends p es s (get_key behind es (at p s))
  unfolding get_key happen advance
  get_key-Ends [] at_test s h = inr (refl, inr (omega arith))
  get_key-Ends [] at_hlt s h = inr (refl, tt)
  get_key-Ends [] halted s h = inr (refl, tt)
  get_key-Ends [] at_read s h = inr (refl, omega arith)
  get_key-Ends [] (at_clear k) s h = absurd h
  get_key-Ends [] (done k) s h = absurd h
  get_key-Ends (runs ∷ es) at_test s h = elim (Bool-cases (s.key == 0)) [
    | inl e ↦
        subst
          (λ b.
            Ends at_test (runs ∷ es) s
              (get_key behind es (if b then at at_hlt s else at at_read s)))
          (sym e)
          (Ends-map at_hlt at_test es (runs ∷ es) s s _ (Returned-runs behind es s _)
            (λ slow. inl (==→eq s.key 0 e)) (get_key-Ends es at_hlt s tt))
    | inr e ↦
        subst
          (λ b.
            Ends at_test (runs ∷ es) s
              (get_key behind es (if b then at at_hlt s else at at_read s)))
          (sym e)
          (Ends-map at_read at_test es (runs ∷ es) s s _ (Returned-runs behind es s _)
            (λ slow. inr (omega (arith, slow))) (get_key-Ends es at_read s (==-false→ne s.key 0 e)))
  ]
  get_key-Ends (keyboard c ∷ es) at_test s h =
      Ends-map at_test at_test es (keyboard c ∷ es) (irq_keyboard_handler behind c s) s _
        (Returned-keyboard behind c es s _) (test-Slow c es s)
        (get_key-Ends es at_test (irq_keyboard_handler behind c s) tt)
  get_key-Ends (other ∷ es) at_test s h =
      Ends-map at_test at_test es (other ∷ es) s s _ (Returned-other behind es s _) (λ slow. slow)
        (get_key-Ends es at_test s tt)
  get_key-Ends (runs ∷ es) at_hlt s h =
      Ends-map halted at_hlt es (runs ∷ es) s s _ (Returned-runs behind es s _) (λ slow. tt)
        (get_key-Ends es halted s tt)
  get_key-Ends (keyboard c ∷ es) at_hlt s h =
      Ends-map at_hlt at_hlt es (keyboard c ∷ es) (irq_keyboard_handler behind c s) s _
        (Returned-keyboard behind c es s _) (λ slow. tt)
        (get_key-Ends es at_hlt (irq_keyboard_handler behind c s) tt)
  get_key-Ends (other ∷ es) at_hlt s h =
      Ends-map at_hlt at_hlt es (other ∷ es) s s _ (Returned-other behind es s _) (λ slow. tt)
        (get_key-Ends es at_hlt s tt)
  get_key-Ends (runs ∷ es) halted s h =
      Ends-map halted halted es (runs ∷ es) s s _ (Returned-runs behind es s _) (λ slow. tt)
        (get_key-Ends es halted s tt)
  get_key-Ends (keyboard c ∷ es) halted s h =
      Ends-map at_test halted es (keyboard c ∷ es) (irq_keyboard_handler behind c s) s _
        (Returned-keyboard behind c es s _) (λ slow. tt)
        (get_key-Ends es at_test (irq_keyboard_handler behind c s) tt)
  get_key-Ends (other ∷ es) halted s h =
      Ends-map at_test halted es (other ∷ es) s s _ (Returned-other behind es s _) (λ slow. tt)
        (get_key-Ends es at_test s tt)
  get_key-Ends (runs ∷ es) at_read s h = elim (get_key-clear behind es s.key s) [
    | inl r ↦ inl (record {
      before = [];
      between = r.between;
      after = r.after;
      split = ap (λ xs. runs ∷ xs) r.split;
      some_key = h;
      result = r.result;
    })
    | inr (waits, none_left) ↦ inr (waits, omega (arith, none_left))
  ]
  get_key-Ends (keyboard c ∷ es) at_read s h =
      Ends-map at_read at_read es (keyboard c ∷ es) (irq_keyboard_handler behind c s) s _
        (Returned-keyboard behind c es s _) (λ slow. slow)
        (get_key-Ends es at_read (irq_keyboard_handler behind c s) (handler-key behind c s h))
  get_key-Ends (other ∷ es) at_read s h =
      Ends-map at_read at_read es (other ∷ es) s s _ (Returned-other behind es s _) (λ slow. slow)
        (get_key-Ends es at_read s h)
  get_key-Ends (e ∷ es) (at_clear k) s h = absurd h
  get_key-Ends (e ∷ es) (done k) s h = absurd h

  -- However interrupts interleave with the steps of GetKey, from its start: it has returned, and then what it
  -- returns is the key as the interrupts up to its read have left it, which is not 0, and the record is what
  -- the interrupts up to the clearing have left, with the key cleared, and then those behind it; or it has
  -- not returned, and then there was no key at the start or it has taken less than three steps.
  pub get_key-Returned :
      (events : List Event) (s : KeyInfo)
      → Returned behind events s (get_key behind events (at at_test s))
        ⊎ ((is_done (get_key behind events (at at_test s)).point ≡ false)
            × ((s.key ≡ 0) ⊎ (steps events < 3)))
  get_key-Returned events s = get_key-Ends events at_test s tt
