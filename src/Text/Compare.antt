-- ===== src/Text/Compare.antt =====
-- strcmp of string.c: the difference of the first characters that differ.
use lightux.Memory.{Mem}
use lightux.Text.{signed_order, char_difference, strcmp_loop, strcmp}
use lightux.Text.Length.{IsText, IsText-tail, IsText-zero, IsText-head}
use lightux.Prelude.{
  ℕ, zero, suc, ◌+◌, ◌-◌, ◌≤◌, ◌<◌, ◌≡◌, ◌≢◌, ◌⊎◌, refl, ap, ap₂, subst, sym, ◌∙◌, true, arith,
  ◌==◌, ltb, leb, ltb→lt, ltb-false→le, if◌then◌else◌, ne→==-false, ==→eq, ==-false→ne, Bool-cases,
  Returns, inl, inr, ℤ, pos, negsuc, ◌↔◌,
}

-- What strcmp finds: the two strings, of `n` and `k` characters, agree below `at`, where they differ
-- or both end, and the result is the difference of the characters there.
pub record Stopped (m : Mem) (a n b k : ℕ) (r : ℤ) : Type 0 where
  pub at : ℕ
  pub in_a : at ≤ n
  pub in_b : at ≤ k
  pub before : (i : ℕ) → i < at → m (a + i) ≡ m (b + i)
  pub stop : (m (a + at) ≢ m (b + at)) ⊎ ((at ≡ n) × (at ≡ k))
  pub result : r ≡ char_difference (m (a + at)) (m (b + at))

first : (m : Mem) (a : ℕ) → m (a + 0) ≡ m a
first m a = ap m (omega arith)

Stopped-now :
    (m : Mem) (a n b k : ℕ)
    → (m a ≢ m b) ⊎ ((0 ≡ n) × (0 ≡ k))
    → Stopped m a n b k (char_difference (m a) (m b))
Stopped-now m a n b k h = record {
  at = 0;
  in_a = omega arith;
  in_b = omega arith;
  before = λ i hi. absurd (omega arith);
  stop = elim h [
    | inl differ ↦ inl (λ e. differ (sym (first m a) ∙ e ∙ first m b))
    | inr ends ↦ inr ends
  ];
  result = ap₂ char_difference (sym (first m a)) (sym (first m b));
}

after : (m : Mem) (a i : ℕ) → m (a + suc i) ≡ m (a + 1 + i)
after m a i = ap m (omega arith)

Stopped-later :
    (m : Mem) (a n b k : ℕ) (r : ℤ)
    → m a ≡ m b
    → Stopped m (a + 1) n (b + 1) k r
    → Stopped m a (suc n) b (suc k) r
Stopped-later m a n b k r e d = record {
  at = suc d.at;
  in_a = omega (arith, d.in_a);
  in_b = omega (arith, d.in_b);
  before = below;
  stop = elim d.stop [
    | inl differ ↦ inl (λ same. differ (sym (after m a d.at) ∙ same ∙ after m b d.at))
    | inr ends ↦ inr (omega (arith, ends.0), omega (arith, ends.1))
  ];
  result = d.result ∙ ap₂ char_difference (sym (after m a d.at)) (sym (after m b d.at));
}
  where
    below : (i : ℕ) → i < suc d.at → m (a + i) ≡ m (b + i)
    below zero hi = first m a ∙ e ∙ sym (first m b)
    below (suc i) hi = after m a i ∙ d.before i (omega arith) ∙ sym (after m b i)

strcmp_loop-Stopped :
    (n k rounds a b : ℕ) (m : Mem)
    → IsText m a n
    → IsText m b k
    → n < rounds
    → Returns (strcmp_loop rounds a b m) (λ r m'. (m' ≡ m) × Stopped m a n b k r)
unfolding strcmp_loop
strcmp_loop-Stopped n k zero a b m ta tb h = absurd (omega arith)
strcmp_loop-Stopped zero k (suc rounds) a b m ta tb h =
    let end = IsText-zero m a ta in
    (
      _,
      m,
      rw (ap (λ c. c == 0) end) refl,
      (refl, Stopped-now m a 0 b k (elim (both k tb) [ inl d ↦ inl d | inr e ↦ inr (refl, e) ])),
    )
  where
    both : (k : ℕ) → IsText m b k → (m a ≢ m b) ⊎ (0 ≡ k)
    both zero tb = inr refl
    both (suc k) tb = inl (λ e. IsText-head m b k tb (sym e ∙ IsText-zero m a ta))
strcmp_loop-Stopped (suc n) zero (suc rounds) a b m ta tb h =
    let more = ne→==-false (m a) 0 (IsText-head m a n ta) in
    let end = ap (λ c. c == 0) (IsText-zero m b tb) in
    (
      _,
      m,
      rw (more, end) refl,
      (
        refl,
        Stopped-now m a (suc n) b 0 (inl (λ e. IsText-head m a n ta (e ∙ IsText-zero m b tb))),
      ),
    )
strcmp_loop-Stopped (suc n) (suc k) (suc rounds) a b m ta tb h =
    let more_a = ne→==-false (m a) 0 (IsText-head m a n ta) in
    let more_b = ne→==-false (m b) 0 (IsText-head m b k tb) in
    elim (Bool-cases (m a == m b)) [
      | inl same ↦
          let (r, m', e, (kept, d)) =
            strcmp_loop-Stopped n k rounds (a + 1) (b + 1) m (IsText-tail m a n ta)
              (IsText-tail m b k tb) (omega arith) in
          (
            r,
            m',
            rw (more_a, more_b, same) e,
            (kept, Stopped-later m a n b k r (==→eq (m a) (m b) same) d),
          )
      | inr other ↦ (
        _,
        m,
        rw (more_a, more_b, other) refl,
        (refl, Stopped-now m a (suc n) b (suc k) (inl (==-false→ne (m a) (m b) other))),
      )
    ]

-- For two strings, both pointers not NULL, strcmp returns with the memory as it was; its result is the
-- difference, as signed characters, at the first place where the strings differ or both end.
pub strcmp-Stopped :
    (n k rounds a b : ℕ) (m : Mem)
    → a ≢ 0
    → b ≢ 0
    → IsText m a n
    → IsText m b k
    → n < rounds
    → Returns (strcmp rounds a b m) (λ r m'. (m' ≡ m) × Stopped m a n b k r)
unfolding strcmp
strcmp-Stopped n k rounds a b m ha hb ta tb h =
    rw (ne→==-false a 0 ha, ne→==-false b 0 hb) (strcmp_loop-Stopped n k rounds a b m ta tb h)

char_difference-same : (c : ℕ) → char_difference c c ≡ pos 0
unfolding char_difference
char_difference-same c =
    let le : leb (signed_order c) (signed_order c) ≡ true = ground arith in
    rw le (ap pos (omega arith))

abbrev magnitude : ℤ → ℕ
magnitude (pos n) = n
magnitude (negsuc n) = n

-- The difference is 0 for equal bytes only.
pub char_difference-zero : (a b : ℕ) → a < 256 → b < 256 → char_difference a b ≡ pos 0 → a ≡ b
unfolding char_difference
char_difference-zero a b ha hb e = elim (Bool-cases (leb (signed_order b) (signed_order a))) [
  | inl le ↦
      let d : pos (signed_order a - signed_order b) ≡ pos 0 =
        subst
          (λ t.
            (if t
              then pos (signed_order a - signed_order b)
              else negsuc (signed_order b - signed_order a - 1))
            ≡ pos 0)
          le e in
      let z : signed_order a - signed_order b ≡ 0 = ap magnitude d in ground arith
  | inr gt ↦
      let d : negsuc (signed_order b - signed_order a - 1) ≡ pos 0 =
        subst
          (λ t.
            (if t
              then pos (signed_order a - signed_order b)
              else negsuc (signed_order b - signed_order a - 1))
            ≡ pos 0)
          gt e in
      cc
]

-- The same characters.
abbrev pub SameText : Mem → (a n b k : ℕ) → Type 0
SameText m a n b k = (n ≡ k) × ((i : ℕ) → i < n → m (a + i) ≡ m (b + i))

-- For two strings of bytes, both pointers not NULL, strcmp returns 0 exactly where they have the same
-- characters.
pub strcmp-zero :
    (n k rounds a b : ℕ) (m : Mem)
    → a ≢ 0
    → b ≢ 0
    → ((i : ℕ) → m i < 256)
    → IsText m a n
    → IsText m b k
    → n < rounds
    → Returns (strcmp rounds a b m) (λ r m'. (r ≡ pos 0) ↔ SameText m a n b k)
strcmp-zero n k rounds a b m ha hb bytes ta tb h =
    let (r, m', e, (kept, d)) = strcmp-Stopped n k rounds a b m ha hb ta tb h in
    (r, m', e, (same r d, zero_result r d))
  where
    same : (r : ℤ) → Stopped m a n b k r → r ≡ pos 0 → SameText m a n b k
    same r d z =
        let e = char_difference-zero _ _ (bytes (a + d.at)) (bytes (b + d.at)) (sym d.result ∙ z) in
        elim d.stop [
          | inl differ ↦ absurd (differ e)
          | inr ends ↦ (sym ends.0 ∙ ends.1, λ i hi. d.before i (omega (arith, ends.0)))
        ]

    zero_result : (r : ℤ) → Stopped m a n b k r → SameText m a n b k → r ≡ pos 0
    zero_result r d eq =
        d.result
        ∙ ap (λ c. char_difference c (m (b + d.at))) agree
        ∙ char_difference-same (m (b + d.at))
      where
        ends_here : d.at ≡ n → m (a + d.at) ≡ m (b + d.at)
        ends_here at_end =
            ap (λ j. m (a + j)) at_end
            ∙ ta.end
            ∙ sym tb.end
            ∙ ap (λ j. m (b + j)) (sym eq.0 ∙ sym at_end)

        agree : m (a + d.at) ≡ m (b + d.at)
        agree = elim (Bool-cases (ltb d.at n)) [
          | inl before_end ↦ eq.1 d.at (ltb→lt d.at n before_end)
          | inr past ↦ ends_here (omega (arith, ltb-false→le d.at n past, d.in_a))
        ]
