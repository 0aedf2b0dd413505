-- ===== src/Text/Search.antt =====
-- strchr of string.c: the first place of a character.
use lightux.Memory.{Mem}
use lightux.Text.{strchr_loop, strchr}
use lightux.Text.Length.{IsText, IsText-tail, IsText-zero, IsText-head}
use lightux.Prelude.{
  ℕ, zero, suc, ◌+◌, ◌<◌, ◌≡◌, ◌≢◌, ◌⊎◌, refl, ap, ◌∙◌, arith, ◌==◌, ne→==-false, ==→eq,
  ==-false→ne, Bool-cases, Returns, inl, inr, u8,
}

-- None of the first `n` characters is `c`.
abbrev pub Lacks : Mem → (s n c : ℕ) → Type 0
Lacks m s n c = (i : ℕ) → i < n → m (s + i) ≢ c

-- The result for a string of `n` characters: NULL where it lacks `c`, or else the first place of it.
abbrev pub Located : Mem → (s n c r : ℕ) → Type 0
Located m s n c r =
    ((r ≡ 0) × Lacks m s n c) ⊎ ((k : ℕ) × (k < n) × (r ≡ s + k) × (m (s + k) ≡ c) × Lacks m s k c)

Lacks-more : (m : Mem) (s n c : ℕ) → m s ≢ c → Lacks m (s + 1) n c → Lacks m s (suc n) c
Lacks-more m s n c differ rest zero h e = differ (ap m (omega arith) ∙ e)
Lacks-more m s n c differ rest (suc i) h e = rest i (omega arith) (ap m (omega arith) ∙ e)

Located-more : (m : Mem) (s n c r : ℕ) → m s ≢ c → Located m (s + 1) n c r → Located m s (suc n) c r
Located-more m s n c r differ (inl (e, rest)) = inl (e, Lacks-more m s n c differ rest)
Located-more m s n c r differ (inr (k, h, e, at, rest)) =
    inr (suc k, omega arith, omega arith, ap m (omega arith) ∙ at, Lacks-more m s k c differ rest)

strchr_loop-Located :
    (n rounds s c : ℕ) (m : Mem)
    → IsText m s n
    → n < rounds
    → Returns (strchr_loop rounds s c m) (λ r m'. (m' ≡ m) × Located m s n (u8 c) r)
unfolding strchr_loop
strchr_loop-Located n zero s c m t h = absurd (omega arith)
strchr_loop-Located zero (suc rounds) s c m t h = (
  0,
  m,
  rw (ap (λ b. b == 0) (IsText-zero m s t)) refl,
  (refl, inl (refl, λ i hi. absurd (omega arith))),
)
strchr_loop-Located (suc n) (suc rounds) s c m t h =
    let more = ne→==-false (m s) 0 (IsText-head m s n t) in
    elim (Bool-cases (m s == u8 c)) [
      | inl here ↦ (
        s,
        m,
        rw (more, here) refl,
        (
          refl,
          inr (
            0,
            omega arith,
            omega arith,
            ap m (omega arith) ∙ ==→eq (m s) (u8 c) here,
            λ i hi. absurd (omega arith),
          ),
        ),
      )
      | inr other ↦
          let (r, m', e, (kept, d)) =
            strchr_loop-Located n rounds (s + 1) c m (IsText-tail m s n t) (omega arith) in
          (
            r,
            m',
            rw (more, other) e,
            (kept, Located-more m s n (u8 c) r (==-false→ne (m s) (u8 c) other) d),
          )
    ]

-- For a string of n characters, its pointer not NULL, strchr returns with the memory as it was: NULL
-- where none of the n characters is the one sought, and otherwise the first place of it.
pub strchr-Located :
    (n rounds s c : ℕ) (m : Mem)
    → s ≢ 0
    → IsText m s n
    → n < rounds
    → Returns (strchr rounds s c m) (λ r m'. (m' ≡ m) × Located m s n (u8 c) r)
unfolding strchr
strchr-Located n rounds s c m hs t h =
    rw (ne→==-false s 0 hs) (strchr_loop-Located n rounds s c m t h)
