-- ===== src/Printf/Numerals.antt =====
-- The text of a number: its digits, most significant first.
use native.Mathlib.Nat.{div-add-mod', mod-lt, mul-le-mul_left, pow-suc}
use lightux.Printf.{hex_chars, digits_loop, digits}
use native.Mathlib.Nat.{pow-zero, div-lt_iff_lt-mul}
use lightux.Prelude.{
  ℕ, zero, suc, ◌+◌, ◌-◌, ◌*◌, ◌/◌, ◌%◌, ◌^◌, ◌≤◌, ◌<◌, ◌≡◌, ◌≢◌, refl, ap, sym, subst, ◌∙◌, ltb,
  ◌==◌, if◌then◌else◌, List, [], ◌∷◌, arith, Bool-cases, inl, inr, ==→eq, ==-false→ne,
}

-- The digit of a character of `g_HexChars`.
abbrev pub digit_of : (c : ℕ) → ℕ
digit_of c = if ltb c 58 then c - 48 else c - 87

-- The number that digits write behind those of `acc`.
unfoldable pub value : (radix acc : ℕ) → List ℕ → ℕ
value radix acc [] = acc
value radix acc (c ∷ cs) = value radix (acc * radix + digit_of c) cs

unfoldable pub count : List ℕ → ℕ
count [] = 0
count (c ∷ cs) = suc (count cs)

digit_of-hex_chars : (d : ℕ) → d < 16 → digit_of (hex_chars d) ≡ d
digit_of-hex_chars d h = ground (arith, h)

digits_loop-last :
    (rounds number radix : ℕ) (buffer : List ℕ)
    → number / radix ≡ 0
    → digits_loop (suc rounds) number radix buffer ≡ hex_chars (number % radix) ∷ buffer
unfolding digits_loop
digits_loop-last rounds number radix buffer e = ground (arith, e)

digits_loop-more :
    (rounds number radix : ℕ) (buffer : List ℕ)
    → number / radix ≢ 0
    → digits_loop (suc rounds) number radix buffer
      ≡ digits_loop rounds (number / radix) radix (hex_chars (number % radix) ∷ buffer)
unfolding digits_loop
digits_loop-more rounds number radix buffer e = ground (arith, e)

-- One digit less.
quotient :
    (base radix rounds number : ℕ)
    → 0 < radix
    → base ≤ radix
    → number < base ^ suc rounds
    → number / radix < base ^ rounds
quotient base radix rounds number pos le small =
    let e = pow-suc base rounds in
    let more : base ^ rounds * base ≤ base ^ rounds * radix = mul-le-mul_left (base ^ rounds) le in
    (div-lt_iff_lt-mul pos).1 (omega (arith, e, more, small))

value-cons :
    (radix acc c : ℕ) (cs : List ℕ)
    → value radix acc (c ∷ cs) ≡ value radix (acc * radix + digit_of c) cs
unfolding value
value-cons radix acc c cs = refl

value-digit :
    (number radix : ℕ) (buffer : List ℕ)
    → 2 ≤ radix
    → radix ≤ 16
    → value radix (number / radix) (hex_chars (number % radix) ∷ buffer) ≡ value radix number buffer
value-digit number radix buffer lo hi =
    let below : number % radix < radix = mod-lt number (omega (arith, lo)) in
    value-cons radix (number / radix) (hex_chars (number % radix)) buffer
    ∙ ap (λ d. value radix (number / radix * radix + d) buffer)
        (digit_of-hex_chars (number % radix) (omega (arith, below, hi)))
    ∙ ap (λ n. value radix n buffer) (omega (arith, div-add-mod' number radix))

module _ (radix : ℕ) (lo : 2 ≤ radix) (hi : radix ≤ 16) where
  value-step :
      (rounds number : ℕ) (buffer : List ℕ)
      → (number / radix ≢ 0
          → value radix 0
              (digits_loop rounds (number / radix) radix (hex_chars (number % radix) ∷ buffer))
            ≡ value radix (number / radix) (hex_chars (number % radix) ∷ buffer))
      → value radix 0 (digits_loop (suc rounds) number radix buffer) ≡ value radix number buffer
  value-step rounds number buffer rest = elim (Bool-cases (number / radix == 0)) [
    | inl last ↦
        let e = ==→eq (number / radix) 0 last in
        ap (value radix 0) (digits_loop-last rounds number radix buffer e)
        ∙ ap (λ q. value radix q (hex_chars (number % radix) ∷ buffer)) (sym e)
        ∙ value-digit number radix buffer lo hi
    | inr more ↦
        let ne = ==-false→ne (number / radix) 0 more in
        ap (value radix 0) (digits_loop-more rounds number radix buffer ne)
        ∙ rest ne
        ∙ value-digit number radix buffer lo hi
  ]

  digits_loop-value :
      (rounds number : ℕ) (buffer : List ℕ)
      → number < 2 ^ suc rounds
      → value radix 0 (digits_loop (suc rounds) number radix buffer) ≡ value radix number buffer
  digits_loop-value zero number buffer small =
      let none_left = quotient 2 radix 0 number (omega (arith, lo)) lo small in
      value-step zero number buffer (λ ne. absurd (omega (arith, ne, none_left, pow-zero 2)))
  digits_loop-value (suc rounds) number buffer small =
      let fewer = quotient 2 radix (suc rounds) number (omega (arith, lo)) lo small in
      value-step (suc rounds) number buffer (λ ne.
        digits_loop-value rounds (number / radix) (hex_chars (number % radix) ∷ buffer) fewer)

-- The digits of a number of 64 bits, in a radix from 8 to 16, in which the buffer has room for them,
-- write that number.
pub digits-value :
    (number radix : ℕ)
    → 8 ≤ radix
    → radix ≤ 16
    → number < 2 ^ 64
    → value radix 0 (digits number radix) ≡ number
unfolding value
digits-value number radix lo hi small =
    digits_loop-value radix (omega (arith, lo)) hi 63 number [] small

module _ (radix : ℕ) (lo : 8 ≤ radix) where
  count-cons : (c : ℕ) (cs : List ℕ) → count (c ∷ cs) ≡ suc (count cs)
  unfolding count
  count-cons c cs = refl

  count-step :
      (rounds n number : ℕ) (buffer : List ℕ)
      → (number / radix ≢ 0
          → count (digits_loop rounds (number / radix) radix (hex_chars (number % radix) ∷ buffer))
            ≤ n + count (hex_chars (number % radix) ∷ buffer))
      → count (digits_loop (suc rounds) number radix buffer) ≤ suc n + count buffer
  count-step rounds n number buffer rest =
      let cons = count-cons (hex_chars (number % radix)) buffer in
      elim (Bool-cases (number / radix == 0)) [
        | inl last ↦
            let e =
              ap count
                (digits_loop-last rounds number radix buffer (==→eq (number / radix) 0 last)) in
            omega (arith, e, cons)
        | inr more ↦
            let ne = ==-false→ne (number / radix) 0 more in
            let e = ap count (digits_loop-more rounds number radix buffer ne) in
            omega (arith, e, cons, rest ne)
      ]

  digits_loop-count :
      (n extra number : ℕ) (buffer : List ℕ)
      → number < 8 ^ suc n
      → count (digits_loop (suc n + extra) number radix buffer) ≤ suc n + count buffer
  digits_loop-count zero extra number buffer small =
      let none_left = quotient 8 radix 0 number (omega (arith, lo)) lo small in
      let e : suc 0 + extra ≡ suc extra = omega arith in
      subst (λ r. count (digits_loop r number radix buffer) ≤ 1 + count buffer) (sym e)
        (count-step extra 0 number buffer (λ ne. absurd (omega (arith, ne, none_left, pow-zero 8))))
  digits_loop-count (suc n) extra number buffer small =
      let fewer = quotient 8 radix (suc n) number (omega (arith, lo)) lo small in
      let e : suc (suc n) + extra ≡ suc (suc n + extra) = omega arith in
      subst (λ r. count (digits_loop r number radix buffer) ≤ suc (suc n) + count buffer) (sym e)
        (count-step (suc n + extra) (suc n) number buffer (λ ne.
          digits_loop-count n extra (number / radix) (hex_chars (number % radix) ∷ buffer) fewer))

-- In a radix from 8 on, a number of 64 bits has at most 22 digits, which the buffer of 32 has room for.
pub digits-count :
    (number radix : ℕ) → 8 ≤ radix → number < 2 ^ 64 → count (digits number radix) ≤ 22
unfolding count
digits-count number radix lo small =
    digits_loop-count radix lo 21 42 number [] (omega (arith, small))
