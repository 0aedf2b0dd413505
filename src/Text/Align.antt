-- ===== src/Text/Align.antt =====
-- align of maths.c: rounding up to a multiple.
use native.Mathlib.Nat.{div-add-mod', mod-lt, add-mul, one-mul}
use lightux.Text.{align}
use lightux.Prelude.{
  ℕ, ◌+◌, ◌*◌, ◌/◌, ◌%◌, ◌^◌, ◌≤◌, ◌<◌, ◌≡◌, arith, ltb, add64, sub64, Bool-cases, inl, inr, ap,
  ◌∙◌, sym,
}

-- `r` is the least multiple of `a` that is not below `size`.
pub record Aligned (size a r : ℕ) : Type 0 where
  pub factor : ℕ
  pub multiple : r ≡ factor * a
  pub above : size ≤ r
  pub least : r < size + a

-- align, of a size to an alignment that is not 0, their sum below 2^64, gives the least multiple of
-- the alignment that is not below the size.
pub align-Aligned : (size a : ℕ) → 0 < a → size + a < 2 ^ 64 → Aligned size a (align size a)
unfolding align
align-Aligned size a pos fits =
    let split = div-add-mod' size a in
    let small = mod-lt size pos in
    elim (Bool-cases (ltb 0 (size % a))) [
      | inl rest ↦
          let e : add64 (sub64 size (size % a)) a ≡ size / a * a + a = omega (arith, split) in
          let next : (size / a + 1) * a ≡ size / a * a + a =
            add-mul (size / a) 1 a ∙ ap (λ t. size / a * a + t) (one-mul a) in
          rw (rest, e)
            (record {
              factor = size / a + 1;
              multiple = sym next;
              above = omega (arith, split, small);
              least = ground (arith, split, rest);
            })
      | inr none_left ↦
          let exact : size % a ≡ 0 = ground (arith, none_left) in
          rw none_left (record {
            factor = size / a;
            multiple = omega (arith, split, exact);
            above = omega arith;
            least = omega arith;
          })
    ]
