-- ===== src/Bits.antt =====
-- Laws of `&` and `|` at variables: a mask of consecutive ones, disjoint fields, and the byte tables.
use Prim.Native.Nat.{digits, bit_and-bitwise, bit_or-bitwise}
use native.Mathlib.Nat.{pow-suc, one-le-pow}
use lightux.Prelude.{
  ℕ, zero, suc, ◌+◌, ◌-◌, ◌*◌, ◌/◌, ◌%◌, ◌^◌, ◌≤◌, ◌<◌, min, max, bit_and, bit_or, ◌≡◌, refl, sym,
  ap, ap₂, subst, ◌∙◌, Bool, true, ◌&&◌, arith,
}

-- The native operations recur on fuel, for which any bound of the first number serves.
module _ (z : ℕ → ℕ) (f : ℕ → ℕ → ℕ) where
  digits-fuel : (n m a b : ℕ) → a ≤ n → a ≤ m → digits z f n a b ≡ digits z f m a b
  digits-fuel zero zero zero b p q = refl
  digits-fuel zero zero (suc a) b p q = refl
  digits-fuel zero (suc m) zero b p q = refl
  digits-fuel zero (suc m) (suc a) b p q = absurd (omega arith)
  digits-fuel (suc n) zero zero b p q = refl
  digits-fuel (suc n) zero (suc a) b p q = absurd (omega arith)
  digits-fuel (suc n) (suc m) zero b p q = refl
  digits-fuel (suc n) (suc m) (suc a) b p q =
      omega (arith, digits-fuel n m (suc a / 2) (b / 2) (omega arith) (omega arith))

-- The lowest digit of each operation.
pub bit_and-step : (a b : ℕ) → bit_and a b ≡ bit_and (a / 2) (b / 2) * 2 + min (a % 2) (b % 2)
bit_and-step zero b = omega (arith, bit_and-bitwise 0 b, bit_and-bitwise 0 (b / 2))
bit_and-step (suc a) b = omega (
  arith,
  bit_and-bitwise (suc a) b,
  bit_and-bitwise (suc a / 2) (b / 2),
  digits-fuel (λ _. 0) min a (suc a / 2) (suc a / 2) (b / 2) (omega arith) (omega arith),
)

pub bit_or-step : (a b : ℕ) → bit_or a b ≡ bit_or (a / 2) (b / 2) * 2 + max (a % 2) (b % 2)
bit_or-step zero b = omega (arith, bit_or-bitwise 0 b, bit_or-bitwise 0 (b / 2))
bit_or-step (suc a) b = omega (
  arith,
  bit_or-bitwise (suc a) b,
  bit_or-bitwise (suc a / 2) (b / 2),
  digits-fuel (λ y. y) max a (suc a / 2) (suc a / 2) (b / 2) (omega arith) (omega arith),
)

-- Every law below is proved for the numbers under a bound `n`, by recursion on it.
bit_and-zero_below : (n a : ℕ) → a ≤ n → bit_and a 0 ≡ 0
bit_and-zero_below n zero h = refl
bit_and-zero_below zero (suc a) h = absurd (omega arith)
bit_and-zero_below (suc n) (suc a) h =
    omega (arith, bit_and-step (suc a) 0, bit_and-zero_below n (suc a / 2) (omega arith))

pub bit_and-zero : (a : ℕ) → bit_and a 0 ≡ 0
bit_and-zero a = bit_and-zero_below a a (omega arith)

bit_or-zero_below : (n a : ℕ) → a ≤ n → bit_or a 0 ≡ a
bit_or-zero_below n zero h = refl
bit_or-zero_below zero (suc a) h = absurd (omega arith)
bit_or-zero_below (suc n) (suc a) h =
    omega (arith, bit_or-step (suc a) 0, bit_or-zero_below n (suc a / 2) (omega arith))

pub bit_or-zero : (a : ℕ) → bit_or a 0 ≡ a
bit_or-zero a = bit_or-zero_below a a (omega arith)

pow-two_suc : (k : ℕ) → 2 ^ suc k ≡ 2 * 2 ^ k
pow-two_suc k = omega (arith, pow-suc 2 k)

mul-pow-two_suc : (q k : ℕ) → q * 2 ^ suc k ≡ 2 * (q * 2 ^ k)
mul-pow-two_suc q k = omega (arith, ap (λ (t : ℕ). q * t) (pow-suc 2 k))

-- A field above bit `k` and one below it are joined by `|` into their sum.
pub bit_or-fields : (k q r : ℕ) → r < 2 ^ k → bit_or (q * 2 ^ k) r ≡ q * 2 ^ k + r
bit_or-fields zero q r h =
    let e : r ≡ 0 = omega arith in
    subst (λ t. bit_or (q * 1) t ≡ q * 1 + t) (sym e) (bit_or-zero (q * 1) ∙ omega arith)
bit_or-fields (suc k) q r h = omega (
  arith,
  bit_or-step (q * 2 ^ suc k) r,
  mul-pow-two_suc q k,
  pow-two_suc k,
  ap (λ (t : ℕ). bit_or t (r / 2)) half,
  bit_or-fields k q (r / 2) (omega (arith, pow-two_suc k)),
)
  where
    half : q * 2 ^ suc k / 2 ≡ q * 2 ^ k
    half = omega (arith, mul-pow-two_suc q k)

half_field : (q k r : ℕ) → r < 2 ^ suc k → (q * 2 ^ suc k + r) / 2 ≡ q * 2 ^ k + r / 2
half_field q k r h = omega (arith, mul-pow-two_suc q k)

-- A mask that is zero below bit `k` reads the field above it.
pub bit_and-high :
    (k q r m : ℕ) → r < 2 ^ k → bit_and (q * 2 ^ k + r) (m * 2 ^ k) ≡ bit_and q m * 2 ^ k
bit_and-high zero q r m h =
    let e : q * 1 + r ≡ q = omega arith in
    let f : m * 1 ≡ m = omega arith in ap₂ bit_and e f ∙ omega arith
bit_and-high (suc k) q r m h = omega (
  arith,
  bit_and-step (q * 2 ^ suc k + r) (m * 2 ^ suc k),
  mul-pow-two_suc m k,
  mul-pow-two_suc (bit_and q m) k,
  ap₂ bit_and (half_field q k r h) half,
  bit_and-high k q (r / 2) m (omega (arith, pow-two_suc k)),
)
  where
    half : m * 2 ^ suc k / 2 ≡ m * 2 ^ k
    half = omega (arith, mul-pow-two_suc m k)

-- A mask of the `k` low bits reads the field below.
pub bit_and-low : (k q r : ℕ) → r < 2 ^ k → bit_and (q * 2 ^ k + r) (2 ^ k - 1) ≡ r
bit_and-low zero q r h = bit_and-zero (q * 1 + r) ∙ omega arith
bit_and-low (suc k) q r h = omega (
  arith,
  bit_and-step (q * 2 ^ suc k + r) (2 ^ suc k - 1),
  pow-two_suc k,
  one-le-pow k 2 (omega arith),
  mul-pow-two_suc q k,
  ap₂ bit_and (half_field q k r h) half,
  bit_and-low k q (r / 2) (omega (arith, pow-two_suc k)),
)
  where
    half : (2 ^ suc k - 1) / 2 ≡ 2 ^ k - 1
    half = omega (arith, pow-two_suc k, one-le-pow k 2 (omega arith))

-- `p` holds of every number below `n`, by evaluation.
unfoldable pub all_below : ℕ → (ℕ → Bool) → Bool
all_below zero p = true
all_below (suc n) p = p n && all_below n p

pub all_below_sound : (n : ℕ) (p : ℕ → Bool) (x : ℕ) → all_below n p ≡ true → x < n → p x ≡ true
unfolding all_below
all_below_sound zero p x h l = absurd (omega arith)
all_below_sound (suc n) p x h l = ground (arith, all_below_sound n p x)

pub zero-bit_and : (b : ℕ) → bit_and 0 b ≡ 0
zero-bit_and b = bit_and-bitwise 0 b

half_fields : (q k r : ℕ) → r < 2 ^ suc k → (q * 2 ^ suc k + r) % 2 ≡ r % 2
half_fields q k r h = omega (arith, mul-pow-two_suc q k)

-- `|` works field by field.
pub bit_or-high :
    (k q r m s : ℕ)
    → r < 2 ^ k
    → s < 2 ^ k
    → bit_or (q * 2 ^ k + r) (m * 2 ^ k + s) ≡ bit_or q m * 2 ^ k + bit_or r s
bit_or-high zero q r m s hr hs =
    let e : q * 1 + r ≡ q = omega arith in
    let f : m * 1 + s ≡ m = omega arith in
    let g : r ≡ 0 = omega arith in
    let h : s ≡ 0 = omega arith in omega (arith, ap₂ bit_or e f, ap₂ bit_or g h, bit_or-zero 0)
bit_or-high (suc k) q r m s hr hs = omega (
  arith,
  bit_or-step (q * 2 ^ suc k + r) (m * 2 ^ suc k + s),
  bit_or-step r s,
  half_fields q k r hr,
  half_fields m k s hs,
  mul-pow-two_suc (bit_or q m) k,
  ap₂ bit_or (half_field q k r hr) (half_field m k s hs),
  bit_or-high k q (r / 2) m (s / 2) (omega (arith, pow-two_suc k)) (omega (arith, pow-two_suc k)),
)

-- `|` of two numbers of `k` bits has `k` bits.
pub bit_or-lt : (k r s : ℕ) → r < 2 ^ k → s < 2 ^ k → bit_or r s < 2 ^ k
bit_or-lt zero r s hr hs =
    let g : r ≡ 0 = omega arith in
    let h : s ≡ 0 = omega arith in omega (arith, ap₂ bit_or g h, bit_or-zero 0)
bit_or-lt (suc k) r s hr hs = omega (
  arith,
  bit_or-step r s,
  pow-two_suc k,
  bit_or-lt k (r / 2) (s / 2) (omega (arith, pow-two_suc k)) (omega (arith, pow-two_suc k)),
)
