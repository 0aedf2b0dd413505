-- ===== src/Text/Length.antt =====
-- Zero-terminated strings, and the loop of strlen in string.c.
use lightux.Memory.{Mem}
use lightux.Text.{strlen_loop, strlen}
use lightux.Prelude.{
  ℕ, zero, suc, ◌+◌, ◌^◌, ◌<◌, ◌≡◌, ◌≢◌, ap, ◌∙◌, arith, ne→==-false, returns, add64,
}

-- A string of `n` characters at `s`.
pub record IsText (m : Mem) (s n : ℕ) : Type 0 where
  pub char : (i : ℕ) → i < n → m (s + i) ≢ 0
  pub end : m (s + n) ≡ 0

pub IsText-tail : (m : Mem) (s n : ℕ) → IsText m s (suc n) → IsText m (s + 1) n
IsText-tail m s n t = record {
  char = λ i h e. t.char (i + 1) (omega arith) (ap m (omega arith) ∙ e);
  end = ap m (omega arith) ∙ t.end;
}

pub IsText-zero : (m : Mem) (s : ℕ) → IsText m s 0 → m s ≡ 0
IsText-zero m s t = ap m (omega arith) ∙ t.end

pub IsText-head : (m : Mem) (s n : ℕ) → IsText m s (suc n) → m s ≢ 0
IsText-head m s n t e = t.char 0 (omega arith) (ap m (omega arith) ∙ e)

strlen_loop_lem :
    (n rounds s len : ℕ) (m : Mem)
    → IsText m s n
    → n < rounds
    → len + n < 2 ^ 64
    → strlen_loop rounds s len m ≡ returns (len + n) m
unfolding strlen_loop
strlen_loop_lem n zero s len m t h fits = absurd (omega arith)
strlen_loop_lem zero (suc rounds) s len m t h fits =
    rw (IsText-zero m s t) (ap (λ k. returns k m) (omega arith))
strlen_loop_lem (suc n) (suc rounds) s len m t h fits =
    let more = ne→==-false (m s) 0 (IsText-head m s n t) in
    let next : add64 len 1 ≡ len + 1 = omega arith in
    rw (more, next)
      (strlen_loop_lem n rounds (s + 1) (len + 1) m (IsText-tail m s n t) (omega arith)
          (omega arith)
        ∙ ap (λ k. returns k m) (omega arith))

-- strlen of a string of n characters, below 2^64 of them, returns n and leaves the memory as it is.
pub strlen_lem :
    (n rounds s : ℕ) (m : Mem)
    → IsText m s n
    → n < rounds
    → n < 2 ^ 64
    → strlen rounds s m ≡ returns n m
unfolding strlen
strlen_lem n rounds s m t h fits =
    strlen_loop_lem n rounds s 0 m t h (omega arith) ∙ ap (λ k. returns k m) (omega arith)
