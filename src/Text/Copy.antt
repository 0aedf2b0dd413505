-- ===== src/Text/Copy.antt =====
-- strcpy of string.c: the string is copied with its terminator.
use lightux.Memory.{Mem, store}
use lightux.Memory.Copy.{inside, copied}
use lightux.Text.{strcpy_loop, strcpy}
use lightux.Text.Length.{IsText, IsText-tail, IsText-zero, IsText-head}
use lightux.Prelude.{
  ℕ, zero, suc, ◌+◌, ◌-◌, ◌≤◌, ◌<◌, ◌≡◌, ◌≢◌, ◌⊎◌, refl, ap, sym, ◌∙◌, true, arith, ne→==-false,
  Returns,
}

-- The bytes that a store elsewhere leaves.
IsText-store :
    (m : Mem) (p v s n : ℕ) → (p < s) ⊎ (s + n < p) → IsText m s n → IsText (store p v m) s n
IsText-store m p v s n h t = record {
  char = λ i hi e. t.char i hi (same i (omega arith) ∙ e);
  end = sym (same n (omega arith)) ∙ t.end;
}
  where
    same : (i : ℕ) → i ≤ n → m (s + i) ≡ store p v m (s + i)
    same i hi = grind arith

strcpy_loop-copied :
    (n rounds dst src : ℕ) (m : Mem)
    → IsText m src n
    → n < rounds
    → (dst ≤ src) ⊎ (src + n < dst)
    → Returns (strcpy_loop rounds dst src m) (λ _ m'. (j : ℕ) → m' j ≡ copied dst src (n + 1) m j)
unfolding strcpy_loop
strcpy_loop-copied n zero dst src m t h apart = absurd (omega arith)
strcpy_loop-copied zero (suc rounds) dst src m t h apart =
    let end = IsText-zero m src t in (tt, store dst 0 m, rw end refl, λ j. ground (arith, end))
strcpy_loop-copied (suc n) (suc rounds) dst src m t h apart =
    let more = ne→==-false (m src) 0 (IsText-head m src n t) in
    let (u, m', e, same) =
      strcpy_loop-copied n rounds (dst + 1) (src + 1) (store dst (m src) m)
        (IsText-store m dst (m src) (src + 1) n (grind arith) (IsText-tail m src n t)) (omega arith)
        (grind arith) in
    (u, m', rw more e, λ j. same j ∙ ground arith)

-- For a string of n characters and room for n + 1 bytes that does not lie above its start within it,
-- both pointers not NULL, strcpy returns its destination, where the memory then has a string of n
-- characters: the n + 1 bytes of the source before the call, and all other bytes are as they were.
pub strcpy-copied :
    (n rounds dst src : ℕ) (m : Mem)
    → dst ≢ 0
    → src ≢ 0
    → IsText m src n
    → n < rounds
    → (dst ≤ src) ⊎ (src + n < dst)
    → Returns
        (strcpy rounds dst src m)
        (λ p m'. (p ≡ dst) × IsText m' dst n × ((j : ℕ) → m' j ≡ copied dst src (n + 1) m j))
unfolding strcpy
strcpy-copied n rounds dst src m hd hs t h apart =
    let (u, m', e, same) = strcpy_loop-copied n rounds dst src m t h apart in
    (
      dst,
      m',
      rw (ne→==-false dst 0 hd, ne→==-false src 0 hs, e) refl,
      (
        refl,
        record {
          char = λ i hi z. t.char i hi (sym (read i (omega arith)) ∙ sym (same (dst + i)) ∙ z);
          end = same (dst + n) ∙ read n (omega arith) ∙ t.end;
        },
        same,
      ),
    )
  where
    read : (i : ℕ) → i ≤ n → copied dst src (n + 1) m (dst + i) ≡ m (src + i)
    read i hi =
        let e : src + ((dst + i) - dst) ≡ src + i = omega arith in
        let here : inside dst (n + 1) (dst + i) ≡ true = ground arith in rw here (ap m e)
