-- ===== src/Keyboard/Codes.antt =====
-- TranslateToASCII of kb_translate.c: which characters can be typed, and from which keys.
use lightux.Bits.{all_below, all_below_sound}
use lightux.Keyboard.{translate_to_ascii, nth, shifted, ascii_table}
use lightux.Text.{islower, toupper}
use lightux.Prelude.{
  ℕ, zero, suc, ◌+◌, ◌-◌, ◌≤◌, ◌<◌, ◌≡◌, ◌≢◌, refl, ap, sym, ◌∙◌, Bool, true, false, not, ◌&&◌,
  ◌||◌, arith, ltb, leb, ◌==◌, if◌then◌else◌, ltb→lt, List, [], ◌∷◌, Bool-cases, inl, inr,
}

-- The first of the keys below `n` that types `c`, with its shift.
unfoldable key_below : ℕ → ℕ → ℕ × Bool
key_below zero c = (0, false)
key_below (suc n) c =
    let rest = key_below n c in
    if translate_to_ascii (λ i. 0) n false == c
    then (n, false)
    else if translate_to_ascii (λ i. 0) n true == c
    then (n, true)
    else rest

all_typed :
    all_below 95 (λ i.
      let (k, u) = key_below 58 (i + 0x20) in
      ltb k 58 && translate_to_ascii (λ i. 0) k u == i + 0x20)
    ≡ true
unfolding all_below key_below translate_to_ascii nth shifted
all_typed = refl

one_key :
    all_below 58 (λ k. all_below 58 (λ l.
      let c = translate_to_ascii (λ i. 0) k false in
      c == 0 || k == l || not (c == translate_to_ascii (λ i. 0) l false)))
    ≡ true
unfolding all_below translate_to_ascii nth shifted
one_key = refl

letters :
    all_below 58 (λ k.
      let c = translate_to_ascii (λ i. 0) k false in
      not (islower c) || translate_to_ascii (λ i. 0) k true == toupper c)
    ≡ true
unfolding all_below translate_to_ascii nth shifted islower toupper
letters = refl

count : List ℕ → ℕ
count [] = 0
count (x ∷ xs) = suc (count xs)

nth-inside :
    (xs : List ℕ) (behind behind' : ℕ → ℕ) (i : ℕ)
    → i < count xs
    → nth xs behind i ≡ nth xs behind' i
unfolding nth count
nth-inside [] behind behind' i h = absurd (omega arith)
nth-inside (x ∷ xs) behind behind' zero h = refl
nth-inside (x ∷ xs) behind behind' (suc i) h = nth-inside xs behind behind' i (omega arith)

-- What TranslateToASCII makes of an entry.
abbrev cased : (lower : ℕ) → Bool → ℕ
cased lower u =
    if u then (if leb lower 0x7a && leb 0x61 lower then lower - 0x20 else shifted lower) else lower

translate-entry :
    (behind : ℕ → ℕ) (k : ℕ) (u : Bool)
    → translate_to_ascii behind k u ≡ (if ltb 58 k then 0 else cased (nth ascii_table behind k) u)
unfolding translate_to_ascii
translate-entry behind k u = refl

-- A key of the table does not read behind it.
pub translate-inside :
    (behind behind' : ℕ → ℕ) (k : ℕ) (u : Bool)
    → k < 58
    → translate_to_ascii behind k u ≡ translate_to_ascii behind' k u
unfolding count
translate-inside behind behind' k u h =
    translate-entry behind k u
    ∙ ap (λ lower. if ltb 58 k then 0 else cased lower u)
        (nth-inside ascii_table behind behind' k h)
    ∙ sym (translate-entry behind' k u)

-- Whatever lies behind the table: every scan code but 58 is translated without it, and the
-- translation of 58, without shift, is the byte that lies there.
pub translate-table_end :
    (behind behind' : ℕ → ℕ)
    → ((k : ℕ) (u : Bool) → k ≢ 58 → translate_to_ascii behind k u ≡ translate_to_ascii behind' k u)
      × (translate_to_ascii behind 58 false ≡ behind 0)
unfolding nth
translate-table_end behind behind' = (same, translate-entry behind 58 false)
  where
    same :
        (k : ℕ) (u : Bool) → k ≢ 58 → translate_to_ascii behind k u ≡ translate_to_ascii behind' k u
    same k u differ = elim (Bool-cases (ltb 58 k)) [
      | inl above ↦
          let off = ap (λ (b : Bool). if b then 0 else cased (nth ascii_table behind k) u) above in
          let off' =
            ap (λ (b : Bool). if b then 0 else cased (nth ascii_table behind' k) u) above in
          translate-entry behind k u ∙ off ∙ sym off' ∙ sym (translate-entry behind' k u)
      | inr not_above ↦ translate-inside behind behind' k u (ground (arith, not_above, differ))
    ]

-- Every printable character of ASCII can be typed: a scan code of the table gives it, with shift or
-- without.
pub printable-typed :
    (behind : ℕ → ℕ) (c : ℕ)
    → 0x20 ≤ c
    → c < 0x7f
    → (k : ℕ) × (u : Bool) × (k < 58) × (translate_to_ascii behind k u ≡ c)
printable-typed behind c lo hi =
    let (k, u) = key_below 58 (c - 0x20 + 0x20) in
    let found = all_below_sound 95 _ (c - 0x20) all_typed (omega arith) in
    let inside : k < 58 = ltb→lt k 58 (ground (arith, found)) in
    let typed : translate_to_ascii (λ i. 0) k u ≡ c - 0x20 + 0x20 = ground (arith, found) in
    (k, u, inside, translate-inside behind (λ i. 0) k u inside ∙ typed ∙ omega arith)

-- Without shift, no two keys of the table type the same character.
pub translate-injective :
    (behind : ℕ → ℕ) (k l : ℕ)
    → k < 58
    → l < 58
    → translate_to_ascii behind k false ≢ 0
    → translate_to_ascii behind k false ≡ translate_to_ascii behind l false
    → k ≡ l
translate-injective behind k l hk hl some_key e =
    let e0 : translate_to_ascii (λ i. 0) k false ≡ translate_to_ascii (λ i. 0) l false =
      translate-inside (λ i. 0) behind k false hk
      ∙ e
      ∙ translate-inside behind (λ i. 0) l false hl in
    let n0 : translate_to_ascii (λ i. 0) k false ≢ 0 =
      λ z. some_key (translate-inside behind (λ i. 0) k false hk ∙ z) in
    let row = all_below_sound 58 _ k one_key hk in
    let entry = all_below_sound 58 _ l row hl in ground (arith, e0, n0, entry)

-- A key that types a small letter types the capital with shift.
pub translate-letters :
    (behind : ℕ → ℕ) (k : ℕ)
    → k < 58
    → islower (translate_to_ascii behind k false) ≡ true
    → translate_to_ascii behind k true ≡ toupper (translate_to_ascii behind k false)
translate-letters behind k h small =
    let plain = translate-inside behind (λ i. 0) k false h in
    let entry = all_below_sound 58 _ k letters h in
    let small0 = ap islower (sym plain) ∙ small in
    translate-inside behind (λ i. 0) k true h
    ∙ ground (arith, entry, small0)
    ∙ ap toupper (sym plain)
