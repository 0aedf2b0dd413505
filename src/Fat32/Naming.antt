-- ===== src/Fat32/Naming.antt =====
-- The names of fat32.c: 8.3 names as text, and the long name's array.
use lightux.Fat32.Names.{
  DirectoryEntry, lfn_char, copy_chars, fat32_lfn_copy, up_to_space, fat32_short_name_to_name,
}
use lightux.Prelude.{
  ℕ, zero, suc, ◌+◌, ◌-◌, ◌*◌, ◌≤◌, ◌<◌, ◌≡◌, ◌≢◌, refl, ap, ap₂, sym, ◌∙◌, ◌&&◌, ltb, leb, ◌==◌,
  if◌then◌else◌, List, [], ◌∷◌, ◌++◌, u8, arith, ne→==-false, lt→ltb, le→ltb-false,
}

-- The element at a place, or a space behind the end.
abbrev pub padded : List ℕ → ℕ → ℕ
padded [] i = 0x20
padded (x ∷ xs) zero = x
padded (x ∷ xs) (suc i) = padded xs i

abbrev pub length : List ℕ → ℕ
length [] = 0
length (x ∷ xs) = suc (length xs)

abbrev pub HasNoSpace : List ℕ → Type 0
HasNoSpace [] = Unit {0}
HasNoSpace (x ∷ xs) = (x ≢ 0x20) × HasNoSpace xs

-- An 8.3 name on the disk: a base of 8 characters and an extension of 3, padded with spaces.
abbrev pub packed : (base extension : List ℕ) → ℕ → ℕ
packed base extension i = if ltb i 8 then padded base i else padded extension (i - 8)

up_to_space-padded :
    (xs : List ℕ) (rounds i : ℕ) (name : ℕ → ℕ)
    → length xs ≤ rounds
    → HasNoSpace xs
    → ((k : ℕ) → k < rounds → name (i + k) ≡ padded xs k)
    → up_to_space rounds i name ≡ xs
unfolding up_to_space
up_to_space-padded [] zero i name fits clean same = refl
up_to_space-padded (x ∷ xs) zero i name fits clean same = absurd (omega arith)
up_to_space-padded [] (suc rounds) i name fits clean same =
    let e : i + 0 ≡ i = omega arith in
    let space = sym (ap name e) ∙ same 0 (omega arith) in rw (ap (λ c. c == 0x20) space) refl
up_to_space-padded (x ∷ xs) (suc rounds) i name fits clean same =
    let e : i + 0 ≡ i = omega arith in
    let here = sym (ap name e) ∙ same 0 (omega arith) in
    rw (ap (λ c. c == 0x20) here ∙ ne→==-false x 0x20 clean.0) (
      ap₂ (λ c cs. c ∷ cs) here
        (up_to_space-padded xs rounds (i + 1) name (omega arith) clean.1 (λ k h.
          let shift : i + 1 + k ≡ i + suc k = omega arith in
          ap name shift ∙ same (suc k) (omega arith))))

-- For a base of at most 8 characters and an extension of at most 3, none of them a space,
-- FAT32_ShortNameToName gives the base, and where there is an extension a dot and the extension.
pub fat32_short_name_to_name-packed :
    (base extension : List ℕ)
    → length base ≤ 8
    → length extension ≤ 3
    → HasNoSpace base
    → HasNoSpace extension
    → fat32_short_name_to_name (packed base extension)
      ≡ base ++ (if length extension == 0 then [] else 0x2e ∷ extension)
unfolding fat32_short_name_to_name
fat32_short_name_to_name-packed base extension hb he cb ce =
    ap₂ (λ b e. b ++ e)
      (up_to_space-padded base 8 0 (packed base extension) hb cb (λ k h.
        let e : 0 + k ≡ k = omega arith in ap (packed base extension) e ∙ rw (lt→ltb k 8 h) refl))
      (suffix extension he ce)
  where
    tail :
        (ext : List ℕ) → length ext ≤ 3 → HasNoSpace ext → up_to_space 3 8 (packed base ext) ≡ ext
    tail ext h c = up_to_space-padded ext 3 8 (packed base ext) h c (λ k hk.
        let e : 8 + k - 8 ≡ k = omega arith in
        rw (le→ltb-false (8 + k) 8 (omega arith)) (ap (padded ext) e))

    suffix :
        (ext : List ℕ)
        → length ext ≤ 3
        → HasNoSpace ext
        → (if packed base ext 8 == 0x20 then [] else 0x2e ∷ up_to_space 3 8 (packed base ext))
          ≡ (if length ext == 0 then [] else 0x2e ∷ ext)
    suffix [] h c = refl
    suffix (x ∷ xs) h c =
        let some_there = ne→==-false (suc (length xs)) 0 (λ z. omega (arith, z)) in
        ap (λ b. if b then [] else 0x2e ∷ up_to_space 3 8 (packed base (x ∷ xs)))
          (ne→==-false x 0x20 c.0)
        ∙ ap (λ cs. 0x2e ∷ cs) (tail (x ∷ xs) h c)
        ∙ sym (ap (λ b. if b then [] else 0x2e ∷ x ∷ xs) some_there)

copy_chars-cells :
    (entry : DirectoryEntry) (ordinal rounds t : ℕ) (cells : ℕ → ℕ) (a : ℕ)
    → copy_chars entry ordinal rounds t cells a ≡ (
        if leb (ordinal * 13 + t) a && ltb a (ordinal * 13 + t + rounds)
        then u8 (lfn_char entry (a - ordinal * 13))
        else cells a)
unfolding copy_chars
copy_chars-cells entry ordinal zero t cells a = ground arith
copy_chars-cells entry ordinal (suc rounds) t cells a =
    copy_chars-cells entry ordinal rounds (t + 1) _ a ∙ ground arith

-- FAT32_LFNCopy writes the thirteen cells of its index and no other, each with the low byte of its
-- character.
pub fat32_lfn_copy_lem :
    (cells : ℕ → ℕ) (entry : DirectoryEntry) (ordinal a : ℕ)
    → fat32_lfn_copy cells entry ordinal a ≡ (
        if leb (ordinal * 13) a && ltb a (ordinal * 13 + 13)
        then u8 (lfn_char entry (a - ordinal * 13))
        else cells a)
unfolding fat32_lfn_copy
fat32_lfn_copy_lem cells entry ordinal a =
    copy_chars-cells entry ordinal 13 0 cells a ∙ ground arith
