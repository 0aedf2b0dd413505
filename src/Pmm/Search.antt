-- ===== src/Pmm/Search.antt =====
-- pmm_FindFreeRegion against its meaning: the first run of free pages from the hint on.
use lightux.Bitmap.{Bitmap, bitmap_get}
use lightux.Pmm.{invalid_page, find_loop, find_free_region}
use lightux.Prelude.{
  ℕ, zero, suc, ◌+◌, ◌-◌, ◌*◌, ◌≤◌, ◌<◌, ◌≡◌, refl, sym, subst, ap, ◌∙◌, ◌⊎◌, inl, inr, true, false,
  arith, ltb, leb, ◌==◌, if◌then◌else◌, Bool-cases, ==→eq, ==-false→ne, ltb→lt, ltb-false→le,
}

-- The `n` pages from `start` on are free.
abbrev pub FreeRun : Bitmap → (start n : ℕ) → Type 0
FreeRun bitmap start n = (k : ℕ) → start ≤ k → k < start + n → bitmap_get bitmap k ≡ false

-- What a search for `n` pages among those from `low` to `limit` returns: the first free run, or
-- `invalid_page` where there is none.
abbrev pub IsFirst : Bitmap → (n low limit region : ℕ) → Type 0
IsFirst bitmap n low limit region =
    (low ≤ region)
    × (region + n ≤ limit)
    × FreeRun bitmap region n
    × ((s : ℕ) → low ≤ s → FreeRun bitmap s n → region ≤ s)

abbrev pub NoRun : Bitmap → (n low limit : ℕ) → Type 0
NoRun bitmap n low limit = (s : ℕ) → low ≤ s → s + n ≤ limit → ¬ FreeRun bitmap s n

-- Where one page is sought, the hint is moved just past the region found.
abbrev pub hinted : Bitmap → (n region : ℕ) → Bitmap
hinted bitmap n region =
    if n == 1 then record bitmap { last_deep_fragmented = region + 1 } else bitmap

abbrev pub Found : Bitmap → (n low limit : ℕ) → ℕ × Bitmap → Type 0
Found bitmap n low limit (region, bitmap') =
    IsFirst bitmap n low limit region × (bitmap' ≡ hinted bitmap n region)
    ⊎ (region ≡ invalid_page) × NoRun bitmap n low limit × (bitmap' ≡ bitmap)

-- The loop at index `i`: the pages from `start` to `i` are free, too few, and no run begins before.
record Scan (bitmap : Bitmap) (n low i start size : ℕ) : Type 0 where
  from : low ≤ start
  here : start + size ≡ i
  few : size < n
  free : FreeRun bitmap start size
  skipped : (s : ℕ) → low ≤ s → FreeRun bitmap s n → start ≤ s

module _ {bitmap : Bitmap} {n low i start size : ℕ} (scan : Scan bitmap n low i start size) where
  Scan-skip : bitmap_get bitmap i ≡ true → Scan bitmap n low (i + 1) (i + 1) 0
  Scan-skip used = record {
    from = omega (arith, scan.from, scan.here);
    here = omega arith;
    few = omega (arith, scan.few);
    free = λ k lo hi. absurd (omega arith);
    skipped = λ s lo run. elim (Bool-cases (ltb i s)) [
      | inl above ↦ ground (arith, ltb→lt i s above)
      | inr below ↦
          let hit =
            run i (ltb-false→le i s below)
              (omega (arith, scan.skipped s lo run, scan.here, scan.few)) in
          cc
    ];
  }

  FreeRun-suc : bitmap_get bitmap i ≡ false → FreeRun bitmap start (size + 1)
  FreeRun-suc unused k lo hi = elim (Bool-cases (k == i)) [
    | inl last ↦ rw (==→eq k i last) unused
    | inr before ↦ scan.free k lo (ground (arith, scan.here, ==-false→ne k i before))
  ]

  Scan-grow :
      bitmap_get bitmap i ≡ false → size + 1 < n → Scan bitmap n low (i + 1) start (size + 1)
  Scan-grow unused few = record {
    from = scan.from;
    here = omega (arith, scan.here);
    few = few;
    free = FreeRun-suc unused;
    skipped = scan.skipped;
  }

find_loop-zero :
    (n i start size : ℕ) (bitmap : Bitmap)
    → find_loop n 0 i start size bitmap ≡ (invalid_page, bitmap)
unfolding find_loop
find_loop-zero n i start size bitmap = refl

module _ (n rounds i start size : ℕ) (bitmap : Bitmap) where
  find_loop-used :
      bitmap_get bitmap i ≡ true
      → find_loop n (suc rounds) i start size bitmap ≡ find_loop n rounds (i + 1) (i + 1) 0 bitmap
  unfolding find_loop
  find_loop-used used = rw used

  find_loop-enough :
      bitmap_get bitmap i ≡ false
      → leb n (size + 1) ≡ true
      → find_loop n (suc rounds) i start size bitmap ≡ (start, hinted bitmap n start)
  unfolding find_loop
  find_loop-enough unused enough = rw (unused, enough)

  find_loop-few :
      bitmap_get bitmap i ≡ false
      → leb n (size + 1) ≡ false
      → find_loop n (suc rounds) i start size bitmap
        ≡ find_loop n rounds (i + 1) start (size + 1) bitmap
  unfolding find_loop
  find_loop-few unused few = let many : (n == 1) ≡ false = ground arith in rw (unused, few, many)

find_loop-Found :
    (n rounds low i start size limit : ℕ) (bitmap : Bitmap)
    → i + rounds ≡ limit
    → Scan bitmap n low i start size
    → Found bitmap n low limit (find_loop n rounds i start size bitmap)
find_loop-Found n zero low i start size limit bitmap e scan = last
  where
    last : Found bitmap n low limit (find_loop n 0 i start size bitmap)
    last = subst (Found bitmap n low limit) (sym (find_loop-zero n i start size bitmap)) (
        inr (
          refl,
          (λ s lo fits run. omega (arith, scan.skipped s lo run, scan.here, scan.few)),
          refl,
        ))
find_loop-Found n (suc rounds) low i start size limit bitmap e scan =
    elim (Bool-cases (bitmap_get bitmap i)) [
      | inl used ↦ by (find_loop-used n rounds i start size bitmap used) (
          find_loop-Found n rounds low (i + 1) (i + 1) 0 limit bitmap (omega arith)
            (Scan-skip scan used))
      | inr unused ↦ elim (Bool-cases (leb n (size + 1))) [
        | inl enough ↦
            let all : n ≡ size + 1 = ground (arith, scan.few) in
            by (find_loop-enough n rounds i start size bitmap unused enough) (
              inl (
                (
                  scan.from,
                  omega (arith, scan.here),
                  (λ k lo hi. FreeRun-suc scan unused k lo (omega arith)),
                  scan.skipped,
                ),
                refl,
              ))
        | inr few ↦ by (find_loop-few n rounds i start size bitmap unused few) (
            find_loop-Found n rounds low (i + 1) start (size + 1) limit bitmap (omega arith)
              (Scan-grow scan unused (ground arith)))
      ]
    ]
  where
    by :
        {found : ℕ × Bitmap}
        → find_loop n (suc rounds) i start size bitmap ≡ found
        → Found bitmap n low limit found
        → Found bitmap n low limit (find_loop n (suc rounds) i start size bitmap)
    by e f = subst (Found bitmap n low limit) (sym e) f

-- pmm_FindFreeRegion returns the start of the first run of n free pages at or above its hint and
-- within the bitmap, or INVALID_PAGE where there is no such run; it only moves the hint, and that
-- just past the page found, where one page is sought.
pub find_free_region-Found :
    (n : ℕ) (bitmap : Bitmap)
    → 0 < n
    → Found bitmap n bitmap.last_deep_fragmented
        (bitmap.bitmap_size * 8)
        (find_free_region n bitmap)
unfolding find_free_region
find_free_region-Found n bitmap pos = elim (Bool-cases (leb hint limit)) [
  | inl within ↦
      find_loop-Found n (limit - hint) hint hint hint 0 limit bitmap (ground arith) (record {
        from = omega arith;
        here = omega arith;
        few = pos;
        free = λ k lo hi. absurd (omega arith);
        skipped = λ s lo run. lo;
      })
  | inr past ↦
      let nothing_left : limit - hint ≡ 0 = ground arith in
      subst (Found bitmap n hint limit)
        (sym (
          ap (λ r. find_loop n r hint hint 0 bitmap) nothing_left
          ∙ find_loop-zero n hint hint 0 bitmap))
        (inr (refl, (λ s lo fits run. absurd (ground arith)), refl))
]
  where
    hint : ℕ
    hint = bitmap.last_deep_fragmented

    limit : ℕ
    limit = bitmap.bitmap_size * 8
