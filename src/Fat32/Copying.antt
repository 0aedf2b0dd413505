-- ===== src/Fat32/Copying.antt =====
-- The sectors of one cluster, as FAT32_Read copies them.
use lightux.Disk.{Disk, sector_size}
use lightux.Fat32.{FatData, sectors_per_cluster, fat32_cluster_to_lba}
use lightux.Fat32.Reading.{Progress, copy_from, copy_sector, read_sectors}
use lightux.Fat32.Layout.{file_byte, chain, IsFile, IsFile-sector}
use lightux.Prelude.{
  ℕ, zero, suc, ◌+◌, ◌-◌, ◌*◌, ◌/◌, ◌%◌, ◌^◌, ◌≤◌, ◌<◌, ◌≡◌, ◌⊎◌, inl, inr, refl, ap, ap₂, subst,
  ltb→lt, ltb-false→le, leb→le, leb-false→lt, ◌∙◌, true, false, ◌&&◌, none, some, leb, ltb, ◌==◌,
  if◌then◌else◌, u32, min, arith, Bool-cases,
}

module _ (sectors : ℕ → ℕ → ℕ) where
  -- From `s` to `s'`, the next `n` bytes of the file are copied.
  pub record Moved (s s' : Progress) : Type 0 where
    pub n : ℕ
    pub within : n ≤ s.remaining
    pub offset : s'.handle.current_offset ≡ s.handle.current_offset + n
    pub remaining : s'.remaining ≡ s.remaining - n
    pub buffer : s'.u8_buffer ≡ s.u8_buffer + n
    pub copied :
        (j : ℕ)
        → s'.memory j ≡ (
            if leb s.u8_buffer j && ltb j (s.u8_buffer + n)
            then file_byte sectors (s.handle.current_offset + (j - s.u8_buffer))
            else s.memory j)
    pub first : s'.handle.first_cluster ≡ s.handle.first_cluster
    pub size : s'.handle.size ≡ s.handle.size

  -- The next byte wanted lies in sector `q` or behind it.
  abbrev pub At : (q : ℕ) → Progress → Type 0
  At q s = s.handle.current_offset ≡ q * 512 + s.skipped_bytes

  -- The state before sector `q`, or after the last byte, which lies before sector `q`.
  abbrev pub Before : (q : ℕ) → Progress → Type 0
  Before q s =
      (At q s × (0 < s.remaining)) ⊎ ((s.remaining ≡ 0) × (s.handle.current_offset ≤ q * 512))

  pub Moved-none : (s : Progress) → Moved s s
  Moved-none s = record {
    n = 0;
    within = omega arith;
    offset = omega arith;
    remaining = omega arith;
    buffer = omega arith;
    copied = λ j. ground arith;
    first = refl;
    size = refl;
  }

  pub Moved-then : (s s' s'' : Progress) → Moved s s' → Moved s' s'' → Moved s s''
  Moved-then s s' s'' a b = record {
    n = a.n + b.n;
    within = omega (arith, a.within, a.remaining, b.within);
    offset = omega (arith, a.offset, b.offset);
    remaining = omega (arith, a.remaining, b.remaining);
    buffer = omega (arith, a.buffer, b.buffer);
    copied = λ j.
        ground (arith, a.copied j, b.copied j, a.offset, a.buffer, b.within, a.within, b.buffer);
    first = b.first ∙ a.first;
    size = b.size ∙ a.size;
  }

  -- A sector that is skipped whole.
  skip-Moved : (s : Progress) (k : ℕ) → Moved s (record s { skipped_bytes = k })
  skip-Moved s k = record {
    n = 0;
    within = omega arith;
    offset = omega arith;
    remaining = omega arith;
    buffer = omega arith;
    copied = λ j. ground arith;
    first = refl;
    size = refl;
  }

  module _ (q : ℕ) (s : Progress) (at : At q s)
      (small : s.handle.current_offset + s.remaining < 2 ^ 32) (near : s.skipped_bytes < 512) where
    abbrev to_copy : ℕ
    to_copy = min (512 - s.skipped_bytes) s.remaining

    byte_at :
        (d : ℕ)
        → d < to_copy
        → file_byte sectors (s.handle.current_offset + d) ≡ sectors q (s.skipped_bytes + d)
    byte_at d h =
        let sector : (s.handle.current_offset + d) / 512 ≡ q = omega (arith, at, h) in
        let byte : (s.handle.current_offset + d) % 512 ≡ s.skipped_bytes + d =
          omega (arith, at, h) in
        ap₂ sectors sector byte

    abbrev after_copy : Progress
    after_copy = record s {
      handle = record s.handle { current_offset = u32 (s.handle.current_offset + to_copy) };
      u8_buffer = s.u8_buffer + to_copy;
      remaining = s.remaining - to_copy;
      skipped_bytes = 0;
      memory = copy_from s.u8_buffer (sectors q) s.skipped_bytes to_copy s.memory;
    }

    copy-Moved : Moved s after_copy
    copy-Moved = record {
      n = to_copy;
      within = omega arith;
      offset = omega (arith, small);
      remaining = omega arith;
      buffer = omega arith;
      copied = λ j. ground (arith, byte_at (j - s.u8_buffer));
      first = refl;
      size = refl;
    }

    copy-Before : Before (q + 1) after_copy
    copy-Before = elim (Bool-cases (ltb (512 - s.skipped_bytes) s.remaining)) [
      | inl full ↦
          inl (omega (arith, ltb→lt _ _ full, at, small, near), omega (arith, ltb→lt _ _ full))
      | inr part ↦ inr (
        omega (arith, ltb-false→le _ _ part),
        omega (arith, ltb-false→le _ _ part, at, small, near),
      )
    ]

  copy_sector-Moved :
      (q : ℕ) (s : Progress)
      → At q s
      → 0 < s.remaining
      → s.handle.current_offset + s.remaining < 2 ^ 32
      → Moved s (copy_sector (sectors q) s) × Before (q + 1) (copy_sector (sectors q) s)
  unfolding copy_sector
  copy_sector-Moved q s at some_left small = elim (Bool-cases (leb sector_size s.skipped_bytes)) [
    | inl far ↦ rw far (
      skip-Moved s (s.skipped_bytes - sector_size),
      inl (omega (arith, at, leb→le _ _ far), some_left),
    )
    | inr near ↦
        let less = leb-false→lt _ _ near in
        rw near (copy-Moved q s at small less, copy-Before q s at small less)
  ]

-- One round of the loop over sectors.
read_sectors-done :
    (disk : Disk) (rounds i lba : ℕ) (s : Progress)
    → s.remaining ≡ 0
    → read_sectors disk (suc rounds) i lba s ≡ (true, s)
unfolding read_sectors
read_sectors-done disk rounds i lba s e =
    ap
      (λ b. elim b [
        | true ↦ (true, s)
        | false ↦ elim (disk (u32 (lba + i))) [
          | none ↦ (false, s)
          | some tmp_buffer ↦ read_sectors disk rounds (i + 1) lba (copy_sector tmp_buffer s)
        ]
      ])
      (ap (λ n. n == 0) e)

read_sectors-step :
    (disk : Disk) (rounds i lba : ℕ) (s : Progress) (sector : ℕ → ℕ)
    → 0 < s.remaining
    → disk (u32 (lba + i)) ≡ some sector
    → read_sectors disk (suc rounds) i lba s
      ≡ read_sectors disk rounds (i + 1) lba (copy_sector sector s)
unfolding read_sectors
read_sectors-step disk rounds i lba s sector some_left e = ground (arith, e)

module _ (disk : Disk) (fat : FatData) (first size : ℕ) (sectors : ℕ → ℕ → ℕ)
    (file : IsFile disk fat first size sectors) (k : ℕ) where
  abbrev spc : ℕ
  spc = sectors_per_cluster fat

  abbrev lba : ℕ
  lba = fat32_cluster_to_lba fat (chain disk fat first k)

  -- The sectors of cluster `k` from `i` on are all read, and the next bytes wanted of them copied.
  pub read_sectors-Moved :
      (rounds i : ℕ) (s : Progress)
      → i + rounds ≡ spc
      → Before sectors (k * spc + i) s
      → s.handle.current_offset + s.remaining ≤ size
      → ((read_sectors disk rounds i lba s).0 ≡ true)
        × Moved sectors s (read_sectors disk rounds i lba s).1
        × Before sectors (k * spc + spc) (read_sectors disk rounds i lba s).1
  unfolding read_sectors
  read_sectors-Moved zero i s e before bound =
      let i_end : k * spc + i ≡ k * spc + spc = omega (arith, e) in
      (refl, Moved-none sectors s, subst (λ q. Before sectors q s) i_end before)
  read_sectors-Moved (suc rounds) i s e (inr (none_left, below)) bound =
      rw (read_sectors-done disk rounds i lba s none_left)
        (refl, Moved-none sectors s, inr (none_left, omega (arith, below, e)))
  read_sectors-Moved (suc rounds) i s e (inl (at, some_left)) bound =
      let found =
        IsFile-sector disk fat file k i (omega (arith, e)) (omega (arith, at, some_left, bound)) in
      let (moved, before) =
        copy_sector-Moved sectors (k * spc + i) s at some_left (omega (arith, bound, file.small)) in
      let s' = copy_sector (sectors (k * spc + i)) s in
      let (ok, rest, done) =
        read_sectors-Moved rounds (i + 1) s' (omega (arith, e))
          (subst (λ q. Before sectors q s') (omega arith) before)
          (omega (arith, moved.offset, moved.remaining, moved.within, bound)) in
      rw (read_sectors-step disk rounds i lba s (sectors (k * spc + i)) some_left found)
        (ok, Moved-then sectors s s' _ moved rest, done)
