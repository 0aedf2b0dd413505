-- ===== src/Fat32/Seeking.antt =====
-- The cluster that a handle is left with: FAT32_Seek places it, and a read that ends inside a cluster
-- leaves it one too far.
use native.Mathlib.Nat.{add-mul, mul_assoc, div-add-mod', mod-lt, mul-le-mul_right, div-mul-le_self}
use lightux.Memory.{Mem}
use lightux.Disk.{Disk}
use lightux.Fat32.{FatData, FileHandle, sectors_per_cluster, end_of_chain, fat32_next_cluster}
use lightux.Fat32.Reading.{seek_loop, fat32_read, fat32_seek}
use lightux.Fat32.Layout.{chain, IsFile}
use lightux.Fat32.Read.{IsPlaced, fat32_read-HasRead}
use lightux.Prelude.{
  ℕ, zero, suc, ◌+◌, ◌-◌, ◌*◌, ◌/◌, ◌%◌, ◌≤◌, ◌<◌, ◌≡◌, ◌≢◌, inl, inr, refl, ap, sym, subst, ◌∙◌,
  false, none, some, min, leb, ltb, arith, Bool-cases, ltb→lt, ltb-false→le, le→ltb-false,
  ne→==-false, Returns,
}

module _ (disk : Disk) (fat : FatData) where
  chain-suc :
      (first k : ℕ)
      → chain disk fat first (suc k) ≡ fat32_next_cluster disk fat (chain disk fat first k)
  unfolding chain
  chain-suc first k = refl

  seek_loop-chain :
      (rounds first k : ℕ)
      → ((j : ℕ) → j ≤ k + rounds → chain disk fat first j < end_of_chain)
      → seek_loop disk fat rounds (chain disk fat first k)
        ≡ some (chain disk fat first (k + rounds))
  unfolding seek_loop
  seek_loop-chain zero first k live = ap (λ j. some (chain disk fat first j)) (omega arith)
  seek_loop-chain (suc rounds) first k live =
      let here : leb end_of_chain (fat32_next_cluster disk fat (chain disk fat first k)) ≡ false =
        ground (arith, live (suc k), chain-suc first k) in
      rw here (
        ap (seek_loop disk fat rounds) (sym (chain-suc first k))
        ∙ seek_loop-chain rounds first (suc k) (λ j h. live j (omega arith))
        ∙ ap (λ j. some (chain disk fat first j)) (omega arith))

-- The multiple of `c` between a number that is none and the number plus `c`.
between : (c off a : ℕ) → 0 < c → off % c ≢ 0 → off ≤ a * c → a * c < off + c → a ≡ off / c + 1
between c off a pos rest above below = elim (Bool-cases (ltb (off / c) a)) [
  | inr low ↦
      let le = mul-le-mul_right c (ltb-false→le _ _ low) in
      absurd (rest (omega (arith, le, above, div-add-mod' off c)))
  | inl more ↦ elim (Bool-cases (ltb (off / c + 1) a)) [
    | inr exact ↦ omega (arith, ltb→lt _ _ more, ltb-false→le _ _ exact)
    | inl high ↦
        let two : off / c + 2 ≤ a = omega (arith, ltb→lt _ _ high) in
        let le = mul-le-mul_right c two in
        let double = add-mul (off / c) 2 c in
        absurd (omega (arith, le, double, below, div-add-mod' off c, mod-lt off pos))
  ]
]

module _ (disk : Disk) (fat : FatData) (sectors : ℕ → ℕ → ℕ) (handle : FileHandle)
    (file : IsFile disk fat handle.first_cluster handle.size sectors)
    (plain : handle.is_directory ≡ false) (offset : ℕ) where
  abbrev size_of_cluster : ℕ
  size_of_cluster = sectors_per_cluster fat * 512

  abbrev index : ℕ
  index = offset / size_of_cluster

  abbrev sought : FileHandle
  sought = record handle {
    current_cluster = chain disk fat handle.first_cluster index;
    current_offset = offset;
  }

  found :
      offset < handle.size
      → seek_loop disk fat index handle.first_cluster
        ≡ some (chain disk fat handle.first_cluster index)
  unfolding chain
  found inside =
      seek_loop-chain disk fat index handle.first_cluster 0 (λ j h. file.live j (
        let le : j * size_of_cluster ≤ index * size_of_cluster =
          mul-le-mul_right size_of_cluster (omega (arith, h)) in
        omega (
          arith,
          le,
          mul_assoc j (sectors_per_cluster fat) 512,
          div-mul-le_self offset size_of_cluster,
          inside,
        )))
      ∙ ap (λ j. some (chain disk fat handle.first_cluster j)) (omega arith)

  fat32_seek-sought :
      offset < handle.size
      → offset ≢ handle.current_offset
      → fat32_seek disk fat handle offset ≡ (offset, sought)
  unfolding fat32_seek
  fat32_seek-sought inside differ =
      rw
        (
          le→ltb-false handle.size offset (omega arith),
          ne→==-false offset handle.current_offset differ,
        )
        (ap
          (λ o. elim o [
            | none ↦ (0, handle)
            | some current_cluster ↦ (
              offset,
              record handle { current_cluster = current_cluster; current_offset = offset },
            )
          ])
          (found inside))

  -- On a file whose sectors can be read, FAT32_Seek to another offset before the end returns the offset
  -- and leaves the handle where a read has to begin: with that offset, and the cluster of it.
  pub fat32_seek-IsPlaced :
      offset < handle.size
      → offset ≢ handle.current_offset
      → ((fat32_seek disk fat handle offset).0 ≡ offset)
        × ((fat32_seek disk fat handle offset).1.current_offset ≡ offset)
        × IsPlaced disk fat sectors (fat32_seek disk fat handle offset).1
  fat32_seek-IsPlaced inside differ =
      rw (fat32_seek-sought inside differ)
        (refl, refl, record { file = file; plain = plain; inside = omega arith; cluster = refl })

-- A read of some bytes, from a handle that stands where a read has to begin, that ends inside a cluster
-- leaves the handle with the cluster behind the one of its offset: not where the next read has to begin.
pub fat32_read-too_far :
    (disk : Disk) (fat : FatData) (sectors : ℕ → ℕ → ℕ) (rounds : ℕ) (handle : FileHandle)
    (buffer bytes_count : ℕ) (m : Mem) (placed : IsPlaced disk fat sectors handle)
    → handle.size < rounds
    → 0 < min bytes_count (handle.size - handle.current_offset)
    → (handle.current_offset + min bytes_count (handle.size - handle.current_offset))
        % (sectors_per_cluster fat * 512)
      ≢ 0
    → Returns (fat32_read disk fat rounds handle buffer bytes_count m) (λ r s.
      s.handle.current_cluster
      ≡ chain disk fat handle.first_cluster
          (s.handle.current_offset / (sectors_per_cluster fat * 512) + 1))
fat32_read-too_far disk fat sectors rounds handle buffer bytes_count m placed fuel some_left
      inside =
    let (r, s, e, got) =
      fat32_read-HasRead disk fat sectors rounds handle buffer bytes_count m placed fuel in
    (
      r,
      s,
      e,
      elim got.cluster [
        | inl none_left ↦ absurd (omega (arith, none_left.0, some_left))
        | inr (pos, ahead) ↦
            let spc = sectors_per_cluster fat in
            let c = spc * 512 in
            ahead.cluster
            ∙ ap (chain disk fat handle.first_cluster) (
                between c s.handle.current_offset ahead.after (omega (arith, placed.file.clusters))
                  (subst (λ t. t % c ≢ 0) (sym got.offset) inside)
                  (omega (arith, ahead.above, mul_assoc ahead.after spc 512))
                  (omega (arith, ahead.below, mul_assoc ahead.after spc 512)))
      ],
    )
