-- ===== src/Fat32/Read.antt =====
-- FAT32_Read as a whole: the bytes of the file, and where it leaves the handle.
use native.Mathlib.Nat.{mul_assoc, div-add-mod', mul-le-mul_left}
use lightux.Memory.{Mem}
use lightux.Fat32.{FatData, FileHandle, sectors_per_cluster}
use lightux.Disk.{Disk}
use lightux.Fat32.Reading.{Progress, read_clusters, fat32_read}
use lightux.Fat32.Layout.{file_byte, chain, IsFile}
use lightux.Fat32.Copying.{Moved, At}
use lightux.Fat32.Contents.{Ahead, read_clusters-Moved}
use lightux.Prelude.{
  ℕ, suc, ◌+◌, ◌-◌, ◌*◌, ◌/◌, ◌%◌, ◌≤◌, ◌<◌, ◌≡◌, ◌⊎◌, inl, inr, refl, ap, sym, subst, true, false,
  ◌&&◌, ◌||◌, leb, ltb, ◌==◌, if◌then◌else◌, sub32, min, arith, Bool-cases, ==→eq, ==-false→ne,
  Outcome, returns, panics, spins, Returns,
}

-- A handle that stands where a read has to begin: on a file, with the cluster of its offset.
pub record IsPlaced (disk : Disk) (fat : FatData) (sectors : ℕ → ℕ → ℕ) (handle : FileHandle)
    : Type 0 where
  pub file : IsFile disk fat handle.first_cluster handle.size sectors
  pub plain : handle.is_directory ≡ false
  pub inside : handle.current_offset ≤ handle.size
  pub cluster :
      handle.current_cluster
      ≡ chain disk fat handle.first_cluster
          (handle.current_offset / (sectors_per_cluster fat * 512))

-- What FAT32_Read gives and leaves, of `n` bytes.
pub record HasRead (disk : Disk) (fat : FatData) (sectors : ℕ → ℕ → ℕ) (handle : FileHandle)
    (buffer n : ℕ) (m : Mem) (count : ℕ) (s : Progress) : Type 0 where
  pub counted : count ≡ n
  pub offset : s.handle.current_offset ≡ handle.current_offset + n
  pub first : s.handle.first_cluster ≡ handle.first_cluster
  pub size : s.handle.size ≡ handle.size
  pub copied :
      (j : ℕ)
      → s.memory j ≡ (
          if leb buffer j && ltb j (buffer + n)
          then file_byte sectors (handle.current_offset + (j - buffer))
          else m j)
  pub cluster :
      ((n ≡ 0) × (s.handle.current_cluster ≡ handle.current_cluster))
      ⊎ ((0 < n) × Ahead disk fat handle.first_cluster s.handle)

module _ (disk : Disk) (fat : FatData) (sectors : ℕ → ℕ → ℕ) (rounds : ℕ) (handle : FileHandle)
    (buffer bytes_count : ℕ) (m : Mem) (placed : IsPlaced disk fat sectors handle) where
  abbrev pub wanted : ℕ
  wanted = min bytes_count (handle.size - handle.current_offset)

  abbrev begun : ℕ → Progress
  begun n = record {
    handle = handle;
    u8_buffer = buffer;
    remaining = n;
    skipped_bytes = handle.current_offset % (sectors_per_cluster fat * 512);
    memory = m;
  }

  wanted_lem : min bytes_count (sub32 handle.size handle.current_offset) ≡ wanted
  wanted_lem = ap (min bytes_count) (omega (arith, placed.inside, placed.file.small))

  begun-At :
      (n : ℕ)
      → At sectors
          (handle.current_offset / (sectors_per_cluster fat * 512) * sectors_per_cluster fat)
          (begun n)
  begun-At n =
      let c = sectors_per_cluster fat * 512 in
      let k = handle.current_offset / c in
      omega (arith, div-add-mod' handle.current_offset c, mul_assoc k (sectors_per_cluster fat) 512)

  enough : (k n : ℕ) → 0 < k → n ≤ n * k
  enough k n pos =
      let le : n * 1 ≤ n * k = mul-le-mul_left n (omega (arith, pos)) in omega (arith, le)

  abbrev finish : Outcome Progress (Unit {0}) → Outcome Progress ℕ
  finish o = elim o [
    | returns _ s ↦ returns (s.u8_buffer - buffer) s
    | panics s ↦ panics s
    | spins ↦ spins
  ]

  abbrev reading : ℕ → Outcome Progress ℕ
  reading n =
      if handle.is_directory || n == 0
      then returns 0 (record (begun n) { remaining = 0 })
      else finish (read_clusters disk fat rounds handle.current_cluster (begun n))

  fat32_read-reading : fat32_read disk fat rounds handle buffer bytes_count m ≡ reading wanted
  unfolding fat32_read
  fat32_read-reading = ap reading wanted_lem

  clusters :
      0 < wanted
      → handle.size < rounds
      → Returns (read_clusters disk fat rounds handle.current_cluster (begun wanted)) (λ _ s.
        Moved sectors (begun wanted) s
        × (s.remaining ≡ 0)
        × Ahead disk fat handle.first_cluster s.handle)
  clusters some_left fuel =
      let k = handle.current_offset / (sectors_per_cluster fat * 512) in
      let r = rounds - 1 in
      let at = begun-At wanted in
      let bound : handle.current_offset + wanted ≤ handle.size = omega (arith, placed.inside) in
      let run =
        read_clusters-Moved disk fat handle.first_cluster handle.size sectors placed.file r k
          (begun wanted) at some_left bound
          (omega
            (arith, bound, at, fuel, enough (sectors_per_cluster fat) r placed.file.clusters)) in
      let same : rounds ≡ suc r = omega (arith, fuel) in
      subst
        (λ t. Returns (read_clusters disk fat t handle.current_cluster (begun wanted)) (λ _ s.
          Moved sectors (begun wanted) s
          × (s.remaining ≡ 0)
          × Ahead disk fat handle.first_cluster s.handle))
        (sym same)
        (subst
          (λ c. Returns (read_clusters disk fat (suc r) c (begun wanted)) (λ _ s.
            Moved sectors (begun wanted) s
            × (s.remaining ≡ 0)
            × Ahead disk fat handle.first_cluster s.handle))
          (sym placed.cluster) run)

  read-some :
      0 < wanted
      → handle.size < rounds
      → Returns (reading wanted) (λ r s. HasRead disk fat sectors handle buffer wanted m r s)
  read-some some_left fuel =
      let (u, s, e, (moved, none_left, ahead)) = clusters some_left fuel in
      let more : (handle.is_directory || wanted == 0) ≡ false =
        ground (arith, placed.plain, some_left) in
      let all : moved.n ≡ wanted = omega (arith, moved.remaining, moved.within, none_left) in
      (
        s.u8_buffer - buffer,
        s,
        rw more (ap finish e),
        record {
          counted = omega (arith, moved.buffer, all);
          offset = omega (arith, moved.offset, all);
          first = moved.first;
          size = moved.size;
          copied = λ j. rw (sym all) (moved.copied j);
          cluster = inr (some_left, ahead);
        },
      )

  read-none :
      wanted ≡ 0
      → Returns (reading wanted) (λ r s. HasRead disk fat sectors handle buffer wanted m r s)
  read-none none_left =
      let over : (handle.is_directory || wanted == 0) ≡ true = ground (arith, none_left) in
      (
        0,
        record (begun wanted) { remaining = 0 },
        rw over refl,
        record {
          counted = omega (arith, none_left);
          offset = omega (arith, none_left);
          first = refl;
          size = refl;
          copied = λ j. ground (arith, none_left);
          cluster = inl (none_left, refl);
        },
      )

  -- From a handle on a file of fewer bytes than `rounds`, whose sectors can be read, with the cluster of
  -- its offset, FAT32_Read returns the number of bytes wanted that lie before the end of the file; the
  -- buffer then has these bytes of the file, and no other byte of memory is changed. The offset moves
  -- behind them, and the cluster is then the first of the chain that begins at or behind the offset.
  pub fat32_read-HasRead :
      handle.size < rounds
      → Returns
          (fat32_read disk fat rounds handle buffer bytes_count m)
          (λ r s. HasRead disk fat sectors handle buffer wanted m r s)
  fat32_read-HasRead fuel = rw fat32_read-reading (elim (Bool-cases (wanted == 0)) [
    | inl none_left ↦ read-none (==→eq wanted 0 none_left)
    | inr some_left ↦ read-some (omega (arith, ==-false→ne wanted 0 some_left)) fuel
  ])
