-- ===== src/Fat32/Reading.antt =====
-- FAT32_Read and FAT32_Seek of fat32.c. A loop over the clusters of a chain recurs on `rounds`, and spins
-- where these run out, since a damaged chain can be a cycle.
use lightux.Disk.{Disk, sector_size}
use lightux.Memory.{Mem}
use lightux.Fat32.{
  FatData, FileHandle, sectors_per_cluster, end_of_chain, fat32_cluster_to_lba, fat32_next_cluster,
}
use lightux.Prelude.{
  ℕ, zero, suc, ◌+◌, ◌-◌, ◌*◌, ◌/◌, ◌%◌, Bool, true, false, ◌&&◌, Option, none, some, leb, ltb,
  ◌==◌, if◌then◌else◌, u32, sub32, min, Outcome, returns, panics, spins, ◌||◌,
}

-- The local variables of FAT32_Read, with the handle and the memory that the buffer is in.
pub record Progress : Type 0 where
  pub handle : FileHandle
  pub u8_buffer : ℕ
  pub remaining : ℕ
  pub skipped_bytes : ℕ
  pub memory : Mem

-- `memcpy(u8Buffer, tmpBufferPtr, toCopy)`, from the local buffer of a sector.
abbrev pub copy_from : (dest : ℕ) → (source : ℕ → ℕ) → (from n : ℕ) → Mem → Mem
copy_from dest source from n m a =
    if leb dest a && ltb a (dest + n) then source (from + (a - dest)) else m a

-- What is done with a sector that has been read.
unfoldable pub copy_sector : (tmp_buffer : ℕ → ℕ) → Progress → Progress
copy_sector tmp_buffer s =
    let to_copy = min (sector_size - s.skipped_bytes) s.remaining in
    if leb sector_size s.skipped_bytes
    then record s { skipped_bytes = s.skipped_bytes - sector_size }
    else record s {
      handle = record s.handle { current_offset = u32 (s.handle.current_offset + to_copy) };
      u8_buffer = s.u8_buffer + to_copy;
      remaining = s.remaining - to_copy;
      skipped_bytes = 0;
      memory = copy_from s.u8_buffer tmp_buffer s.skipped_bytes to_copy s.memory;
    }

-- The sectors of a cluster from `i` on; false where a read fails.
unfoldable pub read_sectors : Disk → (rounds i lba : ℕ) → Progress → Bool × Progress
read_sectors disk zero i lba s = (true, s)
read_sectors disk (suc rounds) i lba s = elim (s.remaining == 0) [
  | true ↦ (true, s)
  | false ↦ elim (disk (u32 (lba + i))) [
    | none ↦ (false, s)
    | some tmp_buffer ↦ read_sectors disk rounds (i + 1) lba (copy_sector tmp_buffer s)
  ]
]

unfoldable pub read_clusters :
    Disk → FatData → (rounds cluster : ℕ) → Progress → Outcome Progress (Unit {0})
read_clusters disk fat zero cluster s = spins
read_clusters disk fat (suc rounds) cluster s =
    elim (ltb cluster end_of_chain && ltb 0 s.remaining) [
      | false ↦ returns tt s
      | true ↦
          let (ok, s) =
            read_sectors disk (sectors_per_cluster fat) 0 (fat32_cluster_to_lba fat cluster) s in
          let next = fat32_next_cluster disk fat cluster in
          elim ok [
            | false ↦ returns tt s
            | true ↦
                read_clusters disk fat rounds next
                  (record s { handle = record s.handle { current_cluster = next } })
          ]
    ]

-- The result is the number of bytes read, `u8Buffer - buffer`.
unfoldable pub fat32_read :
    Disk → FatData → (rounds : ℕ) → FileHandle → (buffer bytes_count : ℕ) → Mem → Outcome Progress ℕ
fat32_read disk fat rounds handle buffer bytes_count m =
    let remaining = min bytes_count (sub32 handle.size handle.current_offset) in
    let start : Progress = record {
      handle = handle;
      u8_buffer = buffer;
      remaining = remaining;
      skipped_bytes = handle.current_offset % (sectors_per_cluster fat * sector_size);
      memory = m;
    } in
    if handle.is_directory || remaining == 0
    then returns 0 (record start { remaining = 0 })
    else elim (read_clusters disk fat rounds handle.current_cluster start) [
      | returns _ s ↦ returns (s.u8_buffer - buffer) s
      | panics s ↦ panics s
      | spins ↦ spins
    ]

-- The chain followed for `rounds` clusters, or none where it ends before.
unfoldable pub seek_loop : Disk → FatData → (rounds current_cluster : ℕ) → Option ℕ
seek_loop disk fat zero current_cluster = some current_cluster
seek_loop disk fat (suc rounds) current_cluster =
    let next = fat32_next_cluster disk fat current_cluster in
    let rest = seek_loop disk fat rounds next in if leb end_of_chain next then none else rest

unfoldable pub fat32_seek : Disk → FatData → FileHandle → (offset : ℕ) → ℕ × FileHandle
fat32_seek disk fat handle offset =
    let cluster_index = offset / (sectors_per_cluster fat * sector_size) in
    if ltb handle.size offset
    then (0, handle)
    else if offset == handle.current_offset
    then (offset, handle)
    else elim (seek_loop disk fat cluster_index handle.first_cluster) [
      | none ↦ (0, handle)
      | some current_cluster ↦
          (offset, record handle { current_cluster = current_cluster; current_offset = offset })
    ]
