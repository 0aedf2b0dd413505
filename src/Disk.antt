-- ===== src/Disk.antt =====
-- kernel/src/drivers/disk/mbr.c, and what kernel/src/drivers/disk/disk.c promises its callers: a sector of
-- 512 bytes, or a failure. The controller behind it is a parameter, the function from a sector's address
-- to what diskRead leaves in the buffer.
use lightux.Prelude.{ℕ, ◌+◌, ◌*◌, Option, add64}

abbrev pub sector_size : ℕ
sector_size = 512

abbrev pub Disk : Type 0
Disk = ℕ → Option (ℕ → ℕ)

-- Fields of packed structs, least significant byte first.
abbrev pub word_16 : (ℕ → ℕ) → ℕ → ℕ
word_16 bytes i = bytes i + 256 * bytes (i + 1)

abbrev pub word_32 : (ℕ → ℕ) → ℕ → ℕ
word_32 bytes i = word_16 bytes i + 65536 * word_16 bytes (i + 2)

-- `Partition`, of which the driver keeps the start and the size in sectors.
pub record Partition : Type 0 where
  pub partition_offset : ℕ
  pub partition_size : ℕ

-- An entry of the partition table at `part_ptr`, as `MBR_Entry` lays it out.
unfoldable pub mbr_detect_partition : (bytes : ℕ → ℕ) → (part_ptr : ℕ) → Partition
mbr_detect_partition bytes part_ptr = record {
  partition_offset = word_32 bytes (part_ptr + 8);
  partition_size = word_32 bytes (part_ptr + 12);
}

-- One sector of a partition.
unfoldable pub mbr_read_sector : Disk → Partition → (sector : ℕ) → Option (ℕ → ℕ)
mbr_read_sector disk part sector = disk (add64 sector part.partition_offset)
