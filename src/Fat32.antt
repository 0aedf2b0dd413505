-- ===== src/Fat32.antt =====
-- kernel/src/drivers/fs/fat32/fat32.c: what the driver keeps of the volume, the clusters, and the
-- handles of open files. The child modules have the reads, the names and the directories.
pub mod Reading
pub mod Names
pub mod Directory
pub mod Listing
pub mod Paths
pub mod Layout
pub mod Copying
pub mod Contents
pub mod Read
pub mod Seeking
pub mod Naming
pub mod Walking
pub mod Opening
mod Tests
use lightux.Disk.{Disk, sector_size, word_16, word_32, Partition, mbr_read_sector}
use lightux.Prelude.{
  ℕ, ◌+◌, ◌*◌, ◌/◌, ◌%◌, ◌^◌, Bool, true, false, Option, none, some, u32, bit_and, sub32,
}

-- `FAT32_Data`: the bytes of the boot sector, and where the table and the clusters begin.
pub record FatData : Type 0 where
  pub boot_sector : ℕ → ℕ
  pub fat_start_lba : ℕ
  pub cluster_start_lba : ℕ

-- The fields of the boot sector that the driver uses.
abbrev pub sectors_per_cluster : FatData → ℕ
sectors_per_cluster fat = fat.boot_sector 13

abbrev pub reserved_sectors : FatData → ℕ
reserved_sectors fat = word_16 fat.boot_sector 14

abbrev pub fat_count : FatData → ℕ
fat_count fat = fat.boot_sector 16

abbrev pub sectors_per_fat : FatData → ℕ
sectors_per_fat fat = word_32 fat.boot_sector 36

abbrev pub root_directory_cluster : FatData → ℕ
root_directory_cluster fat = word_32 fat.boot_sector 44

-- FAT32_ReadBootSector and FAT32_Initialize; where the read fails nothing is changed.
unfoldable pub fat32_initialize : Disk → Partition → FatData → Bool × FatData
unfolding mbr_read_sector
fat32_initialize disk partition fat = elim (mbr_read_sector disk partition 0) [
  | none ↦ (false, fat)
  | some bytes ↦
      let fat = record fat { boot_sector = bytes } in
      (
        true,
        record fat {
          fat_start_lba = u32 (partition.partition_offset + reserved_sectors fat);
          cluster_start_lba = u32 (
              partition.partition_offset
              + reserved_sectors fat
              + u32 (sectors_per_fat fat * fat_count fat));
        },
      )
]

abbrev pub end_of_chain : ℕ
end_of_chain = 0x0fff_fff8

unfoldable pub fat32_cluster_to_lba : FatData → (cluster : ℕ) → ℕ
fat32_cluster_to_lba fat cluster =
    u32 (fat.cluster_start_lba + sub32 cluster 2 * sectors_per_cluster fat)

unfoldable pub fat32_next_cluster : Disk → FatData → (cluster : ℕ) → ℕ
fat32_next_cluster disk fat cluster =
    let fat_index = u32 (cluster * 4) in
    elim (disk (u32 (fat.fat_start_lba + fat_index / sector_size))) [
      | none ↦ 0xffff_ffff
      | some buffer ↦ bit_and (word_32 buffer (fat_index % sector_size)) 0x0fff_ffff
    ]

-- `FAT32_FileHandle`
pub record FileHandle : Type 0 where
  pub first_cluster : ℕ
  pub size : ℕ
  pub current_cluster : ℕ
  pub current_offset : ℕ
  pub is_directory : Bool
