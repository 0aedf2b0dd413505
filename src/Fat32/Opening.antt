-- ===== src/Fat32/Opening.antt =====
-- FAT32_Open: a file is opened so that its first bytes are read, and the root directory in the wrong
-- place.
use native.Mathlib.Nat.{zero-div}
use lightux.Bits.{bit_or-fields}
use lightux.Disk.{Disk}
use lightux.Memory.{Mem}
use lightux.Fat32.{FatData, FileHandle, sectors_per_cluster, root_directory_cluster}
use lightux.Fat32.Names.{
  DirectoryEntry, attributes, first_cluster_high, first_cluster_low, file_size,
}
use lightux.Fat32.Directory.{Leftovers}
use lightux.Fat32.Reading.{fat32_read}
use lightux.Fat32.Walking.{
  cluster_of, first_cluster_of-bytes, Resolves, Resolves-bytes, behind_slash,
  fat32_traverse_path-Resolves,
}
use lightux.Fat32.Paths.{first_cluster_of, root_entry, fat32_traverse_path, fat32_open}
use lightux.Fat32.Layout.{file_byte, chain, IsFile}
use lightux.Fat32.Read.{IsPlaced, fat32_read-HasRead}
use lightux.Prelude.{
  ℕ, ◌+◌, ◌*◌, ◌/◌, ◌%◌, ◌^◌, ◌<◌, ◌≡◌, refl, ap, ap₂, sym, ◌∙◌, true, not, ◌==◌, none, some, u32,
  bit_and, arith, returns, panics, spins, Returns, ◌≢◌, ◌-◌, leb, ltb, ◌&&◌, min, if◌then◌else◌,
  subst,
}

-- The two halves side by side, for bytes.
first_cluster_of_lem :
    (entry : DirectoryEntry)
    → ((i : ℕ) → entry i < 256)
    → first_cluster_of entry ≡ first_cluster_high entry * 2 ^ 16 + first_cluster_low entry
unfolding first_cluster_of
first_cluster_of_lem entry bytes =
    ap u32 (
      bit_or-fields 16 (first_cluster_high entry) (first_cluster_low entry)
        (omega (arith, bytes 26, bytes 27)))
    ∙ omega (arith, bytes 20, bytes 21, bytes 26, bytes 27)

module _ (fat : FatData) where
  abbrev root : ℕ
  root = root_directory_cluster fat

  root_entry-bytes : (i : ℕ) → root_entry fat i < 256
  unfolding root_entry
  root_entry-bytes i = ground arith

  root_entry-attributes : attributes (root_entry fat) ≡ 0x10
  unfolding root_entry
  root_entry-attributes = refl

  root_entry-halves :
      ((i : ℕ) → fat.boot_sector i < 256)
      → (first_cluster_high (root_entry fat) ≡ root % 2 ^ 16)
        × (first_cluster_low (root_entry fat) ≡ root / 2 ^ 16)
  unfolding root_entry
  root_entry-halves bytes = (omega arith, omega (arith, bytes 44, bytes 45, bytes 46, bytes 47))

module _ (disk : Disk) (fat : FatData) (left : Leftovers) (rounds : ℕ) (m : Mem) (path : ℕ)
    (entry : DirectoryEntry) where
  abbrev pub opened : DirectoryEntry → FileHandle
  opened e = record {
    first_cluster = first_cluster_of e;
    size = file_size e;
    current_cluster = first_cluster_of e;
    current_offset = 0;
    is_directory = not (bit_and (attributes e) 0x10 == 0);
  }

  chain-zero : (first : ℕ) → chain disk fat first 0 ≡ first
  unfolding chain
  chain-zero first = refl

  fat32_open-opened :
      (e : DirectoryEntry)
      → fat32_traverse_path disk fat left rounds m path entry ≡ returns (some e) tt
      → fat32_open disk fat left rounds m path entry ≡ returns (some (opened e)) tt
  unfolding fat32_open
  fat32_open-opened e found =
      ap
        (λ o. elim o [
          | returns found _ ↦
              returns (elim found [ none ↦ none | some entry ↦ some (opened entry) ]) tt
          | panics _ ↦ spins
          | spins ↦ spins
        ])
        found

  fat32_open-IsPlaced :
      (e : DirectoryEntry) (sectors : ℕ → ℕ → ℕ)
      → fat32_traverse_path disk fat left rounds m path entry ≡ returns (some e) tt
      → bit_and (attributes e) 0x10 ≡ 0
      → IsFile disk fat (first_cluster_of e) (file_size e) sectors
      → (fat32_open disk fat left rounds m path entry ≡ returns (some (opened e)) tt)
        × IsPlaced disk fat sectors (opened e)
  fat32_open-IsPlaced e sectors found file_bit file = (
    fat32_open-opened e found,
    record {
      file = file;
      plain = ground (arith, file_bit);
      inside = omega arith;
      cluster =
          let start = zero-div (sectors_per_cluster fat * 512) in
          sym (ap (chain disk fat (first_cluster_of e)) start ∙ chain-zero (first_cluster_of e));
    },
  )

  fat32_traverse_path-root :
      m path ≡ 0x2f
      → m (path + 1) ≡ 0
      → fat32_traverse_path disk fat left rounds m path entry ≡ returns (some (root_entry fat)) tt
  unfolding fat32_traverse_path
  fat32_traverse_path-root slash end = rw (slash, end) refl

  -- On a boot sector of bytes, FAT32_Open of the path of the root directory gives a directory, but
  -- with the two halves of the first cluster of the root exchanged.
  pub fat32_open-root :
      m path ≡ 0x2f
      → m (path + 1) ≡ 0
      → ((i : ℕ) → fat.boot_sector i < 256)
      → (fat32_open disk fat left rounds m path entry ≡ returns (some (opened (root_entry fat))) tt)
        × ((opened (root_entry fat)).is_directory ≡ true)
        × ((opened (root_entry fat)).first_cluster
            ≡ root_directory_cluster fat % 2 ^ 16 * 2 ^ 16 + root_directory_cluster fat / 2 ^ 16)
  fat32_open-root slash end bytes = (
    fat32_open-opened (root_entry fat) (fat32_traverse_path-root slash end),
    rw (root_entry-attributes fat) refl,
    first_cluster_of_lem (root_entry fat) (root_entry-bytes fat)
        ∙ ap₂ (λ high low. high * 2 ^ 16 + low) (root_entry-halves fat bytes).0
            (root_entry-halves fat bytes).1,
  )

-- What FAT32_Open gives, and what FAT32_Read of it then gives and leaves: a handle, whose read returns
-- the first bytes of the file, as many as are wanted and there.
pub record Served (disk : Disk) (fat : FatData) (left : Leftovers) (rounds : ℕ) (m : Mem) (path : ℕ)
    (held : DirectoryEntry) (sectors : ℕ → ℕ → ℕ) (size buffer bytes_count : ℕ) (m' : Mem)
    : Type 0 where
  pub handle : FileHandle
  pub opens : fat32_open disk fat left rounds m path held ≡ returns (some handle) tt
  pub reads : Returns (fat32_read disk fat rounds handle buffer bytes_count m') (λ count s.
      (count ≡ min bytes_count size)
      × ((j : ℕ)
          → s.memory j ≡ (
              if leb buffer j && ltb j (buffer + min bytes_count size)
              then file_byte sectors (j - buffer)
              else m' j)))

-- For a path, its pointer not NULL, whose names resolve one after another, from the root directory on,
-- to the entry of a file, the names fewer than the rounds, which is no directory and of fewer bytes than
-- the rounds, and whose sectors can be read from the cluster that the bytes of its entry name, FAT32_Open
-- gives a handle; and FAT32_Read of that handle returns the number of bytes wanted, or the size in the
-- entry where that is less, and puts that many bytes from the start of the file in the buffer, with no
-- other byte of memory changed.
pub fat32_open-read :
    (disk : Disk) (fat : FatData) (left : Leftovers) (rounds : ℕ) (m : Mem) (path : ℕ)
    (held e : DirectoryEntry) (k : ℕ) (sectors : ℕ → ℕ → ℕ) (buffer bytes_count : ℕ) (m' : Mem)
    → path ≢ 0
    → Resolves disk fat left rounds m
        (behind_slash disk fat left rounds m path)
        (root_directory_cluster fat)
        left.held
        e
        k
    → k < rounds
    → bit_and (attributes e) 0x10 ≡ 0
    → IsFile disk fat (cluster_of e) (file_size e) sectors
    → file_size e < rounds
    → Served disk fat left rounds m path held sectors (file_size e) buffer bytes_count m'
fat32_open-read disk fat left rounds m path held e k sectors buffer bytes_count m' pointer resolved
      names file_bit file fuel =
    let found =
      fat32_traverse_path-Resolves disk fat left rounds m path k e held resolved pointer names in
    let first = first_cluster_of-bytes e (Resolves-bytes disk fat left rounds m resolved) in
    let (opens, placed) =
      fat32_open-IsPlaced disk fat left rounds m path held e sectors found file_bit
        (subst (λ c. IsFile disk fat c (file_size e) sectors) (sym first) file) in
    let (count, s, run, read) =
      fat32_read-HasRead disk fat sectors rounds _ buffer bytes_count m' placed fuel in
    let none_passed : file_size e - 0 ≡ file_size e = omega arith in
    record {
      handle = opened disk fat left rounds m path held e;
      opens = opens;
      reads = (
        count,
        s,
        run,
        (
          read.counted ∙ ap (min bytes_count) none_passed,
          λ j.
              read.copied j
              ∙ ap₂
                  (λ n d.
                    if leb buffer j && ltb j (buffer + min bytes_count n)
                    then file_byte sectors d
                    else m' j)
                  none_passed (omega arith),
        ),
      );
    }
