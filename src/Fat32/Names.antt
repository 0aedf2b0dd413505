-- ===== src/Fat32/Names.antt =====
-- The names of directory entries in fat32.c. An entry is its 32 bytes.
use lightux.Disk.{word_16, word_32}
use lightux.Text.{isupper}
use lightux.Prelude.{
  ℕ, zero, suc, ◌+◌, ◌-◌, ◌*◌, Bool, true, false, not, ◌&&◌, ltb, ◌==◌, if◌then◌else◌, List, [],
  ◌∷◌, ◌++◌, u8,
}

-- `FAT32_DirectoryEntry`
abbrev pub DirectoryEntry : Type 0
DirectoryEntry = ℕ → ℕ

abbrev pub attributes : DirectoryEntry → ℕ
attributes entry = entry 11

abbrev pub first_cluster_high : DirectoryEntry → ℕ
first_cluster_high entry = word_16 entry 20

abbrev pub first_cluster_low : DirectoryEntry → ℕ
first_cluster_low entry = word_16 entry 26

abbrev pub file_size : DirectoryEntry → ℕ
file_size entry = word_32 entry 28

-- `FAT32_LFNEntry`
abbrev pub order : DirectoryEntry → ℕ
order entry = entry 0

abbrev pub lfn_type : DirectoryEntry → ℕ
lfn_type entry = entry 12

-- The characters of an LFN entry, in their three groups, as FAT32_LFNCopy takes them.
unfoldable pub lfn_char : DirectoryEntry → (target_index : ℕ) → ℕ
lfn_char entry t =
    if ltb t 5
    then word_16 entry (1 + 2 * t)
    else if ltb t 11
    then word_16 entry (14 + 2 * (t - 5))
    else word_16 entry (28 + 2 * (t - 11))

-- The stack around `lfnName`: cell 13 + i is lfnName[i], so that the cells of index -1 are there too.
-- `ordinal` is the index plus 1.
unfoldable pub copy_chars : DirectoryEntry → (ordinal rounds target_index : ℕ) → (ℕ → ℕ) → (ℕ → ℕ)
copy_chars entry ordinal zero t cells = cells
copy_chars entry ordinal (suc rounds) t cells =
    copy_chars entry ordinal rounds (t + 1)
      (λ a. if a == ordinal * 13 + t then u8 (lfn_char entry t) else cells a)

unfoldable pub fat32_lfn_copy : (lfn_name : ℕ → ℕ) → DirectoryEntry → (ordinal : ℕ) → (ℕ → ℕ)
unfolding copy_chars
fat32_lfn_copy lfn_name entry ordinal = copy_chars entry ordinal 13 0 lfn_name

-- The characters from `i` on, up to a space.
unfoldable pub up_to_space : (rounds i : ℕ) → (ℕ → ℕ) → List ℕ
up_to_space zero i name = []
up_to_space (suc rounds) i name =
    let rest = up_to_space rounds (i + 1) name in if name i == 0x20 then [] else name i ∷ rest

-- FAT32_ShortNameToName: the text that is stored, before its terminator.
unfoldable pub fat32_short_name_to_name : (short_name : ℕ → ℕ) → List ℕ
unfolding up_to_space
fat32_short_name_to_name short_name =
    up_to_space 8 0 short_name
    ++ (if short_name 8 == 0x20 then [] else 0x2e ∷ up_to_space 3 8 short_name)

-- The loop of FAT32_IsShortName: false where a character is refused, and the place of the last dot.
unfoldable pub short_name_loop : (rounds i dot_location : ℕ) → (ℕ → ℕ) → Bool × ℕ
short_name_loop zero i dot_location file_name = (true, dot_location)
short_name_loop (suc rounds) i dot_location file_name =
    let rest =
      short_name_loop rounds (i + 1) (if file_name i == 0x2e then i else dot_location) file_name in
    if file_name i == 0x2e
    then rest
    else if not (isupper (file_name i)) && not (file_name i == 0x20)
    then (false, dot_location)
    else rest

-- For `len` of at least 4, so that `len - 1 - 3` does not wrap.
unfoldable pub fat32_is_short_name : (file_name : ℕ → ℕ) → (len : ℕ) → Bool
unfolding short_name_loop
fat32_is_short_name file_name len =
    let (allowed, dot_location) = short_name_loop len 0 0 file_name in
    allowed && not (not (dot_location == 0) && ltb dot_location (len - 1 - 3))
