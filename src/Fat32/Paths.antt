-- ===== src/Fat32/Paths.antt =====
-- FAT32_TraversePath, FAT32_Open and FAT32_ListDirectory of fat32.c.
use lightux.Disk.{Disk}
use lightux.Memory.{Mem}
use lightux.Text.{strchr, strlen}
use lightux.Fat32.{FatData, FileHandle, root_directory_cluster}
use lightux.Fat32.Names.{
  DirectoryEntry, attributes, first_cluster_high, first_cluster_low, file_size,
}
use lightux.Prelude.{
  ℕ, zero, suc, ◌+◌, ◌-◌, ◌*◌, ◌/◌, ◌%◌, ◌^◌, Bool, true, false, not, ◌&&◌, ◌||◌, ltb, ◌==◌,
  if◌then◌else◌, List, [], Option, none, some, u32, bit_and, bit_or, Outcome, returns, panics,
  spins,
}
use lightux.Fat32.Directory.{Leftovers, fat32_find_entry}
use lightux.Fat32.Listing.{fat32_list_directory_entry}

-- `(FirstClusterHigh << 16) | FirstClusterLow`, on `uint16_t` halves.
unfoldable pub first_cluster_of : DirectoryEntry → ℕ
first_cluster_of entry = u32 (bit_or (first_cluster_high entry * 2 ^ 16) (first_cluster_low entry))

-- The entry that stands for the root: zeros, a directory, and its cluster in two halves.
unfoldable pub root_entry : FatData → DirectoryEntry
root_entry fat i =
    let root = root_directory_cluster fat in
    if i == 11
    then 0x10
    else if i == 26
    then root / 2 ^ 16 % 256
    else if i == 27
    then root / 2 ^ 24 % 256
    else if i == 20
    then root % 256
    else if i == 21
    then root / 2 ^ 8 % 256
    else 0

-- A component of the path, copied to the array `name` with its terminator.
abbrev pub component : (path len : ℕ) → Mem → (name : ℕ → ℕ) → (ℕ → ℕ)
component path len m name i = if ltb i len then m (path + i) else if i == len then 0 else name i

-- The component at `path`, and the path behind it; none where no terminator is found.
unfoldable pub next_component :
    (rounds : ℕ) → Mem → (path : ℕ) → (name : ℕ → ℕ) → Option (ℕ × (ℕ → ℕ))
next_component rounds m path name = elim (strchr rounds path 0x2f m) [
  | returns delim _ ↦ elim (delim == 0) [
    | false ↦ some (delim + 1, component path (delim - path) m name)
    | true ↦ elim (strlen rounds path m) [
      | returns len _ ↦ some (path + len, component path len m name)
      | panics _ ↦ none
      | spins ↦ none
    ]
  ]
  | panics _ ↦ none
  | spins ↦ none
]

unfoldable pub traverse_loop :
    Disk
    → FatData
    → Leftovers
    → (rounds fuel : ℕ) → Mem
    → (path current_cluster : ℕ) → (name entry : ℕ → ℕ) → Outcome (Unit {0}) (Option DirectoryEntry)
unfolding next_component first_cluster_of
traverse_loop disk fat left rounds zero m path current_cluster name entry = spins
traverse_loop disk fat left rounds (suc fuel) m path current_cluster name entry =
    elim (m path == 0) [
      | true ↦ returns (some entry) tt
      | false ↦ elim (next_component rounds m path name) [
        | none ↦ spins
        | some (path', name') ↦ elim (fat32_find_entry disk fat left rounds current_cluster name') [
          | returns found _ ↦ elim found [
            | none ↦ returns none tt
            | some entry' ↦
                traverse_loop disk fat left rounds fuel m path' (first_cluster_of entry') name'
                  entry'
          ]
          | panics _ ↦ spins
          | spins ↦ spins
        ]
      ]
    ]

-- `entry` is what the local of that name holds before it is set.
unfoldable pub fat32_traverse_path :
    Disk
    → FatData
    → Leftovers
    → (rounds : ℕ) → Mem
    → (path : ℕ) → (entry : DirectoryEntry) → Outcome (Unit {0}) (Option DirectoryEntry)
unfolding traverse_loop root_entry
fat32_traverse_path disk fat left rounds m path entry =
    if m path == 0x2f && m (path + 1) == 0
    then returns (some (root_entry fat)) tt
    else traverse_loop disk fat left rounds rounds m (if m path == 0x2f then path + 1 else path)
        (root_directory_cluster fat) left.held entry

-- FAT32_Open: NULL is none. The handle is a new object of the heap.
unfoldable pub fat32_open :
    Disk
    → FatData
    → Leftovers
    → (rounds : ℕ) → Mem
    → (path : ℕ) → (entry : DirectoryEntry) → Outcome (Unit {0}) (Option FileHandle)
fat32_open disk fat left rounds m path entry =
    elim (fat32_traverse_path disk fat left rounds m path entry) [
      | returns found _ ↦
          returns
            (elim found [
              | none ↦ none
              | some entry ↦ some (record {
                first_cluster = first_cluster_of entry;
                size = file_size entry;
                current_cluster = first_cluster_of entry;
                current_offset = 0;
                is_directory = not (bit_and (attributes entry) 0x10 == 0);
              })
            ])
            tt
      | panics _ ↦ spins
      | spins ↦ spins
    ]

-- FAT32_ListDirectory of a path that is not NULL; the state is what has been printed.
unfoldable pub fat32_list_directory :
    Disk
    → FatData
    → Leftovers
    → (rounds : ℕ) → Mem
    → (path : ℕ) → (entry : DirectoryEntry) → Outcome (List (List ℕ)) Bool
unfolding fat32_traverse_path first_cluster_of
fat32_list_directory disk fat left rounds m path entry =
    if m path == 0 || m path == 0x2f && m (path + 1) == 0
    then fat32_list_directory_entry disk fat left rounds (root_directory_cluster fat)
    else elim (fat32_traverse_path disk fat left rounds m path entry) [
      | returns found _ ↦ elim found [
        | none ↦ returns false []
        | some entry ↦
            if bit_and (attributes entry) 0x10 == 0
            then returns false []
            else fat32_list_directory_entry disk fat left rounds (first_cluster_of entry)
      ]
      | panics _ ↦ spins
      | spins ↦ spins
    ]
