-- ===== src/Fat32/Listing.antt =====
-- FAT32_ListDirectoryEntry of fat32.c: the names that a directory has, as they are printed.
use lightux.Disk.{Disk}
use lightux.Text.{strlen}
use lightux.Fat32.{
  FatData, sectors_per_cluster, end_of_chain, fat32_cluster_to_lba, fat32_next_cluster,
}
use lightux.Fat32.Names.{DirectoryEntry, fat32_short_name_to_name, fat32_is_short_name}
use lightux.Prelude.{
  ℕ, zero, suc, ◌+◌, Bool, true, false, not, ◌&&◌, ltb, ◌==◌, if◌then◌else◌, List, [], ◌∷◌, ◌++◌,
  none, some, u32, Outcome, returns, panics, spins,
}
use lightux.Fat32.Directory.{
  Scan, Verdict, goes_on, ends, hangs, entry_at, is_skipped, is_lfn, is_file, ordinal, take_lfn,
  forget, fresh_scan, Leftovers,
}

-- FAT32_ListDirectoryEntry on an entry: the name that it prints, if any.
unfoldable pub list_entry :
    (rounds : ℕ) → DirectoryEntry → Scan × List (List ℕ) → Verdict Bool × List (List ℕ)
list_entry rounds entry (s, out) =
    let s1 = if is_lfn entry then take_lfn entry s else s in
    if is_skipped entry
    then (goes_on s, out)
    else if is_lfn entry && ltb 21 (ordinal entry)
    then (ends false, out)
    else if not (is_file entry)
    then (goes_on s1, out)
    else if s1.lfn_last == 0
    then (
      goes_on (forget 0 s1),
      (if fat32_is_short_name entry 11 then out ++ (fat32_short_name_to_name entry ∷ []) else out),
    )
    else elim (strlen rounds 13 s1.lfn_name) [
      | returns len _ ↦ (goes_on (forget 0 s1), out ++ (text len 13 s1.lfn_name ∷ []))
      | panics _ ↦ (hangs, out)
      | spins ↦ (hangs, out)
    ]
  where
    text : (n i : ℕ) → (ℕ → ℕ) → List ℕ
    text zero i cells = []
    text (suc n) i cells = cells i ∷ text n (i + 1) cells

-- FAT32_ListDirectoryEntry stops where a read fails.
unfoldable pub list_entries :
    (rounds fuel j : ℕ) → Scan × List (List ℕ) → Verdict Bool × List (List ℕ)
unfolding list_entry
list_entries rounds zero j (s, out) = (goes_on s, out)
list_entries rounds (suc fuel) j (s, out) =
    let (verdict, out') = list_entry rounds (entry_at s.buffer j) (s, out) in
    elim verdict [
      | goes_on s' ↦ list_entries rounds fuel (j + 1) (s', out')
      | ends a ↦ (ends a, out')
      | hangs ↦ (hangs, out')
    ]

unfoldable pub list_sectors :
    Disk → (rounds fuel i lba : ℕ) → Scan × List (List ℕ) → Verdict Bool × List (List ℕ)
unfolding list_entries
list_sectors disk rounds zero i lba (s, out) = (goes_on s, out)
list_sectors disk rounds (suc fuel) i lba (s, out) = elim (disk (u32 (lba + i))) [
  | none ↦ (ends false, out)
  | some bytes ↦
      let (verdict, out') = list_entries rounds 16 0 (record s { buffer = bytes }, out) in
      elim verdict [
        | goes_on s' ↦ list_sectors disk rounds fuel (i + 1) lba (s', out')
        | ends a ↦ (ends a, out')
        | hangs ↦ (hangs, out')
      ]
]

-- The result, with the names printed as the state.
unfoldable pub list_clusters :
    Disk
    → FatData
    → (rounds fuel current_cluster : ℕ) → Scan × List (List ℕ)
    → Outcome (List (List ℕ)) Bool
unfolding list_sectors
list_clusters disk fat rounds zero current_cluster (s, out) = spins
list_clusters disk fat rounds (suc fuel) current_cluster (s, out) =
    elim (ltb current_cluster end_of_chain) [
      | false ↦ returns true out
      | true ↦
          let (verdict, out') =
            list_sectors disk rounds (sectors_per_cluster fat) 0
              (fat32_cluster_to_lba fat current_cluster) (s, out) in
          elim verdict [
            | goes_on s' ↦
                list_clusters disk fat rounds fuel (fat32_next_cluster disk fat current_cluster)
                  (s', out')
            | ends a ↦ returns a out'
            | hangs ↦ spins
          ]
    ]

unfoldable pub fat32_list_directory_entry :
    Disk → FatData → Leftovers → (rounds start_cluster : ℕ) → Outcome (List (List ℕ)) Bool
unfolding list_clusters
fat32_list_directory_entry disk fat left rounds start_cluster =
    list_clusters disk fat rounds rounds start_cluster (fresh_scan left.stack left.buffer, [])
