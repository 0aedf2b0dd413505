-- ===== src/Fat32/Directory.antt =====
-- FAT32_FindEntry of fat32.c: the scan of a directory for a name.
-- A loop over a chain of clusters recurs on `rounds`, as does the search for a terminator.
use lightux.Disk.{Disk}
use lightux.Text.{strlen, toupper}
use lightux.Fat32.{
  FatData, sectors_per_cluster, end_of_chain, fat32_cluster_to_lba, fat32_next_cluster,
}
use lightux.Fat32.Names.{
  DirectoryEntry, attributes, order, lfn_type, fat32_lfn_copy, fat32_short_name_to_name,
  fat32_is_short_name,
}
use lightux.Prelude.{
  ℕ, zero, suc, ◌+◌, ◌*◌, Bool, true, false, not, ◌&&◌, ◌||◌, ltb, leb, ◌==◌, if◌then◌else◌, List,
  [], ◌∷◌, Option, none, some, u32, bit_and, Outcome, returns, panics, spins,
}

-- The local variables of a scan: the sector read last, the long name so far and `lfnLast` plus 1.
pub record Scan : Type 0 where
  pub buffer : ℕ → ℕ
  pub lfn_name : ℕ → ℕ
  pub lfn_last : ℕ

-- What a scan comes to: it goes on, it is over with a result, or it never ends.
pub data Verdict (A : Type 0) : Type 0 where
  goes_on : Scan → Verdict A
  ends : A → Verdict A
  hangs : Verdict A

abbrev pub entry_at : (buffer : ℕ → ℕ) → (j : ℕ) → DirectoryEntry
entry_at buffer j i = buffer (32 * j + i)

-- Entries that end the directory, are deleted, or name the volume.
abbrev pub is_skipped : DirectoryEntry → Bool
is_skipped entry = entry 0 == 0 || entry 0 == 0xe5 || attributes entry == 0x08

abbrev pub is_lfn : DirectoryEntry → Bool
is_lfn entry = attributes entry == 0x0f && lfn_type entry == 0

abbrev pub is_file : DirectoryEntry → Bool
is_file entry = attributes entry == 0x10 || attributes entry == 0x20

-- The index of an LFN entry plus 1, `Order & ~FAT32_ORDER_FINAL`.
abbrev pub ordinal : DirectoryEntry → ℕ
ordinal entry = bit_and (order entry) 0xbf

unfoldable pub take_lfn : DirectoryEntry → Scan → Scan
unfolding fat32_lfn_copy
take_lfn entry s = record s {
  lfn_last = if bit_and (order entry) 0x40 == 0 then s.lfn_last else ordinal entry;
  lfn_name = fat32_lfn_copy s.lfn_name entry (ordinal entry);
}

-- `memset(lfnName, 0, FAT32_LFN_MAXCHARS)`, with `lfnLast` as the entry leaves it.
abbrev pub forget : (lfn_last : ℕ) → Scan → Scan
forget lfn_last s = record s {
  lfn_name = λ a. if leb 13 a && ltb a (13 + 256) then 0 else s.lfn_name a;
  lfn_last = lfn_last;
}

-- `memcmp(a, b, n) == 0`
unfoldable pub same_bytes : (n i : ℕ) → (a b : ℕ → ℕ) → Bool
same_bytes zero i a b = true
same_bytes (suc n) i a b = a i == b i && same_bytes n (i + 1) a b

-- The text and its terminator, stored over what an array held.
abbrev pub stored : List ℕ → (ℕ → ℕ) → (ℕ → ℕ)
stored [] held zero = 0
stored [] held (suc i) = held (suc i)
stored (c ∷ cs) held zero = c
stored (c ∷ cs) held (suc i) = stored cs (λ k. held (suc k)) i

-- The comparison with a short name: `sizeof(name)` is the 8 bytes of a pointer, so `cmpName` has 8
-- bytes, and what is compared behind them is the heap's. `held` is what the array of the name held.
unfoldable pub matches_short : (heap held : ℕ → ℕ) → (name : ℕ → ℕ) → DirectoryEntry → Bool
unfolding same_bytes fat32_short_name_to_name
matches_short heap held name entry =
    same_bytes 11 0 (λ i. if ltb i 8 then toupper (name i) else heap i)
      (stored (fat32_short_name_to_name entry) held)

unfoldable pub find_in_entry :
    (rounds : ℕ)
    → (heap held name : ℕ → ℕ) → DirectoryEntry
    → Scan
    → Verdict (Option DirectoryEntry)
unfolding same_bytes
find_in_entry rounds heap held name entry s =
    let s1 = if is_lfn entry then take_lfn entry s else s in
    if is_skipped entry
    then goes_on s
    else if is_lfn entry && ltb 21 (ordinal entry)
    then ends none
    else if not (is_file entry)
    then goes_on s1
    else if s1.lfn_last == 0
    then (if fat32_is_short_name entry 11 && matches_short heap held name entry
        then ends (some entry)
        else goes_on (forget 0 s1))
    else elim (strlen rounds 13 s1.lfn_name) [
      | returns len _ ↦
          if same_bytes len 0 (λ i. s1.lfn_name (13 + i)) name
          then ends (some entry)
          else goes_on (forget 0 s1)
      | panics _ ↦ hangs
      | spins ↦ hangs
    ]

-- The entries of a sector, from `j` on.
unfoldable pub scan_entries :
    {A : Type 0} (visit : DirectoryEntry → Scan → Verdict A) (rounds j : ℕ) → Scan → Verdict A
scan_entries visit zero j s = goes_on s
scan_entries visit (suc rounds) j s = elim (visit (entry_at s.buffer j) s) [
  | goes_on s' ↦ scan_entries visit rounds (j + 1) s'
  | ends a ↦ ends a
  | hangs ↦ hangs
]

-- The sectors of a cluster, from `i` on. Where a read fails, the buffer stays as it was and is scanned
-- again.
unfoldable pub find_in_sectors :
    (visit : DirectoryEntry → Scan → Verdict (Option DirectoryEntry))
    → Disk
    → (rounds i lba : ℕ) → Scan
    → Verdict (Option DirectoryEntry)
unfolding scan_entries
find_in_sectors visit disk zero i lba s = goes_on s
find_in_sectors visit disk (suc rounds) i lba s =
    let read : Scan = elim (disk (u32 (lba + i))) [
      | none ↦ s
      | some bytes ↦ record s { buffer = bytes }
    ] in
    elim (scan_entries visit 16 0 read) [
      | goes_on s' ↦ find_in_sectors visit disk rounds (i + 1) lba s'
      | ends a ↦ ends a
      | hangs ↦ hangs
    ]

-- What the locals hold at the end is of no use to the caller.
unfoldable pub find_in_clusters :
    (visit : DirectoryEntry → Scan → Verdict (Option DirectoryEntry))
    → Disk
    → FatData
    → (rounds current_cluster : ℕ) → Scan
    → Outcome Scan (Option DirectoryEntry)
unfolding find_in_sectors
find_in_clusters visit disk fat zero current_cluster s = spins
find_in_clusters visit disk fat (suc rounds) current_cluster s =
    elim (ltb current_cluster end_of_chain) [
      | false ↦ returns none s
      | true ↦
          elim (find_in_sectors visit disk (sectors_per_cluster fat) 0
            (fat32_cluster_to_lba fat current_cluster) s) [
              | goes_on s' ↦
                  find_in_clusters visit disk fat rounds
                    (fat32_next_cluster disk fat current_cluster) s'
              | ends a ↦ returns a s
              | hangs ↦ spins
            ]
    ]

-- The locals of a call: an array of zeros for the long name, in the stack that is there.
abbrev pub fresh_scan : (stack buffer : ℕ → ℕ) → Scan
fresh_scan stack buffer = record {
  buffer = buffer;
  lfn_name = λ a. if leb 13 a && ltb a (13 + 256) then 0 else stack a;
  lfn_last = 0;
}

-- What the stack and the heap hold where the code reads without having written.
pub record Leftovers : Type 0 where
  pub stack : ℕ → ℕ
  pub buffer : ℕ → ℕ
  pub heap : ℕ → ℕ
  pub held : ℕ → ℕ

unfoldable pub fat32_find_entry :
    Disk
    → FatData
    → Leftovers
    → (rounds start_cluster : ℕ) → (name : ℕ → ℕ) → Outcome Scan (Option DirectoryEntry)
unfolding find_in_clusters find_in_entry
fat32_find_entry disk fat left rounds start_cluster name =
    find_in_clusters (find_in_entry rounds left.heap left.held name) disk fat rounds start_cluster
      (fresh_scan left.stack left.buffer)
