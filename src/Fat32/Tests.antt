-- ===== src/Fat32/Tests.antt =====
-- fat32.c: a volume of one sector in a cluster. Its root directory is cluster 4 and has one file of 600
-- bytes, which lies in clusters 2 and 3.
use lightux.Disk.{Disk}
use lightux.Memory.{Mem}
use lightux.Text.{isupper, toupper}
use lightux.Fat32.{
  FatData, FileHandle, sectors_per_cluster, end_of_chain, fat32_cluster_to_lba, fat32_next_cluster,
  root_directory_cluster,
}
use lightux.Fat32.Names.{lfn_char, fat32_lfn_copy, fat32_short_name_to_name, fat32_is_short_name}
use lightux.Fat32.Reading.{fat32_read, fat32_seek}
use lightux.Fat32.Directory.{Scan, Leftovers, fresh_scan, entry_at, fat32_find_entry, matches_short}
use lightux.Fat32.Paths.{root_entry, component, fat32_open}
use lightux.Fat32.Layout.{chain, IsFile}
use lightux.Fat32.Read.{IsPlaced, HasRead, wanted, fat32_read-HasRead}
use lightux.Fat32.Seeking.{fat32_seek-IsPlaced, fat32_read-too_far}
use lightux.Fat32.Naming.{HasNoSpace, packed, fat32_short_name_to_name-packed, fat32_lfn_copy_lem}
use lightux.Fat32.Opening.{opened, fat32_open-root, Served, fat32_open-read}
use lightux.Fat32.Walking.{IsName, Resolves, last}
use lightux.Prelude.{
  ℕ, zero, suc, ◌+◌, ◌-◌, ◌*◌, ◌/◌, ◌%◌, ◌^◌, ◌<◌, ◌≡◌, ◌≢◌, refl, true, false, ◌&&◌, ltb, leb,
  ◌==◌, if◌then◌else◌, List, [], ◌∷◌, ◌++◌, none, some, u8, u32, arith, returns, Returns,
}

abbrev boot_bytes : ℕ → ℕ
boot_bytes i = if i == 13 then 1 else if i == 44 then 4 else 0

abbrev volume : FatData
volume = record { boot_sector = boot_bytes; fat_start_lba = 1; cluster_start_lba = 10 }

-- Cluster 3 follows cluster 2, and clusters 3 and 4 are the last of their chains.
abbrev table : ℕ → ℕ
table i = if i == 8 then 3 else if ltb i 12 then 0 else if i % 4 == 3 then 0x0f else 0xff

abbrev contents : ℕ → ℕ → ℕ
contents q i = 65 + q

-- The directory's sector: the entry of A.TXT, and free entries behind it.
abbrev listing : ℕ → ℕ
listing i =
    if i == 0
    then 65
    else if i == 8
    then 84
    else if i == 9
    then 88
    else if i == 10
    then 84
    else if ltb i 11
    then 0x20
    else if i == 11
    then 0x20
    else if i == 26
    then 2
    else if i == 28
    then 0x58
    else if i == 29
    then 2
    else 0

abbrev sectors_at : Disk
sectors_at lba =
    if lba == 1
    then some table
    else if lba == 10
    then some (contents 0)
    else if lba == 11
    then some (contents 1)
    else if lba == 12
    then some listing
    else none

contents-IsFile : IsFile sectors_at volume 2 600 contents
unfolding chain fat32_cluster_to_lba fat32_next_cluster
contents-IsFile = record {
  clusters = omega arith;
  small = omega arith;
  live = live;
  sector = sector;
}
  where
    live : (k : ℕ) → k * 1 * 512 < 600 → chain sectors_at volume 2 k < end_of_chain
    live zero h = omega arith
    live (suc zero) h = omega arith
    live (suc (suc k)) h = absurd (omega (arith, h))

    sector :
        (q : ℕ)
        → q * 512 < 600
        → sectors_at (u32 (fat32_cluster_to_lba volume (chain sectors_at volume 2 (q / 1)) + q % 1))
          ≡ some (contents q)
    sector zero h = refl
    sector (suc zero) h = refl
    sector (suc (suc q)) h = absurd (omega (arith, h))

abbrev handle_at : ℕ → FileHandle
handle_at offset = record {
  first_cluster = 2;
  size = 600;
  current_cluster = if ltb offset 512 then 2 else 3;
  current_offset = offset;
  is_directory = false;
}

handle_at-IsPlaced : IsPlaced sectors_at volume contents (handle_at 500)
unfolding chain
handle_at-IsPlaced = record {
  file = contents-IsFile;
  plain = refl;
  inside = omega arith;
  cluster = refl;
}

abbrev blank : Mem
blank a = 0

fat32_read-HasRead_example :
    Returns (fat32_read sectors_at volume 601 (handle_at 500) 4096 64 blank) (λ r s.
      HasRead sectors_at volume contents
        (handle_at 500)
        4096
        (wanted sectors_at volume contents 601 (handle_at 500) 4096 64 blank handle_at-IsPlaced)
        blank
        r
        s)
fat32_read-HasRead_example =
    fat32_read-HasRead sectors_at volume contents 601 (handle_at 500) 4096 64 blank
      handle_at-IsPlaced (omega arith)

fat32_seek-IsPlaced_example :
    ((fat32_seek sectors_at volume (handle_at 500) 20).0 ≡ 20)
    × ((fat32_seek sectors_at volume (handle_at 500) 20).1.current_offset ≡ 20)
    × IsPlaced sectors_at volume contents (fat32_seek sectors_at volume (handle_at 500) 20).1
fat32_seek-IsPlaced_example =
    fat32_seek-IsPlaced sectors_at volume contents (handle_at 500) contents-IsFile refl 20
      (omega arith) (λ e. omega (arith, e))

fat32_read-too_far_example :
    Returns (fat32_read sectors_at volume 601 (handle_at 500) 4096 64 blank) (λ r s.
      s.handle.current_cluster
      ≡ chain sectors_at volume 2
          (s.handle.current_offset / (sectors_per_cluster volume * 512) + 1))
fat32_read-too_far_example =
    fat32_read-too_far sectors_at volume contents 601 (handle_at 500) 4096 64 blank
      handle_at-IsPlaced (omega arith) (omega arith) (λ e. omega (arith, e))

abbrev readme : List ℕ
readme = 82 ∷ 69 ∷ 65 ∷ 68 ∷ 77 ∷ 69 ∷ []

abbrev txt : List ℕ
txt = 84 ∷ 88 ∷ 84 ∷ []

readme-HasNoSpace : HasNoSpace readme
readme-HasNoSpace = (
  (λ e. omega (arith, e)),
  (
    (λ e. omega (arith, e)),
    (
      (λ e. omega (arith, e)),
      ((λ e. omega (arith, e)), ((λ e. omega (arith, e)), ((λ e. omega (arith, e)), tt))),
    ),
  ),
)

fat32_short_name_to_name-packed_example :
    fat32_short_name_to_name (packed readme txt) ≡ readme ++ (if 3 == 0 then [] else 0x2e ∷ txt)
fat32_short_name_to_name-packed_example =
    fat32_short_name_to_name-packed readme txt (omega arith) (omega arith) readme-HasNoSpace
      ((λ e. omega (arith, e)), ((λ e. omega (arith, e)), ((λ e. omega (arith, e)), tt)))

fat32_lfn_copy_lem_example : fat32_lfn_copy blank listing 20 265 ≡ (
    if leb (20 * 13) 265 && ltb 265 (20 * 13 + 13)
    then u8 (lfn_char listing (265 - 20 * 13))
    else blank 265)
fat32_lfn_copy_lem_example = fat32_lfn_copy_lem blank listing 20 265

abbrev left : Leftovers
left = record { stack = blank; buffer = blank; heap = blank; held = blank }

-- "/A.TXT" at 100, and "/" at 200.
abbrev paths : Mem
paths a =
    if a == 100
    then 0x2f
    else if a == 101
    then 65
    else if a == 102
    then 0x2e
    else if a == 103
    then 84
    else if a == 104
    then 88
    else if a == 105
    then 84
    else if a == 200
    then 0x2f
    else 0

paths-IsName : IsName paths 101 5
paths-IsName = record { some_char = omega arith; room = omega arith; char = char; plain = plain }
  where
    char : (i : ℕ) → i < 5 → paths (101 + i) ≢ 0
    char zero h e = omega (arith, e)
    char (suc zero) h e = omega (arith, e)
    char (suc (suc zero)) h e = omega (arith, e)
    char (suc (suc (suc zero))) h e = omega (arith, e)
    char (suc (suc (suc (suc zero)))) h e = omega (arith, e)
    char (suc (suc (suc (suc (suc i))))) h e = omega (arith, h)

    plain : (i : ℕ) → i < 5 → paths (101 + i) ≢ 0x2f
    plain zero h e = omega (arith, e)
    plain (suc zero) h e = omega (arith, e)
    plain (suc (suc zero)) h e = omega (arith, e)
    plain (suc (suc (suc zero))) h e = omega (arith, e)
    plain (suc (suc (suc (suc zero)))) h e = omega (arith, e)
    plain (suc (suc (suc (suc (suc i))))) h e = omega (arith, h)

abbrev after_scan : Scan
after_scan = fresh_scan blank blank

found :
    fat32_find_entry sectors_at volume left 601 4 (component 101 5 paths blank)
    ≡ returns (some (entry_at listing 0)) after_scan
unfolding fat32_find_entry fat32_cluster_to_lba fat32_is_short_name isupper matches_short toupper
found = refl

listing-bytes : (i : ℕ) → entry_at listing 0 i < 256
listing-bytes i = ground arith

resolved : Resolves sectors_at volume left 601 paths 101 4 blank (entry_at listing 0) 1
resolved = last 5 after_scan paths-IsName (omega arith) refl found listing-bytes

fat32_open-read_example :
    Served sectors_at volume left 601 paths 100 blank contents 600 4096 64 blank
fat32_open-read_example =
    fat32_open-read sectors_at volume left 601 paths 100 blank (entry_at listing 0) 1 contents 4096
      64 blank (λ e. omega (arith, e)) resolved (omega arith) refl contents-IsFile (omega arith)

fat32_open-root_example :
    (fat32_open sectors_at volume left 32 paths 200 blank
      ≡ returns (some (opened sectors_at volume left 32 paths 200 blank (root_entry volume))) tt)
    × ((opened sectors_at volume left 32 paths 200 blank (root_entry volume)).is_directory ≡ true)
    × ((opened sectors_at volume left 32 paths 200 blank (root_entry volume)).first_cluster
        ≡ root_directory_cluster volume % 2 ^ 16 * 2 ^ 16 + root_directory_cluster volume / 2 ^ 16)
fat32_open-root_example =
    fat32_open-root sectors_at volume left 32 paths 200 blank refl refl (λ i. ground arith)
