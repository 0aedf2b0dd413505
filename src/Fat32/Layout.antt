-- ===== src/Fat32/Layout.antt =====
-- Where the bytes of a file lie on the disk.
use native.Mathlib.Nat.{mul-add-div_right, mul-add-mod_self_right, div-eq_of_lt, mod-eq_of_lt}
use lightux.Disk.{Disk}
use lightux.Fat32.{
  FatData, sectors_per_cluster, end_of_chain, fat32_cluster_to_lba, fat32_next_cluster,
}
use lightux.Prelude.{
  ℕ, zero, suc, ◌+◌, ◌*◌, ◌/◌, ◌%◌, ◌^◌, ◌<◌, ◌≡◌, ap₂, sym, ◌∙◌, some, u32, arith,
}

-- The contents of a file, from those of its sectors in order.
abbrev pub file_byte : (sectors : ℕ → ℕ → ℕ) → ℕ → ℕ
file_byte sectors p = sectors (p / 512) (p % 512)

module _ (disk : Disk) (fat : FatData) where
  -- The clusters of a file, from its first on.
  unfoldable pub chain : (first k : ℕ) → ℕ
  chain first zero = first
  chain first (suc k) = fat32_next_cluster disk fat (chain first k)

  -- A file of `size` bytes, whose contents are `sectors`: its chain is long enough, and its sectors can
  -- be read.
  pub record IsFile (first size : ℕ) (sectors : ℕ → ℕ → ℕ) : Type 0 where
    pub clusters : 0 < sectors_per_cluster fat
    pub small : size < 2 ^ 32
    pub live : (k : ℕ) → k * sectors_per_cluster fat * 512 < size → chain first k < end_of_chain
    pub sector :
        (q : ℕ)
        → q * 512 < size
        → disk (
            u32 (
              fat32_cluster_to_lba fat (chain first (q / sectors_per_cluster fat))
              + q % sectors_per_cluster fat))
          ≡ some (sectors q)

  -- Sector `i` of cluster `k` is the file's sector `k * n + i`.
  pub IsFile-sector :
      {first size : ℕ} {sectors : ℕ → ℕ → ℕ}
      → IsFile first size sectors
      → (k i : ℕ) → i < sectors_per_cluster fat
      → (k * sectors_per_cluster fat + i) * 512 < size
      → disk (u32 (fat32_cluster_to_lba fat (chain first k) + i))
        ≡ some (sectors (k * sectors_per_cluster fat + i))
  IsFile-sector {first} {size} {sectors} file k i hi h =
      let n = sectors_per_cluster fat in
      let quotient : (k * n + i) / n ≡ k =
        mul-add-div_right file.clusters k i ∙ omega (arith, div-eq_of_lt hi) in
      let remainder : (k * n + i) % n ≡ i = mul-add-mod_self_right k n i ∙ mod-eq_of_lt hi in
      ap₂ (λ a b. disk (u32 (fat32_cluster_to_lba fat (chain first a) + b))) (sym quotient)
        (sym remainder)
      ∙ file.sector (k * n + i) h
