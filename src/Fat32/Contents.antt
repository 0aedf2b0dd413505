-- ===== src/Fat32/Contents.antt =====
-- The loop of FAT32_Read over the clusters of a file.
use native.Mathlib.Nat.{add-mul, one-mul}
use lightux.Disk.{Disk}
use lightux.Fat32.{
  FatData, FileHandle, sectors_per_cluster, end_of_chain, fat32_cluster_to_lba, fat32_next_cluster,
}
use lightux.Fat32.Reading.{Progress, read_sectors, read_clusters}
use lightux.Fat32.Layout.{chain, IsFile}
use lightux.Fat32.Copying.{Moved, At, Before, Moved-then, read_sectors-Moved}
use lightux.Prelude.{
  ℕ, zero, suc, ◌+◌, ◌*◌, ◌≤◌, ◌<◌, ◌≡◌, inl, inr, refl, ap, ◌∙◌, true, arith, returns, Returns,
}

-- The cluster of the handle is the first that begins at or behind the next byte.
pub record Ahead (disk : Disk) (fat : FatData) (first : ℕ) (handle : FileHandle) : Type 0 where
  pub after : ℕ
  pub cluster : handle.current_cluster ≡ chain disk fat first after
  pub above : handle.current_offset ≤ after * sectors_per_cluster fat * 512
  pub below :
      after * sectors_per_cluster fat * 512 < handle.current_offset + sectors_per_cluster fat * 512

module _ (disk : Disk) (fat : FatData) (first size : ℕ) (sectors : ℕ → ℕ → ℕ)
    (file : IsFile disk fat first size sectors) where
  abbrev spc : ℕ
  spc = sectors_per_cluster fat

  next-spc : (k : ℕ) → suc k * spc ≡ k * spc + spc
  next-spc k =
      let e : suc k ≡ k + 1 = omega arith in
      ap (λ t. t * spc) e ∙ add-mul k 1 spc ∙ ap (λ t. k * spc + t) (one-mul spc)

  -- One round of the loop over clusters.
  read_clusters-done :
      (rounds cluster : ℕ) (s : Progress)
      → s.remaining ≡ 0
      → read_clusters disk fat (suc rounds) cluster s ≡ returns tt s
  unfolding read_clusters
  read_clusters-done rounds cluster s e = ground (arith, e)

  abbrev advance : ℕ → Progress → Progress
  advance next s = record s { handle = record s.handle { current_cluster = next } }

  read_clusters-step :
      (rounds cluster : ℕ) (s s' : Progress)
      → cluster < end_of_chain
      → 0 < s.remaining
      → read_sectors disk spc 0 (fat32_cluster_to_lba fat cluster) s ≡ (true, s')
      → read_clusters disk fat (suc rounds) cluster s
        ≡ read_clusters disk fat rounds
            (fat32_next_cluster disk fat cluster)
            (advance (fat32_next_cluster disk fat cluster) s')
  unfolding read_clusters
  read_clusters-step rounds cluster s s' live some_left e = ground (arith, e)

  advance-Moved :
      (next : ℕ) (s s' : Progress) → Moved sectors s s' → Moved sectors s (advance next s')
  advance-Moved next s s' m = record {
    n = m.n;
    within = m.within;
    offset = m.offset;
    remaining = m.remaining;
    buffer = m.buffer;
    copied = m.copied;
    first = m.first;
    size = m.size;
  }

  pub read_clusters-Moved :
      (m k : ℕ) (s : Progress)
      → At sectors (k * spc) s
      → 0 < s.remaining
      → s.handle.current_offset + s.remaining ≤ size
      → s.handle.current_offset + s.remaining ≤ k * spc * 512 + m * spc * 512
      → Returns
          (read_clusters disk fat (suc m) (chain disk fat first k) s)
          (λ _ s'. Moved sectors s s' × (s'.remaining ≡ 0) × Ahead disk fat first s'.handle)
  unfolding chain
  read_clusters-Moved zero k s at some_left bound fuel = absurd (omega (arith, at, some_left, fuel))
  read_clusters-Moved (suc m) k s at some_left bound fuel =
      rw
        (read_clusters-step (suc m) (chain disk fat first k) s s1
          (file.live k (omega (arith, at, some_left, bound))) some_left (ap (λ b. (b, s1)) round.0))
        (elim round.2 [
          | inl (at', left') ↦
              let (u, s', e, (moved, none_left, ahead)) =
                read_clusters-Moved m (suc k) s2 (omega (arith, at', next-spc k)) left'
                  (omega (arith, whole.offset, whole.remaining, whole.within, bound))
                  (omega (
                    arith,
                    whole.offset,
                    whole.remaining,
                    whole.within,
                    fuel,
                    next-spc k,
                    next-spc m,
                  )) in
              (u, s', e, (Moved-then sectors s s2 s' whole moved, none_left, ahead))
          | inr (none_left, below) ↦ (
            tt,
            s2,
            read_clusters-done m next s2 none_left,
            (
              whole,
              none_left,
              record {
                after = suc k;
                cluster = refl;
                above = omega (arith, below, next-spc k);
                below = omega (
                  arith,
                  next-spc k,
                  whole.offset,
                  whole.remaining,
                  whole.within,
                  none_left,
                  at,
                  some_left,
                );
              },
            ),
          )
        ])
    where
      next : ℕ
      next = fat32_next_cluster disk fat (chain disk fat first k)

      s1 : Progress
      s1 = (read_sectors disk spc 0 (fat32_cluster_to_lba fat (chain disk fat first k)) s).1

      s2 : Progress
      s2 = advance next s1

      round :
          ((read_sectors disk spc 0 (fat32_cluster_to_lba fat (chain disk fat first k)) s).0 ≡ true)
          × Moved sectors s s1
          × Before sectors (k * spc + spc) s1
      round =
          read_sectors-Moved disk fat first size sectors file k spc 0 s (omega arith)
            (inl (omega (arith, at), some_left)) bound

      whole : Moved sectors s s2
      whole = advance-Moved next s s1 round.1
