-- ===== src/Pmm/Release.antt =====
-- pmm_FreePages gives back a run of used pages: it undoes pmm_AllocatePages.
use lightux.Bitmap.{Bitmap, bitmap_get}
use lightux.Bitmap.Laws.{IsBytes}
use lightux.Pmm.{Pmm, page_size, index_of, free_page, for_pages, free_pages, allocate_pages}
use lightux.Pmm.Invariant.{IsValid, release_index-Flipped}
use lightux.Pmm.Pages.{free_pages-Kept}
use lightux.Pmm.FirstFit.{Allocated, returns-Allocated}
use lightux.Memory.Copy.{inside}
use lightux.Prelude.{
  ℕ, zero, suc, ◌+◌, ◌*◌, ◌%◌, ◌^◌, ◌≤◌, ◌<◌, ◌≡◌, refl, subst, ◌&&◌, true, false, not, arith,
  add64, ◌∙◌, returns,
}

-- The `n` pages from `start` on are taken.
abbrev pub UsedRun : Bitmap → (start n : ℕ) → Type 0
UsedRun bitmap start n = (k : ℕ) → start ≤ k → k < start + n → bitmap_get bitmap k ≡ true

-- `s'` is `s` with the `n` pages from `start` on free, and no longer accounted as used.
pub record Gave (start n : ℕ) (s s' : Pmm) : Type 0 where
  pub bits : (k : ℕ) → bitmap_get s'.bitmap k ≡ (not (inside start n k) && bitmap_get s.bitmap k)
  pub used : (s'.used_memory + n * page_size) % 2 ^ 64 ≡ s.used_memory % 2 ^ 64
  pub free : s'.free_memory % 2 ^ 64 ≡ (s.free_memory + n * page_size) % 2 ^ 64
  pub reserved : s'.reserved_memory ≡ s.reserved_memory
  pub bytes : IsBytes s'.bitmap

free_page-Gave :
    (addr : ℕ) (s : Pmm)
    → IsBytes s.bitmap
    → bitmap_get s.bitmap (index_of addr) ≡ true
    → Gave (index_of addr) 1 s (free_page addr s)
unfolding free_page
free_page-Gave addr s bytes taken =
    let f = release_index-Flipped s.bitmap (index_of addr) bytes in
    rw taken (record {
      bits = λ k. ground (arith, f.bits k);
      used = omega arith;
      free = omega arith;
      reserved = refl;
      bytes = f.bytes;
    })

Gave-append :
    {start n m : ℕ} {s s' s'' : Pmm}
    → Gave start n s s'
    → Gave (start + n) m s' s''
    → Gave start (n + m) s s''
Gave-append t u = record {
  bits = λ k. ground (arith, t.bits k, u.bits k);
  used = omega (arith, t.used, u.used);
  free = omega (arith, t.free, u.free);
  reserved = u.reserved ∙ t.reserved;
  bytes = u.bytes;
}

for_pages-Gave :
    (rounds region i n : ℕ) (s₀ s : Pmm)
    → i + rounds ≡ n
    → (region + n) * page_size ≤ 2 ^ 64
    → UsedRun s₀.bitmap region n
    → Gave region i s₀ s
    → Gave region n s₀ (for_pages free_page rounds (region * page_size) i s)
unfolding for_pages
for_pages-Gave zero region i n s₀ s e fits run t =
    let same : i ≡ n = omega arith in subst (λ k. Gave region k s₀ s) same t
for_pages-Gave (suc rounds) region i n s₀ s e fits run t =
    let addr = add64 (region * page_size) (i * page_size) in
    let index : index_of addr ≡ region + i = omega arith in
    let taken : bitmap_get s.bitmap (region + i) ≡ true =
      ground (arith, t.bits (region + i), run (region + i)) in
    let step : Gave (region + i) 1 s (free_page addr s) =
      subst (λ k. Gave k 1 s (free_page addr s)) index
        (free_page-Gave addr s t.bytes (rw index taken)) in
    for_pages-Gave rounds region (i + 1) n s₀ _ (omega arith) fits run (Gave-append t step)

Gave-none : (start : ℕ) (s : Pmm) → IsBytes s.bitmap → Gave start 0 s s
Gave-none start s bytes = record {
  bits = λ k. ground arith;
  used = omega arith;
  free = omega arith;
  reserved = refl;
  bytes = bytes;
}

-- What freeing an allocated run restores.
pub record Restored (total : ℕ) (s s' : Pmm) : Type 0 where
  pub bits : (k : ℕ) → bitmap_get s'.bitmap k ≡ bitmap_get s.bitmap k
  pub used : s'.used_memory % 2 ^ 64 ≡ s.used_memory % 2 ^ 64
  pub free : s'.free_memory % 2 ^ 64 ≡ s.free_memory % 2 ^ 64
  pub reserved : s'.reserved_memory ≡ s.reserved_memory
  pub valid : IsValid total s'

Allocated-Restored :
    {total n addr : ℕ} {s s' : Pmm}
    → Allocated total n s addr s'
    → Restored total s (free_pages addr n s')
unfolding free_pages
Allocated-Restored {total} {n} {addr} {s} {s'} a = record {
  bits = λ k. ground (arith, given.bits k, a.bits k, a.first.2 k);
  used = omega (arith, given.used, a.used);
  free = omega (arith, given.free, a.free);
  reserved = given.reserved ∙ a.reserved;
  valid = (free_pages-Kept addr n a.valid (omega (arith, a.first.1, a.address, a.size))).valid;
}
  where
    used_run : UsedRun s'.bitmap a.region n
    used_run k lo hi = ground (arith, a.bits k)

    given : Gave a.region n s' (free_pages addr n s')
    given = rw a.address (
        for_pages-Gave n a.region 0 n s' s' (omega arith)
          (omega (arith, a.first.1, a.valid.accounts.small, a.size)) used_run
          (Gave-none a.region s' a.valid.accounts.bytes))

-- In a valid state with the lock free, pages that pmm_AllocatePages has handed out and pmm_FreePages
-- takes back leave every bit and the three counters as they were before the call, and the state valid.
pub free_pages-allocate_pages :
    {total addr : ℕ} (n : ℕ) {s s' : Pmm}
    → IsValid total s
    → s.lock.locked ≡ false
    → 0 < n
    → allocate_pages n s ≡ returns addr s'
    → Restored total s (free_pages addr n s')
free_pages-allocate_pages n v unlocked pos call =
    Allocated-Restored (returns-Allocated n v unlocked pos call)
