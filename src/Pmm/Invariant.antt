-- ===== src/Pmm/Invariant.antt =====
-- The invariant of the page allocator's state, and that each operation on pages keeps it.
use lightux.Bitmap.{Bitmap, bitmap_get, bitmap_set}
use lightux.Bitmap.Laws.{
  IsBytes, bitmap_get-set, bitmap_size-set, last_deep_fragmented-set, bitmap_get-hint,
  bitmap_set-IsBytes,
}
use lightux.Pmm.{Pmm, page_size, release_index}
use lightux.Prelude.{
  ℕ, zero, suc, ◌+◌, ◌*◌, ◌%◌, ◌^◌, ◌≤◌, ◌<◌, ◌≡◌, refl, Bool, true, false, arith, ltb, ◌==◌,
  if◌then◌else◌, Bool-cases, inl, inr, ap, ◌∙◌, inl, inr,
}

-- How many of the first `n` pages are taken.
unfoldable pub occupied : Bitmap → ℕ → ℕ
occupied bitmap zero = 0
occupied bitmap (suc n) = occupied bitmap n + (if bitmap_get bitmap n then 1 else 0)

abbrev pub limit : Bitmap → ℕ
limit bitmap = bitmap.bitmap_size * 8

-- The counters against the bitmap, modulo 2 ^ 64: what is free and what is taken make up `total`,
-- and every page taken is either used or reserved. All pages have addresses below 2 ^ 64.
pub record Accounts (total : ℕ) (s : Pmm) : Type 0 where
  pub bytes : IsBytes s.bitmap
  pub small : limit s.bitmap ≤ 2 ^ 52
  pub free :
      (s.free_memory + occupied s.bitmap (limit s.bitmap) * page_size) % 2 ^ 64 ≡ total % 2 ^ 64
  pub taken :
      (s.used_memory + s.reserved_memory) % 2 ^ 64
      ≡ occupied s.bitmap (limit s.bitmap) * page_size % 2 ^ 64

-- No page below the search hint is free.
abbrev pub HintHolds : Bitmap → Type 0
HintHolds bitmap = (k : ℕ) → k < bitmap.last_deep_fragmented → bitmap_get bitmap k ≡ true

pub record IsValid (total : ℕ) (s : Pmm) : Type 0 where
  pub accounts : Accounts total s
  pub hint : HintHolds s.bitmap

-- `b` reads as `a` but for the bit `i`, which is `e`, and has its size.
pub record Flipped (i : ℕ) (e : Bool) (a b : Bitmap) : Type 0 where
  pub bits : (k : ℕ) → bitmap_get b k ≡ (if i == k then e else bitmap_get a k)
  pub size : b.bitmap_size ≡ a.bitmap_size
  pub bytes : IsBytes b

module _ {i : ℕ} {e : Bool} {a b : Bitmap} (f : Flipped i e a b) where
  occupied-Flipped_above : (n : ℕ) → n ≤ i → occupied b n ≡ occupied a n
  unfolding occupied
  occupied-Flipped_above zero h = refl
  occupied-Flipped_above (suc n) h =
      ground (arith, occupied-Flipped_above n (omega arith), f.bits n)

  pub occupied-Flipped :
      (n : ℕ)
      → i < n
      → occupied b n + (if bitmap_get a i then 1 else 0) ≡ occupied a n + (if e then 1 else 0)
  unfolding occupied
  occupied-Flipped zero h = absurd (omega arith)
  occupied-Flipped (suc n) h = elim (Bool-cases (i == n)) [
    | inl last ↦ ground (arith, occupied-Flipped_above n (ground arith), f.bits n)
    | inr below ↦ ground (arith, occupied-Flipped n (ground arith), f.bits n)
  ]

pub bitmap_set-Flipped :
    (bitmap : Bitmap) (i : ℕ) (e : Bool)
    → IsBytes bitmap
    → Flipped i e bitmap (bitmap_set bitmap i e)
bitmap_set-Flipped bitmap i e bytes = record {
  bits = λ k. bitmap_get-set bitmap i k e bytes;
  size = bitmap_size-set bitmap i e;
  bytes = bitmap_set-IsBytes bitmap i e bytes;
}

pub release_index-Flipped :
    (bitmap : Bitmap) (i : ℕ) → IsBytes bitmap → Flipped i false bitmap (release_index bitmap i)
unfolding release_index
release_index-Flipped bitmap i bytes =
    let f = bitmap_set-Flipped bitmap i false bytes in
    elim (Bool-cases (ltb i bitmap.last_deep_fragmented)) [
      | inl lower ↦ rw lower (record {
        bits = λ k. bitmap_get-hint (bitmap_set bitmap i false) i k ∙ f.bits k;
        size = f.size;
        bytes = record { byte = f.bytes.byte };
      })
      | inr keep ↦ rw keep f
    ]

-- The hint still holds once a page is taken, and once one is given back.
pub bitmap_set-HintHolds :
    (bitmap : Bitmap) (i : ℕ)
    → IsBytes bitmap
    → HintHolds bitmap
    → HintHolds (bitmap_set bitmap i true)
bitmap_set-HintHolds bitmap i bytes h k below =
    let old = h k (omega (arith, last_deep_fragmented-set bitmap i true)) in
    ground (arith, bitmap_get-set bitmap i k true bytes)

release_index-hint :
    (bitmap : Bitmap) (i : ℕ)
    → (release_index bitmap i).last_deep_fragmented
      ≡ (if ltb i bitmap.last_deep_fragmented then i else bitmap.last_deep_fragmented)
unfolding release_index
release_index-hint bitmap i = ground (arith, last_deep_fragmented-set bitmap i false)

pub release_index-HintHolds :
    (bitmap : Bitmap) (i : ℕ)
    → IsBytes bitmap
    → HintHolds bitmap
    → HintHolds (release_index bitmap i)
release_index-HintHolds bitmap i bytes h k below =
    let old = h k (ground (arith, release_index-hint bitmap i)) in
    let f = release_index-Flipped bitmap i bytes in
    ground (arith, release_index-hint bitmap i, f.bits k)

-- A bit flipped and the counters moved by a page: `a` is the bit before, `b` the bit after.
module _ {total : ℕ} {s s' : Pmm} (acc : Accounts total s) (a b : ℕ) where
  pub Accounts-step :
      IsBytes s'.bitmap
      → s'.bitmap.bitmap_size ≡ s.bitmap.bitmap_size
      → occupied s'.bitmap (limit s.bitmap) + a ≡ occupied s.bitmap (limit s.bitmap) + b
      → (s'.free_memory + b * page_size) % 2 ^ 64 ≡ (s.free_memory + a * page_size) % 2 ^ 64
      → (s'.used_memory + s'.reserved_memory + a * page_size) % 2 ^ 64
        ≡ (s.used_memory + s.reserved_memory + b * page_size) % 2 ^ 64
      → Accounts total s'
  Accounts-step bytes size count free taken = record {
    bytes = bytes;
    small = omega (arith, size, acc.small);
    free = omega (arith, same_count, acc.free);
    taken = omega (arith, same_count, acc.taken);
  }
    where
      same_count : occupied s'.bitmap (limit s'.bitmap) ≡ occupied s'.bitmap (limit s.bitmap)
      same_count = ap (λ n. occupied s'.bitmap (n * 8)) size
