-- ===== src/Bitmap/Laws.antt =====
-- The bitmap as a map from an index to a Boolean.
use lightux.Bits.{all_below, all_below_sound, zero-bit_and}
use lightux.Prelude.{
  sym, ℕ, ◌*◌, ◌/◌, ◌%◌, ◌<◌, ◌≡◌, refl, Bool, true, false, ◌&&◌, not, arith, ltb, ◌==◌,
  if◌then◌else◌, ltb→lt,
}
use lightux.Memory.Copy.{memset-inside}
use lightux.Bitmap.{
  Bitmap, bit_indexer, test_bit, write_bit, initialize_bitmap, bitmap_get, bitmap_set,
}

-- Every element of the buffer is a byte.
pub record IsBytes (bitmap : Bitmap) : Type 0 where
  pub byte : (i : ℕ) → bitmap.buffer i < 256

same : Bool → Bool → Bool
same true b = b
same false b = not b

-- After a write of `e` to bit `k` of byte `x`, bit `j` is `e` if it is the same bit, or else as it was.
written : Bool → (x k j : ℕ) → Bool
written e x k j =
    same (test_bit (write_bit x k e) j) (if k == j then e else test_bit x j)
    && ltb (write_bit x k e) 256

written_table :
    all_below 256
      (λ x. all_below 8 (λ k. all_below 8 (λ j. written true x k j && written false x k j)))
    ≡ true
unfolding all_below written same test_bit write_bit
written_table = refl

same→eq : (a b : Bool) → same a b ≡ true → a ≡ b
unfolding same
same→eq true b h = sym h
same→eq false true h = cc
same→eq false false h = refl

written_holds : (e : Bool) (x k j : ℕ) → x < 256 → k < 8 → j < 8 → written e x k j ≡ true
written_holds e x k j hx hk hj =
    let row = all_below_sound 256 _ x written_table hx in
    let column = all_below_sound 8 _ k row hk in
    let cell = all_below_sound 8 _ j column hj in pick e cell
  where
    pick : (e : Bool) → (written true x k j && written false x k j) ≡ true → written e x k j ≡ true
    pick true h = ground arith
    pick false h = ground arith

module _ (x k : ℕ) (e : Bool) (hx : x < 256) (hk : k < 8) where
  test_bit-write_bit :
      (j : ℕ) → j < 8 → test_bit (write_bit x k e) j ≡ (if k == j then e else test_bit x j)
  unfolding written
  test_bit-write_bit j hj = let h = written_holds e x k j hx hk hj in same→eq _ _ (ground arith)

  write_bit-lt : write_bit x k e < 256
  unfolding written
  write_bit-lt = let h = written_holds e x k k hx hk hk in ltb→lt _ _ (ground arith)

-- A bit written and read again, in the same byte or another.
pub bitmap_get-set :
    (bitmap : Bitmap) (i j : ℕ) (e : Bool)
    → IsBytes bitmap
    → bitmap_get (bitmap_set bitmap i e) j ≡ (if i == j then e else bitmap_get bitmap j)
unfolding bitmap_get bitmap_set
bitmap_get-set bitmap i j e h = ground (
  arith,
  test_bit-write_bit (bitmap.buffer (i / 8)) (i % 8) e (h.byte (i / 8)) (omega arith) (j % 8)
      (omega arith),
)

pub bitmap_set-IsBytes :
    (bitmap : Bitmap) (i : ℕ) (e : Bool) → IsBytes bitmap → IsBytes (bitmap_set bitmap i e)
unfolding bitmap_set
bitmap_set-IsBytes bitmap i e h = record {
  byte = λ k. ground (
    arith,
    h.byte k,
    write_bit-lt (bitmap.buffer (i / 8)) (i % 8) e (h.byte (i / 8)) (omega arith),
  );
}

-- A fresh bitmap reads as clear within its size, whatever its memory held.
pub bitmap_get-initialize_bitmap :
    (hhdm_offset : ℕ) (memory : ℕ → ℕ) (bitmap_size buffer index : ℕ)
    → index < bitmap_size * 8
    → bitmap_get (initialize_bitmap hhdm_offset memory bitmap_size buffer) index ≡ false
unfolding bitmap_get initialize_bitmap test_bit
bitmap_get-initialize_bitmap hhdm_offset memory bitmap_size buffer index h = ground (
  arith,
  memset-inside 0 0 bitmap_size memory (index / 8),
  zero-bit_and (bit_indexer (index % 8)),
)

pub initialize_bitmap-IsBytes :
    (hhdm_offset : ℕ) (memory : ℕ → ℕ) (bitmap_size buffer : ℕ)
    → ((i : ℕ) → memory i < 256)
    → IsBytes (initialize_bitmap hhdm_offset memory bitmap_size buffer)
unfolding initialize_bitmap
initialize_bitmap-IsBytes hhdm_offset memory bitmap_size buffer h = record {
  byte = λ i. ground (arith, memset-inside 0 0 bitmap_size memory i, h i);
}

-- A write of a bit leaves the size and the search hint.
pub bitmap_size-set :
    (bitmap : Bitmap) (i : ℕ) (e : Bool) → (bitmap_set bitmap i e).bitmap_size ≡ bitmap.bitmap_size
unfolding bitmap_set
bitmap_size-set bitmap i e = refl

pub last_deep_fragmented-set :
    (bitmap : Bitmap) (i : ℕ) (e : Bool)
    → (bitmap_set bitmap i e).last_deep_fragmented ≡ bitmap.last_deep_fragmented
unfolding bitmap_set
last_deep_fragmented-set bitmap i e = refl

-- The hint is no part of what is read.
pub bitmap_get-hint :
    (bitmap : Bitmap) (hint k : ℕ)
    → bitmap_get (record bitmap { last_deep_fragmented = hint }) k ≡ bitmap_get bitmap k
unfolding bitmap_get
bitmap_get-hint bitmap hint k = refl
