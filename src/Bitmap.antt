-- ===== src/Bitmap.antt =====
-- kernel/src/arch/x86_64/memory/bitmap.c: a bit for each page, the first page in the highest bit of
-- byte 0. The bytes from `buffer` on are a function of the offset, so that an access past the last
-- byte reads and writes what the machine has there. An access at a non-canonical address is a fault on the
-- machine and none here: with the bitmap at a canonical address that is so for indices around 2^52.
pub mod Laws
mod Tests
use lightux.Memory.{memset}
use lightux.Prelude.{
  ℕ, ◌-◌, ◌/◌, ◌%◌, ◌^◌, Bool, true, false, ltb, ◌==◌, if◌then◌else◌, add64, bit_and, bit_or,
}

pub record Bitmap : Type 0 where
  pub bitmap_size : ℕ
  pub address : ℕ
  pub buffer : ℕ → ℕ
  pub last_deep_fragmented : ℕ

-- `memory` is what the region at `buffer + hhdmOffset` holds before the call.
unfoldable pub initialize_bitmap :
    (hhdm_offset : ℕ) (memory : ℕ → ℕ) (bitmap_size buffer : ℕ) → Bitmap
initialize_bitmap hhdm_offset memory bitmap_size buffer = record {
  bitmap_size = bitmap_size;
  address = add64 buffer hhdm_offset;
  buffer = memset 0 0 bitmap_size memory;
  last_deep_fragmented = 0;
}

-- The address of the byte that `buffer[byteIndex]` is.
abbrev pub byte_address : Bitmap → (index : ℕ) → ℕ
byte_address bitmap index = add64 bitmap.address (index / 8)

-- `0b10000000 >> bitIndex`
abbrev pub bit_indexer : ℕ → ℕ
bit_indexer bit_index = 0b10000000 / 2 ^ bit_index

-- `byte & bitIndexer`, and the byte with that bit cleared or set. `~` is taken on the 8 bits that
-- the assignment to a `uint8_t` keeps.
unfoldable pub test_bit : ℕ → ℕ → Bool
test_bit byte bit_index = ltb 0 (bit_and byte (bit_indexer bit_index))

unfoldable pub write_bit : ℕ → ℕ → Bool → ℕ
write_bit byte bit_index enabled =
    let cleared = bit_and byte (255 - bit_indexer bit_index) in
    if enabled then bit_or cleared (bit_indexer bit_index) else cleared

unfoldable pub bitmap_get : Bitmap → ℕ → Bool
bitmap_get bitmap index = test_bit (bitmap.buffer (index / 8)) (index % 8)

unfoldable pub bitmap_set : Bitmap → ℕ → Bool → Bitmap
bitmap_set bitmap index enabled = record bitmap {
  buffer = λ i.
      if i == index / 8
      then write_bit (bitmap.buffer (index / 8)) (index % 8) enabled
      else bitmap.buffer i;
}
