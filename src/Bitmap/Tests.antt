-- ===== src/Bitmap/Tests.antt =====
-- bitmap.c at concrete inputs.
use lightux.Bitmap.{Bitmap, test_bit, bitmap_get, initialize_bitmap}
use lightux.Bitmap.Laws.{IsBytes, bitmap_get-initialize_bitmap}
use lightux.Prelude.{◌≡◌, refl, true, false, arith, ◌==◌, if◌then◌else◌}

-- Sixteen pages, of which page 1 and page 10 are taken.
abbrev two_taken : Bitmap
two_taken = record {
  bitmap_size = 2;
  address = 0;
  buffer = λ i. if i == 0 then 0b0100_0000 else if i == 1 then 0b0010_0000 else 0;
  last_deep_fragmented = 0;
}

two_taken-IsBytes : IsBytes two_taken
two_taken-IsBytes = record { byte = λ i. ground arith }

reads_ten : bitmap_get two_taken 10 ≡ true
unfolding bitmap_get test_bit
reads_ten = refl

last_bit_cleared : bitmap_get (initialize_bitmap 0x1000 (λ _. 0xff) 2 0x10000) 15 ≡ false
last_bit_cleared = bitmap_get-initialize_bitmap 0x1000 (λ _. 0xff) 2 0x10000 15 (omega arith)
