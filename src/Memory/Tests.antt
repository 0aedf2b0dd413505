-- ===== src/Memory/Tests.antt =====
-- memory.c at concrete inputs.
use lightux.Memory.{Mem, memmove, memset, memcmp}
use lightux.Memory.Copy.{inside, copied, memmove-copied, memset-inside}
use lightux.Memory.Compare.{Compared, memcmp-Compared}
use lightux.Prelude.{◌*◌, ◌%◌, ◌≡◌, refl, if◌then◌else◌, u8, negsuc}

-- Byte `a` holds `3 * a`.
abbrev triples : Mem
triples a = 3 * a % 256

memmove_down : memmove 10 12 4 triples 13 ≡ 45
unfolding memmove
memmove_down = refl

memmove_up : memmove 12 10 4 triples 15 ≡ 39
unfolding memmove
memmove_up = refl

memcmp_less : memcmp 1 2 3 triples ≡ negsuc 0
unfolding memcmp
memcmp_less = refl

memmove-copied_example : memmove 12 10 4 triples 15 ≡ copied 12 10 4 triples 15
memmove-copied_example = memmove-copied 12 10 4 triples 15

memset-inside_at_four : memset 5 0x1ff 3 triples 6 ≡ (if inside 5 3 6 then u8 0x1ff else triples 6)
memset-inside_at_four = memset-inside 5 0x1ff 3 triples 6

memcmp-Compared_example : Compared triples 4 4 0 8 (memcmp 4 4 8 triples)
memcmp-Compared_example = memcmp-Compared triples 4 4 8
