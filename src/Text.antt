-- ===== src/Text.antt =====
-- kernel/src/utils/string.c, ctype.c and maths.c. A string is a pointer into a memory of bytes; a
-- loop that looks for the terminator recurs on `rounds`, and spins where these run out.
pub mod Length
pub mod Copy
pub mod Compare
pub mod Align
pub mod Search
mod Tests
use lightux.Memory.{Mem, store}
use lightux.Prelude.{
  ℕ, zero, suc, ◌+◌, ◌-◌, ◌%◌, ◌^◌, Bool, ◌&&◌, ◌||◌, ltb, leb, ◌==◌, if◌then◌else◌, u8, add64,
  sub64, ℤ, pos, negsuc, not, Outcome, returns, panics, spins,
}

unfoldable pub strchr_loop : (rounds string c : ℕ) → Mem → Outcome Mem ℕ
strchr_loop zero string c m = spins
strchr_loop (suc rounds) string c m =
    let rest = strchr_loop rounds (string + 1) c m in
    if m string == 0 then returns 0 m else if m string == u8 c then returns string m else rest

-- NULL is 0.
unfoldable pub strchr : (rounds string c : ℕ) → Mem → Outcome Mem ℕ
unfolding strchr_loop
strchr rounds string c m = if string == 0 then returns 0 m else strchr_loop rounds string c m

strcpy_loop : (rounds dst src : ℕ) → Mem → Outcome Mem (Unit {0})
strcpy_loop zero dst src m = spins
strcpy_loop (suc rounds) dst src m =
    let rest = strcpy_loop rounds (dst + 1) (src + 1) (store dst (m src) m) in
    if m src == 0 then returns tt (store dst 0 m) else rest

unfoldable pub strcpy : (rounds dst src : ℕ) → Mem → Outcome Mem ℕ
unfolding strcpy_loop
strcpy rounds dst src m =
    if dst == 0
    then returns 0 m
    else if src == 0
    then returns 0 (store dst 0 m)
    else elim (strcpy_loop rounds dst src m) [
      | returns _ m' ↦ returns dst m'
      | panics m' ↦ panics m'
      | spins ↦ spins
    ]

strlen_loop : (rounds string len : ℕ) → Mem → Outcome Mem ℕ
strlen_loop zero string len m = spins
strlen_loop (suc rounds) string len m =
    let rest = strlen_loop rounds (string + 1) (add64 len 1) m in
    if m string == 0 then returns len m else rest

unfoldable pub strlen : (rounds string : ℕ) → Mem → Outcome Mem ℕ
unfolding strlen_loop
strlen rounds string m = strlen_loop rounds string 0 m

-- The difference of two `char`s as `int`s; a `char` is a signed byte, whose order is that of the
-- byte with its sign bit flipped.
abbrev pub signed_order : ℕ → ℕ
signed_order c = (c + 128) % 256

unfoldable pub char_difference : (a b : ℕ) → ℤ
char_difference a b =
    if leb (signed_order b) (signed_order a)
    then pos (signed_order a - signed_order b)
    else negsuc (signed_order b - signed_order a - 1)

strcmp_loop : (rounds a b : ℕ) → Mem → Outcome Mem ℤ
strcmp_loop zero a b m = spins
strcmp_loop (suc rounds) a b m =
    let rest = strcmp_loop rounds (a + 1) (b + 1) m in
    if not (m a == 0) && not (m b == 0) && m a == m b
    then rest
    else returns (char_difference (m a) (m b)) m

unfoldable pub strcmp : (rounds a b : ℕ) → Mem → Outcome Mem ℤ
unfolding strcmp_loop
strcmp rounds a b m =
    if a == 0 && b == 0
    then returns (pos 0) m
    else if a == 0 || b == 0
    then returns (negsuc 0) m
    else strcmp_loop rounds a b m

-- The character classes, on bytes: a `char` of 128 or more is negative, so in no range below.
unfoldable pub islower : ℕ → Bool
islower c = leb 0x61 c && leb c 0x7a

unfoldable pub isupper : ℕ → Bool
isupper c = leb 0x41 c && leb c 0x5a

unfoldable pub toupper : ℕ → ℕ
unfolding islower
toupper c = if islower c then c - 0x61 + 0x41 else c

unfoldable pub isspace : ℕ → Bool
isspace c = c == 0x20 || c == 0x0a || c == 0x0d || c == 0x09 || c == 0x0b || c == 0x08

unfoldable pub align : (size alignment : ℕ) → ℕ
align size alignment =
    if ltb 0 (size % alignment) then add64 (sub64 size (size % alignment)) alignment else size
