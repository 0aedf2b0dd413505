-- ===== src/Memory.antt =====
-- kernel/src/utils/memory.c: the byte routines, over a memory that maps an address to its byte.
-- Each `for` loop is a recursion on the rounds left. Addresses are those of live objects, so the
-- pointer sums stay below 2 ^ 64 and are written without their modulus.
pub mod Copy
pub mod Compare
mod Tests
use lightux.Prelude.{
  ℕ, zero, suc, ◌+◌, ◌≡◌, Bool, arith, ltb, ◌==◌, if◌then◌else◌, u8, ℤ, pos, negsuc,
}

abbrev pub Mem : Type 0
Mem = ℕ → ℕ

abbrev pub store : ℕ → ℕ → Mem → Mem
store p v m a = if a == p then v else m a

copy_up : ℕ → (dest src i : ℕ) → Mem → Mem
copy_up zero dest src i m = m
copy_up (suc rounds) dest src i m =
    copy_up rounds dest src (i + 1) (store (dest + i) (m (src + i)) m)

copy_down : ℕ → (dest src : ℕ) → Mem → Mem
copy_down zero dest src m = m
copy_down (suc i) dest src m = copy_down i dest src (store (dest + i) (m (src + i)) m)

unfoldable pub memcpy : (dest src n : ℕ) → Mem → Mem
unfolding copy_up
memcpy dest src n m = copy_up n dest src 0 m

set_loop : ℕ → (s c i : ℕ) → Mem → Mem
set_loop zero s c i m = m
set_loop (suc rounds) s c i m = set_loop rounds s c (i + 1) (store (s + i) (u8 c) m)

unfoldable pub memset : (s c n : ℕ) → Mem → Mem
unfolding set_loop
memset s c n m = set_loop n s c 0 m

-- `dest == src` copies nothing.
unfoldable pub memmove : (dest src n : ℕ) → Mem → Mem
unfolding copy_up copy_down
memmove dest src n m =
    if ltb dest src
    then copy_up n dest src 0 m
    else if ltb src dest
    then copy_down n dest src m
    else m

compare_loop : ℕ → (s1 s2 i : ℕ) → Mem → ℤ
compare_loop zero s1 s2 i m = pos 0
compare_loop (suc rounds) s1 s2 i m =
    let rest = compare_loop rounds s1 s2 (i + 1) m in
    if m (s1 + i) == m (s2 + i)
    then rest
    else if ltb (m (s1 + i)) (m (s2 + i))
    then negsuc 0
    else pos 1

unfoldable pub memcmp : (s1 s2 n : ℕ) → Mem → ℤ
unfolding compare_loop
memcmp s1 s2 n m = compare_loop n s1 s2 0 m
