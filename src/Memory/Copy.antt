-- ===== src/Memory/Copy.antt =====
-- What memcpy, memmove and memset of memory.c leave at every address.
use lightux.Prelude.{
  ℕ, zero, suc, ◌+◌, ◌-◌, ◌≤◌, ◌≡◌, ◌∙◌, ◌⊎◌, Bool, ◌&&◌, arith, ltb, leb, if◌then◌else◌, u8,
}
use lightux.Memory.{Mem, store, copy_up, copy_down, set_loop, memcpy, memmove, memset}

-- `j` is one of the `n` addresses from `p` on.
abbrev pub inside : (p n j : ℕ) → Bool
inside p n j = leb p j && ltb j (p + n)

-- The `n` bytes at `dest` are those that `m` has at `src`, and all others are those of `m`.
abbrev pub copied : (dest src n : ℕ) → Mem → Mem
copied dest src n m j = if inside dest n j then m (src + (j - dest)) else m j

copy_up-copied :
    (rounds dest src i : ℕ) (m : Mem) (j : ℕ)
    → (dest ≤ src) ⊎ (src + (i + rounds) ≤ dest)
    → copy_up rounds dest src i m j
      ≡ (if inside (dest + i) rounds j then m (src + (j - dest)) else m j)
unfolding copy_up
copy_up-copied zero dest src i m j h = ground arith
copy_up-copied (suc rounds) dest src i m j h =
    copy_up-copied rounds dest src (i + 1) (store (dest + i) (m (src + i)) m) j (grind arith)
    ∙ ground arith

copy_down-copied :
    (n dest src : ℕ) (m : Mem) (j : ℕ)
    → src ≤ dest
    → copy_down n dest src m j ≡ copied dest src n m j
unfolding copy_down
copy_down-copied zero dest src m j h = ground arith
copy_down-copied (suc i) dest src m j h =
    copy_down-copied i dest src (store (dest + i) (m (src + i)) m) j h ∙ ground arith

-- memcpy, where the regions do not overlap or the destination is not above the source, copies the
-- n bytes and changes nothing else.
pub memcpy-copied :
    (dest src n : ℕ) (m : Mem) (j : ℕ)
    → (dest ≤ src) ⊎ (src + n ≤ dest)
    → memcpy dest src n m j ≡ copied dest src n m j
unfolding memcpy
memcpy-copied dest src n m j h = copy_up-copied n dest src 0 m j (grind arith) ∙ ground arith

-- memmove copies the n bytes that the source held before the call, however the two regions
-- overlap, and changes nothing else.
pub memmove-copied :
    (dest src n : ℕ) (m : Mem) (j : ℕ) → memmove dest src n m j ≡ copied dest src n m j
unfolding memmove
memmove-copied dest src n m j =
    ground (arith, copy_up-copied n dest src 0 m j, copy_down-copied n dest src m j)

set_loop-inside :
    (rounds s c i : ℕ) (m : Mem) (j : ℕ)
    → set_loop rounds s c i m j ≡ (if inside (s + i) rounds j then u8 c else m j)
unfolding set_loop
set_loop-inside zero s c i m j = ground arith
set_loop-inside (suc rounds) s c i m j =
    set_loop-inside rounds s c (i + 1) (store (s + i) (u8 c) m) j ∙ ground arith

-- memset writes the low byte of c to each of the n addresses, and changes nothing else.
pub memset-inside :
    (s c n : ℕ) (m : Mem) (j : ℕ) → memset s c n m j ≡ (if inside s n j then u8 c else m j)
unfolding memset
memset-inside s c n m j = set_loop-inside n s c 0 m j ∙ ground arith
