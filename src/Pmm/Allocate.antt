-- ===== src/Pmm/Allocate.antt =====
-- pmm_AllocatePage and pmm_AllocatePages: what they hand out, and when they panic.
use lightux.Bitmap.{Bitmap, bitmap_get}
use lightux.Bitmap.Laws.{IsBytes, last_deep_fragmented-set}
use lightux.Pmm.{
  Pmm, page_size, index_of, page_address, lock_page, for_pages, lock_pages, acquire, release,
  hand_out, find_free_region, allocate_pages,
}
use lightux.Pmm.Invariant.{bitmap_set-Flipped}
use lightux.Pmm.Search.{FreeRun}
use lightux.Memory.Copy.{inside}
use lightux.Prelude.{
  ℕ, zero, suc, ◌+◌, ◌*◌, ◌%◌, ◌^◌, ◌≤◌, ◌<◌, ◌≡◌, refl, subst, ◌||◌, true, false, arith, ◌==◌,
  add64, ◌∙◌, returns,
}

-- `s'` is `s` with the `n` pages from `start` on taken, and accounted as used.
pub record Took (start n : ℕ) (s s' : Pmm) : Type 0 where
  pub bits : (k : ℕ) → bitmap_get s'.bitmap k ≡ (inside start n k || bitmap_get s.bitmap k)
  pub used : s'.used_memory % 2 ^ 64 ≡ (s.used_memory + n * page_size) % 2 ^ 64
  pub free : (s'.free_memory + n * page_size) % 2 ^ 64 ≡ s.free_memory % 2 ^ 64
  pub reserved : s'.reserved_memory ≡ s.reserved_memory
  pub bytes : IsBytes s'.bitmap
  pub hint : s'.bitmap.last_deep_fragmented ≡ s.bitmap.last_deep_fragmented
  pub size : s'.bitmap.bitmap_size ≡ s.bitmap.bitmap_size

lock_page-Took :
    (addr : ℕ) (s : Pmm)
    → IsBytes s.bitmap
    → bitmap_get s.bitmap (index_of addr) ≡ false
    → Took (index_of addr) 1 s (lock_page addr s)
unfolding lock_page
lock_page-Took addr s bytes clear =
    let f = bitmap_set-Flipped s.bitmap (index_of addr) true bytes in
    rw clear (record {
      bits = λ k. ground (arith, f.bits k);
      used = omega arith;
      free = omega arith;
      reserved = refl;
      bytes = f.bytes;
      hint = last_deep_fragmented-set s.bitmap (index_of addr) true;
      size = f.size;
    })

-- A run taken from its first page on.
Took-append :
    {start n m : ℕ} {s s' s'' : Pmm}
    → Took start n s s'
    → Took (start + n) m s' s''
    → Took start (n + m) s s''
Took-append t u = record {
  bits = λ k. ground (arith, t.bits k, u.bits k);
  used = omega (arith, t.used, u.used);
  free = omega (arith, t.free, u.free);
  reserved = u.reserved ∙ t.reserved;
  bytes = u.bytes;
  hint = u.hint ∙ t.hint;
  size = u.size ∙ t.size;
}

for_pages-Took :
    (rounds region i n : ℕ) (s₀ s : Pmm)
    → i + rounds ≡ n
    → (region + n) * page_size ≤ 2 ^ 64
    → FreeRun s₀.bitmap region n
    → Took region i s₀ s
    → Took region n s₀ (for_pages lock_page rounds (page_address region) i s)
unfolding for_pages
for_pages-Took zero region i n s₀ s e fits run t =
    let same : i ≡ n = omega arith in subst (λ k. Took region k s₀ s) same t
for_pages-Took (suc rounds) region i n s₀ s e fits run t =
    let addr = add64 (page_address region) (i * page_size) in
    let index : index_of addr ≡ region + i = omega arith in
    let clear : bitmap_get s.bitmap (region + i) ≡ false =
      ground (arith, t.bits (region + i), run (region + i)) in
    let step : Took (region + i) 1 s (lock_page addr s) =
      subst (λ k. Took k 1 s (lock_page addr s)) index
        (lock_page-Took addr s t.bytes (rw index clear)) in
    for_pages-Took rounds region (i + 1) n s₀ _ (omega arith) fits run (Took-append t step)

Took-none : (start : ℕ) (s : Pmm) → IsBytes s.bitmap → Took start 0 s s
Took-none start s bytes = record {
  bits = λ k. ground arith;
  used = omega arith;
  free = omega arith;
  reserved = refl;
  bytes = bytes;
  hint = refl;
  size = refl;
}

pub lock_pages-Took :
    (region n : ℕ) (s : Pmm)
    → IsBytes s.bitmap
    → (region + n) * page_size ≤ 2 ^ 64
    → FreeRun s.bitmap region n
    → Took region n s (lock_pages (page_address region) n s)
unfolding lock_pages
lock_pages-Took region n s bytes fits run =
    for_pages-Took n region 0 n s s (omega arith) fits run (Took-none region s bytes)

-- The state in which `lock_pages` runs: the lock is held, and the search has set its hint.
abbrev pub searched : Pmm → Bitmap → Pmm
searched s bitmap = record s { lock = record { locked = true }; bitmap = bitmap }

acquire-returns :
    (s : Pmm)
    → s.lock.locked ≡ false
    → acquire s ≡ returns tt (record s { lock = record { locked = true } })
unfolding acquire
acquire-returns s free = ground arith

-- What a call with the lock free computes, once the region is known.
pub allocate_pages-found :
    (n region : ℕ) (s : Pmm) (bitmap : Bitmap)
    → 0 < n
    → s.lock.locked ≡ false
    → find_free_region n s.bitmap ≡ (region, bitmap)
    → allocate_pages n s
      ≡ hand_out region (release (lock_pages (page_address region) n (searched s bitmap)))
unfolding allocate_pages
allocate_pages-found n region s bitmap pos free found =
    let some_pages : (n == 0) ≡ false = ground arith in
    rw (some_pages, acquire-returns s free, found)
