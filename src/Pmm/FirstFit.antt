-- ===== src/Pmm/FirstFit.antt =====
-- The contract of pmm_AllocatePages and pmm_AllocatePage.
use mathlib.Core.Path.{subst₂}
use lightux.Bitmap.{Bitmap, bitmap_get}
use lightux.Bitmap.Laws.{IsBytes, bitmap_get-hint}
use lightux.Pmm.{
  Pmm, page_size, invalid_page, page_address, lock_page, lock_pages, release, find_free_region,
  allocate_page, allocate_pages,
}
use lightux.Pmm.Invariant.{occupied, limit, Accounts, HintHolds, IsValid, Accounts-step}
use lightux.Pmm.Search.{FreeRun, IsFirst, NoRun, hinted, Found, find_free_region-Found}
use lightux.Pmm.Allocate.{Took, searched, lock_pages-Took, allocate_pages-found}
use lightux.Memory.Copy.{inside}
use lightux.Spinlock.{spinlock_release}
use lightux.Prelude.{
  ℕ, zero, suc, ◌+◌, ◌*◌, ◌%◌, ◌^◌, ◌≤◌, ◌<◌, ◌≡◌, refl, subst, ap, ◌⊎◌, ◌||◌, true, false, arith,
  ltb, ◌==◌, Bool-cases, ==→eq, ne→==-false, inl, inr, ◌∙◌, min, Outcome, returns, panics, Returns,
}

-- A successful call: the first run of `n` free pages of the whole bitmap is now used, nothing else
-- has changed in what is taken, and the lock is free again.
pub record Allocated (total n : ℕ) (s : Pmm) (addr : ℕ) (s' : Pmm) : Type 0 where
  pub region : ℕ
  pub address : addr ≡ region * page_size
  pub first : IsFirst s.bitmap n 0 (limit s.bitmap) region
  pub bits : (k : ℕ) → bitmap_get s'.bitmap k ≡ (inside region n k || bitmap_get s.bitmap k)
  pub used : s'.used_memory % 2 ^ 64 ≡ (s.used_memory + n * page_size) % 2 ^ 64
  pub free : (s'.free_memory + n * page_size) % 2 ^ 64 ≡ s.free_memory % 2 ^ 64
  pub reserved : s'.reserved_memory ≡ s.reserved_memory
  pub size : s'.bitmap.bitmap_size ≡ s.bitmap.bitmap_size
  pub valid : IsValid total s'
  pub unlocked : s'.lock.locked ≡ false

-- A request that cannot be met: no run is long enough, and the kernel panics.
pub record Exhausted (n : ℕ) (s : Pmm) (r : Outcome Pmm ℕ) : Type 0 where
  pub full : NoRun s.bitmap n 0 (limit s.bitmap)
  pub state : Pmm
  pub panicked : r ≡ panics state

-- With the hint in force, a search from the hint is a search from the first page.
module _ (bitmap : Bitmap) (hint : HintHolds bitmap) (n : ℕ) (pos : 0 < n) where
  from_hint : (s : ℕ) → FreeRun bitmap s n → bitmap.last_deep_fragmented ≤ s
  from_hint s run = elim (Bool-cases (ltb s bitmap.last_deep_fragmented)) [
    | inl below ↦
        let clear = run s (omega arith) (omega arith) in let set = hint s (ground arith) in cc
    | inr above ↦ ground arith
  ]

  IsFirst-low :
      {region : ℕ}
      → IsFirst bitmap n bitmap.last_deep_fragmented (limit bitmap) region
      → IsFirst bitmap n 0 (limit bitmap) region
  IsFirst-low (low, fits, run, least) =
      (omega arith, fits, run, λ s lo other. least s (from_hint s other) other)

  pub NoRun-low :
      NoRun bitmap n bitmap.last_deep_fragmented (limit bitmap) → NoRun bitmap n 0 (limit bitmap)
  NoRun-low no_run s lo fits run = no_run s (from_hint s run) fits run

-- Taking a free run of `n` pages raises the count of pages taken by `n`.
pub occupied-run :
    (a b : Bitmap) (start n : ℕ)
    → FreeRun a start n
    → ((k : ℕ) → bitmap_get b k ≡ (inside start n k || bitmap_get a k))
    → (m : ℕ) → occupied b m + min m start ≡ occupied a m + min m (start + n)
unfolding occupied
occupied-run a b start n run bits zero = omega arith
occupied-run a b start n run bits (suc m) =
    ground (arith, occupied-run a b start n run bits m, bits m, run m)

-- The bitmap that a search leaves reads as before it.
bitmap_get-hinted :
    (bitmap : Bitmap) (n region k : ℕ) → bitmap_get (hinted bitmap n region) k ≡ bitmap_get bitmap k
bitmap_get-hinted bitmap n region k = ground (arith, bitmap_get-hint bitmap (region + 1) k)

size-hinted :
    (bitmap : Bitmap) (n region : ℕ) → (hinted bitmap n region).bitmap_size ≡ bitmap.bitmap_size
size-hinted bitmap n region = ground arith

hinted-IsBytes :
    (bitmap : Bitmap) (n region : ℕ) → IsBytes bitmap → IsBytes (hinted bitmap n region)
hinted-IsBytes bitmap n region h = record { byte = λ k. ground (arith, h.byte k) }

-- Below the region that a search for one page has found, no page is free.
single-used :
    (bitmap : Bitmap) (region limit k : ℕ)
    → IsFirst bitmap 1 0 limit region
    → k < region
    → bitmap_get bitmap k ≡ true
single-used bitmap region limit k (low, fits, run, least) below =
    elim (Bool-cases (bitmap_get bitmap k)) [
      | inl used ↦ used
      | inr clear ↦ absurd (
          omega
            (arith, least k (omega arith) (λ j lo hi. let e : j ≡ k = omega arith in rw e clear)))
    ]

module _ {total n : ℕ} {s : Pmm} (v : IsValid total s) (pos : 0 < n) (region : ℕ)
    (first : IsFirst s.bitmap n 0 (limit s.bitmap) region) where
  open v.accounts use {bytes, small}

  abbrev final : Pmm
  final = release (lock_pages (page_address region) n (searched s (hinted s.bitmap n region)))

  taken : Took region n (searched s (hinted s.bitmap n region)) final
  taken =
      let t =
        lock_pages-Took region n (searched s (hinted s.bitmap n region))
          (hinted-IsBytes s.bitmap n region bytes) (omega (arith, first.1, small))
          (λ k lo hi. bitmap_get-hinted s.bitmap n region k ∙ first.2 k lo hi) in
      record {
        bits = t.bits;
        used = t.used;
        free = t.free;
        reserved = t.reserved;
        bytes = t.bytes;
        hint = t.hint;
        size = t.size;
      }

  final-bits : (k : ℕ) → bitmap_get final.bitmap k ≡ (inside region n k || bitmap_get s.bitmap k)
  final-bits k = ground (arith, taken.bits k, bitmap_get-hinted s.bitmap n region k)

  final-Accounts : Accounts total final
  final-Accounts =
      let count = occupied-run s.bitmap final.bitmap region n first.2 final-bits (limit s.bitmap) in
      Accounts-step v.accounts 0 n taken.bytes (taken.size ∙ size-hinted s.bitmap n region)
        (omega (arith, first.1)) (omega (arith, taken.free))
        (omega (arith, taken.used, taken.reserved))

  final-HintHolds : HintHolds final.bitmap
  final-HintHolds k below = elim (Bool-cases (n == 1)) [
    | inl one ↦
        let bound : k < region + 1 = ground (arith, taken.hint) in
        elim (Bool-cases (k == region)) [
          | inl last ↦ ground (arith, final-bits k)
          | inr other ↦
              let one_run =
                subst (λ m. IsFirst s.bitmap m 0 (limit s.bitmap) region) (==→eq n 1 one) first in
              ground (arith, final-bits k, single-used s.bitmap region (limit s.bitmap) k one_run)
        ]
    | inr more ↦ let old = v.hint k (ground (arith, taken.hint)) in ground (arith, final-bits k)
  ]

  final-Allocated : Allocated total n s (page_address region) final
  unfolding spinlock_release
  final-Allocated = record {
    region = region;
    address = omega (arith, first.1, small);
    first = first;
    bits = final-bits;
    used = taken.used;
    free = taken.free;
    reserved = taken.reserved;
    size = taken.size ∙ size-hinted s.bitmap n region;
    valid = record { accounts = final-Accounts; hint = final-HintHolds };
    unlocked = refl;
  }

module _ {total : ℕ} (n : ℕ) {s : Pmm} (v : IsValid total s)
    (unlocked : s.lock.locked ≡ false) where
  open v.accounts use {small}

  -- In a valid state with the lock free, a call of pmm_AllocatePages for n > 0 pages takes the lowest
  -- run of n free pages, marks exactly these, accounts them as used, and returns the address of the
  -- first with the state valid and the lock free; or no such run exists, and the kernel panics.
  pub allocate_pages-first_fit :
      0 < n
      → Returns (allocate_pages n s) (Allocated total n s) ⊎ Exhausted n s (allocate_pages n s)
  allocate_pages-first_fit pos =
      go (find_free_region n s.bitmap) refl (find_free_region-Found n s.bitmap pos)
    where
      go :
          (found : ℕ × Bitmap)
          → find_free_region n s.bitmap ≡ found
          → Found s.bitmap n s.bitmap.last_deep_fragmented (limit s.bitmap) found
          → Returns (allocate_pages n s) (Allocated total n s) ⊎ Exhausted n s (allocate_pages n s)
      go (region, bitmap) e (inl (first, marked)) =
          let first₀ = IsFirst-low s.bitmap v.hint n pos first in
          let valid_page = ne→==-false region invalid_page (omega (arith, first.1, small)) in
          let call =
            allocate_pages-found n region s (hinted s.bitmap n region) pos unlocked
              (e ∙ ap (λ (b : Bitmap). (region, b)) marked) in
          inl (
            page_address region,
            final v pos region first₀,
            call ∙ rw valid_page,
            final-Allocated v pos region first₀,
          )
      go (region, bitmap) e (inr (invalid, no_run, same)) = inr (record {
        full = NoRun-low s.bitmap v.hint n pos no_run;
        state = release (lock_pages (page_address region) n (searched s bitmap));
        panicked = allocate_pages-found n region s bitmap pos unlocked e ∙ rw invalid;
      })

pub lock_pages-one :
    (region : ℕ) (s : Pmm)
    → lock_pages (page_address region) 1 s ≡ lock_page (page_address region) s
unfolding lock_pages
lock_pages-one region s = ap (λ addr. lock_page addr s) (omega arith)

-- What is known of a call that has returned.
pub returns-Allocated :
    {total : ℕ} (n : ℕ) {s s' : Pmm} {addr : ℕ}
    → IsValid total s
    → s.lock.locked ≡ false
    → 0 < n
    → allocate_pages n s ≡ returns addr s'
    → Allocated total n s addr s'
returns-Allocated {total} n {s} {s'} {addr} v unlocked pos e =
    elim (allocate_pages-first_fit n v unlocked pos) [
      | inl (addr₁, s₁, e₁, allocated) ↦
          let same_addr : addr₁ ≡ addr = cc in
          let same_state : s₁ ≡ s' = cc in
          subst₂ (Allocated total n s) same_addr same_state allocated
      | inr out ↦ let panicked = out.panicked in cc
    ]

-- pmm_AllocatePage does what pmm_AllocatePages does with one page, in every state.
pub allocate_page-eq-allocate_pages : (s : Pmm) → allocate_page s ≡ allocate_pages 1 s
unfolding allocate_page allocate_pages
allocate_page-eq-allocate_pages s = simp lock_pages-one
