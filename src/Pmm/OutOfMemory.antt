-- ===== src/Pmm/OutOfMemory.antt =====
-- What a failed allocation does before its test for INVALID_PAGE.
use lightux.Bitmap.{Bitmap}
use lightux.Pmm.{Pmm}
use lightux.Prelude.{ℕ, ◌-◌, ◌^◌, ◌≤◌, ◌<◌, ◌⊎◌}

-- The addresses that the processor takes, where the upper 17 bits are alike.
abbrev pub IsCanonical : (address : ℕ) → Type 0
IsCanonical address = (address < 2 ^ 47) ⊎ ((2 ^ 64 - 2 ^ 47 ≤ address) × (address < 2 ^ 64))
