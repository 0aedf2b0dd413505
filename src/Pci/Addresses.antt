-- ===== src/Pci/Addresses.antt =====
-- The configuration addresses of pci.c: no two registers share one, and the half of a word is read.
use lightux.Bits.{bit_and-low, bit_and-high, bit_or-high, bit_or-fields, bit_or-zero}
use lightux.Pci.{config_address, pci_config_read_word}
use lightux.Prelude.{
  ℕ, zero, suc, ◌+◌, ◌*◌, ◌/◌, ◌%◌, ◌^◌, ◌<◌, ◌≡◌, refl, ap, sym, ◌∙◌, arith, bit_and, bit_or, u16,
  u32, if◌then◌else◌, ◌==◌,
}

offset_lem : (offset : ℕ) → offset < 256 → bit_and offset 0xfc ≡ offset / 4 * 4
offset_lem offset h =
    let cut : offset / 4 * 4 + offset % 4 ≡ offset = omega arith in
    let high : 0 * 2 ^ 6 + offset / 4 ≡ offset / 4 = omega arith in
    ap (λ t. bit_and t 0xfc) (sym cut)
    ∙ bit_and-high 2 (offset / 4) (offset % 4) 63 (omega arith)
    ∙ ap (λ t. bit_and t 63 * 4) (sym high)
    ∙ ap (λ t. t * 4) (bit_and-low 6 0 (offset / 4) (omega arith))

-- The fields of an address, as one sum.
pub config_address_lem :
    (bus slot func offset : ℕ)
    → bus < 256
    → slot < 32
    → func < 8
    → offset < 256
    → config_address bus slot func offset
      ≡ 2 ^ 31 + bus * 2 ^ 16 + slot * 2 ^ 11 + func * 2 ^ 8 + offset / 4 * 4
unfolding config_address
config_address_lem bus slot func offset hb hs hf ho =
    let low = offset / 4 * 4 in
    let a : bit_or (bus * 2 ^ 16) (slot * 2 ^ 11) ≡ (bus * 32 + slot) * 2 ^ 11 =
      bit_or-fields 16 bus (slot * 2 ^ 11) (omega arith) ∙ omega arith in
    let b : bit_or ((bus * 32 + slot) * 2 ^ 11) (func * 2 ^ 8)
        ≡ ((bus * 32 + slot) * 8 + func) * 2 ^ 8 =
      bit_or-fields 11 (bus * 32 + slot) (func * 2 ^ 8) (omega arith) ∙ omega arith in
    let c : bit_or (((bus * 32 + slot) * 8 + func) * 2 ^ 8) low
        ≡ 0 * 2 ^ 31 + (((bus * 32 + slot) * 8 + func) * 2 ^ 8 + low) =
      bit_or-fields 8 ((bus * 32 + slot) * 8 + func) low (omega arith) ∙ omega arith in
    let x = ((bus * 32 + slot) * 8 + func) * 2 ^ 8 + low in
    let d : bit_or (0 * 2 ^ 31 + x) (1 * 2 ^ 31 + 0) ≡ 1 * 2 ^ 31 + x =
      bit_or-high 31 0 x 1 0 (omega arith) (omega arith)
      ∙ ap (λ t. 1 * 2 ^ 31 + t) (bit_or-zero x) in
    let all =
      ap (λ t. bit_or t 0x8000_0000)
        (ap (λ t. bit_or (bit_or (bit_or (bus * 2 ^ 16) (slot * 2 ^ 11)) (func * 2 ^ 8)) t)
            (offset_lem offset ho)
          ∙ ap (λ t. bit_or (bit_or t (func * 2 ^ 8)) low) a
          ∙ ap (λ t. bit_or t low) b
          ∙ c)
      ∙ d in
    ap u32 all ∙ omega arith

-- Two registers within the limits of PCI (256 buses, 32 slots, 8 functions, 256 bytes) have the same
-- configuration address only where they lie in the same word of the same function.
pub config_address-injective :
    (bus slot func offset bus' slot' func' offset' : ℕ)
    → (bus < 256) × (slot < 32) × (func < 8) × (offset < 256)
    → (bus' < 256) × (slot' < 32) × (func' < 8) × (offset' < 256)
    → config_address bus slot func offset ≡ config_address bus' slot' func' offset'
    → (bus ≡ bus') × (slot ≡ slot') × (func ≡ func') × (offset / 4 ≡ offset' / 4)
config_address-injective bus slot func offset bus' slot' func' offset' (hb, hs, hf, ho)
      (hb', hs', hf', ho') e =
    let sums =
      sym (config_address_lem bus slot func offset hb hs hf ho)
      ∙ e
      ∙ config_address_lem bus' slot' func' offset' hb' hs' hf' ho' in
    (omega (arith, sums), omega (arith, sums), omega (arith, sums), omega (arith, sums))

half_lem : (offset : ℕ) → bit_and offset 2 ≡ offset / 2 % 2 * 2
half_lem offset =
    let q = offset / 2 in
    let cut : q * 2 + offset % 2 ≡ offset = omega arith in
    let even : q / 2 * 2 + q % 2 ≡ q = omega arith in
    ap (λ t. bit_and t 2) (sym cut)
    ∙ bit_and-high 1 q (offset % 2) 1 (omega arith)
    ∙ ap (λ t. bit_and t 1 * 2) (sym even)
    ∙ ap (λ t. t * 2) (bit_and-low 1 (q / 2) (q % 2) (omega arith))

low_word : (n : ℕ) → u16 (bit_and n 0xffff) ≡ n % 2 ^ 16
low_word n =
    let cut : n / 2 ^ 16 * 2 ^ 16 + n % 2 ^ 16 ≡ n = omega arith in
    ap u16 (
      ap (λ t. bit_and t 0xffff) (sym cut) ∙ bit_and-low 16 (n / 2 ^ 16) (n % 2 ^ 16) (omega arith))
    ∙ omega arith

-- PCI_ConfigReadWord gives the low half of the word at its configuration address where bit 1 of the
-- offset is clear, and the high half where it is set.
pub pci_config_read_word-half :
    (port : ℕ → ℕ) (bus slot func offset : ℕ)
    → pci_config_read_word port bus slot func offset ≡ (
        if offset / 2 % 2 == 0
        then port (config_address bus slot func offset) % 2 ^ 16
        else port (config_address bus slot func offset) / 2 ^ 16 % 2 ^ 16)
unfolding pci_config_read_word
pci_config_read_word-half port bus slot func offset =
    let word = port (config_address bus slot func offset) in
    low_word (word / 2 ^ (bit_and offset 2 * 8))
    ∙ ap (λ t. word / 2 ^ (t * 8) % 2 ^ 16) (half_lem offset)
    ∙ halves (offset / 2 % 2) (omega arith)
  where
    halves :
        (b : ℕ)
        → b < 2
        → port (config_address bus slot func offset) / 2 ^ (b * 2 * 8) % 2 ^ 16 ≡ (
            if b == 0
            then port (config_address bus slot func offset) % 2 ^ 16
            else port (config_address bus slot func offset) / 2 ^ 16 % 2 ^ 16)
    halves zero h = omega arith
    halves (suc zero) h = refl
    halves (suc (suc b)) h = absurd (omega arith)
