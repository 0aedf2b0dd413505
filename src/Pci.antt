-- ===== src/Pci.antt =====
-- kernel/src/drivers/pci/pci.c: the words of the configuration space. The two ports are a parameter:
-- what the data port gives once an address has been written to the address port.
pub mod Addresses
pub mod Devices
pub mod Lookup
mod Tests
use lightux.Prelude.{
  ℕ, ◌*◌, ◌/◌, ◌^◌, Bool, List, [], ◌∷◌, ◌||◌, not, ◌==◌, bit_and, bit_or, u16, u32,
}

unfoldable pub config_address : (bus slot func offset : ℕ) → ℕ
config_address bus slot func offset = u32 (
    bit_or
      (bit_or (bit_or (bit_or (bus * 2 ^ 16) (slot * 2 ^ 11)) (func * 2 ^ 8)) (bit_and offset 0xfc))
      0x8000_0000)

unfoldable pub pci_config_read_word : (port : ℕ → ℕ) → (bus slot func offset : ℕ) → ℕ
pci_config_read_word port bus slot func offset =
    u16 (bit_and (port (config_address bus slot func offset) / 2 ^ (bit_and offset 2 * 8)) 0xffff)

unfoldable pub pci_filter_device : (port : ℕ → ℕ) → (bus slot func : ℕ) → Bool
pci_filter_device port bus slot func =
    let vendor_id = pci_config_read_word port bus slot func 0 in
    not (vendor_id == 0xffff || vendor_id == 0)

-- PCI_ConfigWriteDWord: the words written, each with its port.
unfoldable pub pci_config_write_dword : (bus slot func offset config : ℕ) → List (ℕ × ℕ)
unfolding config_address
pci_config_write_dword bus slot func offset config =
    (0xcf8, config_address bus slot func offset) ∷ (0xcfc, config) ∷ []
