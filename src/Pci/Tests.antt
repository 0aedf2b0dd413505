-- ===== src/Pci/Tests.antt =====
-- pci.c: the registers of function 1 in slot 3 of bus 2.
use lightux.Pci.{config_address}
use lightux.Pci.Addresses.{config_address-injective}
use lightux.Pci.{pci_filter_device, pci_config_read_word}
use lightux.Pci.Devices.{pci_get_device, Buses, entry_of, initialize_pci, pci_look_up_device}
use lightux.Pci.Lookup.{answer, pci_look_up_device-initialize_pci}
use lightux.Prelude.{[], some, ℕ, ◌/◌, ◌≡◌, refl, arith}

abbrev bus_2 : ℕ
bus_2 = 2

abbrev slot_3 : ℕ
slot_3 = 3

abbrev func_1 : ℕ
func_1 = 1

abbrev offset_10 : ℕ
offset_10 = 0x0a

same : config_address bus_2 slot_3 func_1 offset_10 ≡ config_address bus_2 slot_3 func_1 0x08
unfolding config_address
same = refl

config_address-injective_example :
    (bus_2 ≡ bus_2) × (slot_3 ≡ slot_3) × (func_1 ≡ func_1) × (offset_10 / 4 ≡ 0x08 / 4)
config_address-injective_example =
    config_address-injective bus_2 slot_3 func_1 offset_10 bus_2 slot_3 func_1 0x08
      (omega arith, omega arith, omega arith, omega arith)
      (omega arith, omega arith, omega arith, omega arith) same

-- Every function answers alike, as a general device.
abbrev everywhere : ℕ → ℕ
everywhere _ = 0x8086

abbrev nothing_yet : Buses
nothing_yet = record { first_pci = []; ahci = [] }

pci_look_up_device-initialize_pci_example :
    pci_look_up_device bus_2 slot_3 func_1 (initialize_pci everywhere nothing_yet).first_pci
    ≡ answer everywhere bus_2 slot_3 func_1
pci_look_up_device-initialize_pci_example =
    pci_look_up_device-initialize_pci everywhere bus_2 slot_3 func_1 (omega arith) (omega arith)
      (omega arith) nothing_yet refl

answers :
    answer everywhere bus_2 slot_3 func_1
    ≡ some (entry_of (pci_get_device everywhere bus_2 slot_3 func_1))
unfolding pci_get_device pci_filter_device pci_config_read_word
answers = refl
