-- ===== src/Pci/Devices.antt =====
-- pci.c: the headers of the devices, and the scan of the buses. The ports answer alike throughout.
use lightux.Pci.{pci_config_read_word, pci_filter_device}
use lightux.Prelude.{
  ℕ, zero, suc, ◌+◌, ◌*◌, ◌/◌, ◌^◌, Bool, not, ◌&&◌, ◌==◌, if◌then◌else◌, List, [], ◌∷◌, ◌++◌,
  Option, none, some, bit_and, bit_or, u8, u16, u32,
}

-- EXPORT_BYTE, of the first byte and of the second; COMBINE_WORD.
abbrev pub export_first : (target : ℕ) → ℕ
export_first target = u8 (bit_and target 0xffff_00ff)

abbrev pub export_second : (target : ℕ) → ℕ
export_second target = u8 (bit_and target 0xffff_ff00 / 2 ^ 8)

abbrev pub combine_word : (low high : ℕ) → ℕ
combine_word low high = bit_or (u32 (high * 2 ^ 16)) (u16 low)

-- `PCIDevice`
pub record PciDevice : Type 0 where
  pub bus : ℕ
  pub slot : ℕ
  pub func : ℕ
  pub vendor_id : ℕ
  pub device_id : ℕ
  pub command : ℕ
  pub status : ℕ
  pub revision : ℕ
  pub prog_if : ℕ
  pub sub_class_id : ℕ
  pub class_id : ℕ
  pub cache_line_size : ℕ
  pub latency_timer : ℕ
  pub header_type : ℕ
  pub bist : ℕ

unfoldable pub pci_get_device : (port : ℕ → ℕ) → (bus slot func : ℕ) → PciDevice
pci_get_device port bus slot func =
    let read : ℕ → ℕ = pci_config_read_word port bus slot func in
    record {
      bus = bus;
      slot = slot;
      func = func;
      vendor_id = read 0x00;
      device_id = read 0x02;
      command = read 0x04;
      status = read 0x06;
      revision = export_first (read 0x08);
      prog_if = export_second (read 0x08);
      sub_class_id = export_first (read 0x0a);
      class_id = export_second (read 0x0a);
      cache_line_size = export_first (read 0x0c);
      latency_timer = export_second (read 0x0c);
      header_type = export_first (read 0x0e);
      bist = export_second (read 0x0e);
    }

-- `PCIGeneralDevice`; `cardBusCISPtr` is left as it was.
pub record PciGeneralDevice : Type 0 where
  pub bar : ℕ → ℕ
  pub card_bus_cis_ptr : ℕ
  pub system_id : ℕ
  pub system_vendor_id : ℕ
  pub expansion_rom_addr : ℕ
  pub capabilities_ptr : ℕ
  pub interrupt_line : ℕ
  pub interrupt_pin : ℕ
  pub min_grant : ℕ
  pub max_latency : ℕ

unfoldable pub pci_get_general_device :
    (port : ℕ → ℕ) → PciDevice → PciGeneralDevice → PciGeneralDevice
pci_get_general_device port device target =
    let read : ℕ → ℕ = pci_config_read_word port device.bus device.slot device.func in
    record target {
      bar = λ i. combine_word (read (0x10 + 4 * i)) (read (0x10 + 4 * i + 2));
      system_vendor_id = read 0x2c;
      system_id = read 0x2e;
      expansion_rom_addr = combine_word (read 0x30) (read (0x30 + 2));
      capabilities_ptr = export_first (read 0x34);
      interrupt_line = export_first (read 0x3c);
      interrupt_pin = export_second (read 0x3c);
      min_grant = export_first (read 0x3e);
      max_latency = export_second (read 0x3e);
    }

-- `PCI`, an entry of the list, of which the driver's fields are not set here.
pub record Pci : Type 0 where
  pub bus : ℕ
  pub slot : ℕ
  pub func : ℕ
  pub vendor_id : ℕ
  pub device_id : ℕ

-- The list behind `firstPCI`, and the devices given to InitializeAHCI.
pub record Buses : Type 0 where
  pub first_pci : List Pci
  pub ahci : List PciDevice

-- A general device, with several functions or not.
abbrev pub is_general : PciDevice → Bool
is_general device = bit_and device.header_type 0xffff_ff7f == 0

abbrev pub entry_of : PciDevice → Pci
entry_of device = record {
  bus = device.bus;
  slot = device.slot;
  func = device.func;
  vendor_id = device.vendor_id;
  device_id = device.device_id;
}

-- The body of the three loops of InitializePCI.
unfoldable pub visit : (port : ℕ → ℕ) → (bus slot func : ℕ) → Buses → Buses
visit port bus slot func s =
    let device = pci_get_device port bus slot func in
    if not (pci_filter_device port bus slot func)
    then s
    else if not (is_general device)
    then s
    else record {
      first_pci = s.first_pci ++ (entry_of device ∷ []);
      ahci =
          if device.class_id == 0x01 && device.sub_class_id == 0x06 && device.prog_if == 0x01
          then s.ahci ++ (device ∷ [])
          else s.ahci;
    }

unfoldable pub func_loop : (port : ℕ → ℕ) → (rounds bus slot func : ℕ) → Buses → Buses
func_loop port zero bus slot func s = s
func_loop port (suc rounds) bus slot func s =
    func_loop port rounds bus slot (func + 1) (visit port bus slot func s)

unfoldable pub slot_loop : (port : ℕ → ℕ) → (rounds bus slot : ℕ) → Buses → Buses
slot_loop port zero bus slot s = s
slot_loop port (suc rounds) bus slot s =
    slot_loop port rounds bus (slot + 1) (func_loop port 8 bus slot 0 s)

unfoldable pub bus_loop : (port : ℕ → ℕ) → (rounds bus : ℕ) → Buses → Buses
bus_loop port zero bus s = s
bus_loop port (suc rounds) bus s = bus_loop port rounds (bus + 1) (slot_loop port 32 bus 0 s)

unfoldable pub initialize_pci : (port : ℕ → ℕ) → Buses → Buses
initialize_pci port s = bus_loop port 256 0 s

-- PCI_LookUpDevice, along the list.
unfoldable pub pci_look_up_device : (bus slot func : ℕ) → List Pci → Option Pci
pci_look_up_device bus slot func [] = none
pci_look_up_device bus slot func (browse ∷ rest) =
    if browse.bus == bus && browse.slot == slot && browse.func == func
    then some browse
    else pci_look_up_device bus slot func rest
