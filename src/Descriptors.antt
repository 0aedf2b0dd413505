-- ===== src/Descriptors.antt =====
-- kernel/src/arch/x86_64/cpu/gdt.c and idt.c: the descriptor tables. A field keeps the bits that its
-- width has; loading the tables into the processor is not modelled.
pub mod Decode
mod Tests
use lightux.Prelude.{ℕ, ◌/◌, ◌^◌, ◌==◌, if◌then◌else◌, u8, u16, u32}

abbrev pub gdt_kernel_code : ℕ
gdt_kernel_code = 0x08

abbrev pub gdt_kernel_data : ℕ
gdt_kernel_data = 0x10

abbrev pub gdt_user_code : ℕ
gdt_user_code = 0x18

abbrev pub gdt_user_data : ℕ
gdt_user_data = 0x20

pub record GdtEntry : Type 0 where
  pub limit : ℕ
  pub base_low : ℕ
  pub base_mid : ℕ
  pub access : ℕ
  pub granularity : ℕ
  pub base_high : ℕ

pub record TssEntry : Type 0 where
  pub length : ℕ
  pub base_low : ℕ
  pub base_mid : ℕ
  pub flags1 : ℕ
  pub flags2 : ℕ
  pub base_high : ℕ
  pub base_upper : ℕ
  pub reserved : ℕ

pub record GdtEntries : Type 0 where
  pub descriptors : ℕ → GdtEntry
  pub tss : TssEntry

unfoldable pub gdt_load_tss : (ptr : ℕ) → GdtEntries → GdtEntries
gdt_load_tss addr gdt = record gdt {
  tss = record gdt.tss {
    base_low = u16 addr;
    base_mid = u8 (u16 (addr / 2 ^ 16));
    flags1 = 0b1000_1001;
    flags2 = 0;
    base_high = u8 (addr / 2 ^ 24);
    base_upper = u32 (addr / 2 ^ 32);
    reserved = 0;
  };
}

-- An entry with base and limit 0.
abbrev flat_entry : (access granularity : ℕ) → GdtEntry
flat_entry access granularity = record {
  limit = 0;
  base_low = 0;
  base_mid = 0;
  access = access;
  granularity = granularity;
  base_high = 0;
}

-- InitializeGDT, for a task state segment at `tss`.
unfoldable pub initialize_gdt : (tss : ℕ) → GdtEntries → GdtEntries
unfolding gdt_load_tss
initialize_gdt tss gdt = gdt_load_tss tss (record {
  descriptors = λ i.
      if i == 0
      then flat_entry 0 0
      else if i == 1
      then flat_entry 0b1001_1010 0b0010_0000
      else if i == 2
      then flat_entry 0b1001_0010 0
      else if i == 3
      then flat_entry 0b1111_1010 0b0010_0000
      else if i == 4
      then flat_entry 0b1111_0010 0
      else gdt.descriptors i;
  tss = record {
    length = 104;
    base_low = 0;
    base_mid = 0;
    flags1 = 0b1000_1001;
    flags2 = 0;
    base_high = 0;
    base_upper = 0;
    reserved = 0;
  };
})

pub record IdtEntry : Type 0 where
  pub base_low : ℕ
  pub segment_selector : ℕ
  pub ist : ℕ
  pub attributes : ℕ
  pub base_mid : ℕ
  pub base_high : ℕ
  pub reserved : ℕ

unfoldable pub idt_set_gate : (interrupts handler flags : ℕ) → (ℕ → IdtEntry) → (ℕ → IdtEntry)
idt_set_gate interrupts handler flags idt i =
    if i == interrupts
    then record {
      base_low = u16 handler;
      segment_selector = gdt_kernel_code;
      ist = 0;
      attributes = flags;
      base_mid = u16 (handler / 2 ^ 16);
      base_high = u32 (handler / 2 ^ 32);
      reserved = 0;
    }
    else idt i
