-- ===== src/Descriptors/Decode.antt =====
-- What the processor reads from the descriptor tables of gdt.c and idt.c.
use lightux.Descriptors.{
  gdt_kernel_code, gdt_kernel_data, gdt_user_code, gdt_user_data, GdtEntry, TssEntry, GdtEntries,
  gdt_load_tss, initialize_gdt, IdtEntry, idt_set_gate,
}
use lightux.Prelude.{
  ℕ, ◌+◌, ◌*◌, ◌/◌, ◌%◌, ◌^◌, ◌<◌, ◌≡◌, ◌≢◌, refl, Bool, true, ◌&&◌, ◌==◌, arith, ==_refl,
  ne→==-false,
}

-- The address of a gate's handler, and of a task state segment, as the processor puts them together.
abbrev pub gate_base : IdtEntry → ℕ
gate_base e = e.base_low + e.base_mid * 2 ^ 16 + e.base_high * 2 ^ 32

abbrev pub tss_base : TssEntry → ℕ
tss_base e = e.base_low + e.base_mid * 2 ^ 16 + e.base_high * 2 ^ 24 + e.base_upper * 2 ^ 32

-- A selector's entry: its low three bits are not part of the index.
abbrev pub select : GdtEntries → ℕ → GdtEntry
select gdt selector = gdt.descriptors (selector / 8)

-- A present segment of a ring: 64-bit code, or writable data.
abbrev pub is_present_in : (ring : ℕ) → GdtEntry → Bool
is_present_in ring e = e.access / 128 == 1 && e.access / 32 % 4 == ring

abbrev pub is_code : (ring : ℕ) → GdtEntry → Bool
is_code ring e = is_present_in ring e && e.access / 8 % 4 == 3 && e.granularity / 32 % 4 == 1

abbrev pub is_data : (ring : ℕ) → GdtEntry → Bool
is_data ring e = is_present_in ring e && e.access / 8 % 4 == 2 && e.access / 2 % 2 == 1

-- IDT_SetGate, for a handler of 64 bits: the gate set leads to the handler, by a selector that picks
-- 64-bit code of ring 0 from the table that InitializeGDT makes, and every other gate stays.
pub idt_set_gate-decode :
    (i handler flags tss : ℕ) (idt : ℕ → IdtEntry) (gdt : GdtEntries)
    → handler < 2 ^ 64
    → (gate_base (idt_set_gate i handler flags idt i) ≡ handler)
      × (is_code 0
            (select (initialize_gdt tss gdt) (idt_set_gate i handler flags idt i).segment_selector)
          ≡ true)
      × ((j : ℕ) → j ≢ i → idt_set_gate i handler flags idt j ≡ idt j)
unfolding idt_set_gate initialize_gdt gdt_load_tss
idt_set_gate-decode i handler flags tss idt gdt h = (
  rw (==_refl i) (omega arith),
  rw (==_refl i) refl,
  λ j differ. rw (ne→==-false j i differ) refl,
)

-- InitializeGDT, for a task state segment at an address of 64 bits: the table has 64-bit code and
-- writable data for ring 0 and for ring 3 at the four selectors, and a descriptor of the task state
-- segment whose parts make up its address.
pub initialize_gdt-decode :
    (tss : ℕ) (gdt : GdtEntries)
    → tss < 2 ^ 64
    → (is_code 0 (select (initialize_gdt tss gdt) gdt_kernel_code) ≡ true)
      × (is_data 0 (select (initialize_gdt tss gdt) gdt_kernel_data) ≡ true)
      × (is_code 3 (select (initialize_gdt tss gdt) gdt_user_code) ≡ true)
      × (is_data 3 (select (initialize_gdt tss gdt) gdt_user_data) ≡ true)
      × (tss_base (initialize_gdt tss gdt).tss ≡ tss)
unfolding initialize_gdt gdt_load_tss
initialize_gdt-decode tss gdt h = (refl, refl, refl, refl, omega arith)
