-- ===== src/Descriptors/Tests.antt =====
-- gdt.c and idt.c: a handler in the higher half, at gate 14.
use lightux.Descriptors.{
  gdt_kernel_code, gdt_kernel_data, gdt_user_code, gdt_user_data, GdtEntries, initialize_gdt,
  IdtEntry, idt_set_gate,
}
use lightux.Descriptors.Decode.{
  gate_base, tss_base, select, is_code, is_data, idt_set_gate-decode, initialize_gdt-decode,
}
use lightux.Prelude.{ℕ, ◌≡◌, ◌≢◌, true, arith}

abbrev no_gate : IdtEntry
no_gate = record {
  base_low = 0;
  segment_selector = 0;
  ist = 0;
  attributes = 0;
  base_mid = 0;
  base_high = 0;
  reserved = 0;
}

abbrev no_gates : ℕ → IdtEntry
no_gates i = no_gate

abbrev empty : GdtEntries
empty = record {
  descriptors = λ i. record {
    limit = 0;
    base_low = 0;
    base_mid = 0;
    access = 0;
    granularity = 0;
    base_high = 0;
  };
  tss = record {
    length = 0;
    base_low = 0;
    base_mid = 0;
    flags1 = 0;
    flags2 = 0;
    base_high = 0;
    base_upper = 0;
    reserved = 0;
  };
}

abbrev handler : ℕ
handler = 0xffff_ffff_8010_1234

idt_set_gate-decode_example :
    (gate_base (idt_set_gate 14 handler 0x8e no_gates 14) ≡ handler)
    × (is_code 0 (
          select
            (initialize_gdt 0 empty)
            (idt_set_gate 14 handler 0x8e no_gates 14).segment_selector)
        ≡ true)
    × ((j : ℕ) → j ≢ 14 → idt_set_gate 14 handler 0x8e no_gates j ≡ no_gates j)
idt_set_gate-decode_example = idt_set_gate-decode 14 handler 0x8e 0 no_gates empty (omega arith)

initialize_gdt-decode_example :
    (is_code 0 (select (initialize_gdt handler empty) gdt_kernel_code) ≡ true)
    × (is_data 0 (select (initialize_gdt handler empty) gdt_kernel_data) ≡ true)
    × (is_code 3 (select (initialize_gdt handler empty) gdt_user_code) ≡ true)
    × (is_data 3 (select (initialize_gdt handler empty) gdt_user_data) ≡ true)
    × (tss_base (initialize_gdt handler empty).tss ≡ handler)
initialize_gdt-decode_example = initialize_gdt-decode handler empty (omega arith)
