-- ===== src/Paging/Words.antt =====
-- The masks and flags of paging.h as arithmetic on words.
use lightux.Bits.{
  bit_and-low, bit_and-high, bit_or-high, bit_or-lt, bit_or-step, bit_or-zero, bit_or-fields,
}
use lightux.Paging.{
  pf_present, pf_rw, pf_user, table_index, strip_sx, pte_get_addr, p_phys_addr, is_present,
}
use lightux.Prelude.{
  ℕ, ◌+◌, ◌-◌, ◌*◌, ◌/◌, ◌^◌, ◌%◌, ◌<◌, ◌≡◌, ◌∙◌, sym, ap, ltb, arith, bit_and, bit_or,
}

pub table_index_lem : (shift address : ℕ) → table_index shift address ≡ address / 2 ^ shift % 512
unfolding table_index
table_index_lem shift address =
    let n = address / 2 ^ shift in
    let cut : n / 512 * 512 + n % 512 ≡ n = omega arith in
    ap (λ t. bit_and t 0x1ff) (sym cut) ∙ bit_and-low 9 (n / 512) (n % 512) (omega arith)

pub strip_sx_lem : (address : ℕ) → strip_sx address ≡ address % 2 ^ 48
unfolding strip_sx
strip_sx_lem address =
    let cut : address / 2 ^ 48 * 2 ^ 48 + address % 2 ^ 48 ≡ address = omega arith in
    ap (λ t. bit_and t 0xffff_ffff_ffff) (sym cut)
    ∙ bit_and-low 48 (address / 2 ^ 48) (address % 2 ^ 48) (omega arith)

pub pte_get_addr_lem : (value : ℕ) → pte_get_addr value ≡ value / 4096 % 2 ^ 40 * 4096
unfolding pte_get_addr
pte_get_addr_lem value =
    let q = value / 4096 in
    let cut : q * 4096 + value % 4096 ≡ value = omega arith in
    let high : q / 2 ^ 40 * 2 ^ 40 + q % 2 ^ 40 ≡ q = omega arith in
    ap (λ t. bit_and t 0x000f_ffff_ffff_f000) (sym cut)
    ∙ bit_and-high 12 q (value % 4096) (2 ^ 40 - 1) (omega arith)
    ∙ ap (λ t. bit_and t (2 ^ 40 - 1) * 4096) (sym high)
    ∙ ap (λ t. t * 4096) (bit_and-low 40 (q / 2 ^ 40) (q % 2 ^ 40) (omega arith))

pub p_phys_addr_lem : (address : ℕ) → address < 2 ^ 64 → p_phys_addr address ≡ address / 4096 * 4096
unfolding p_phys_addr
p_phys_addr_lem address h =
    let q = address / 4096 in
    let cut : q * 4096 + address % 4096 ≡ address = omega arith in
    let high : 0 * 2 ^ 52 + q ≡ q = omega arith in
    ap (λ t. bit_and t (2 ^ 64 - 2 ^ 12)) (sym cut)
    ∙ bit_and-high 12 q (address % 4096) (2 ^ 52 - 1) (omega arith)
    ∙ ap (λ t. bit_and t (2 ^ 52 - 1) * 4096) (sym high)
    ∙ ap (λ t. t * 4096) (bit_and-low 52 0 q (omega arith))

pub page_offset_lem : (address : ℕ) → bit_and address 0xfff ≡ address % 4096
page_offset_lem address =
    let cut : address / 4096 * 4096 + address % 4096 ≡ address = omega arith in
    ap (λ t. bit_and t 0xfff) (sym cut)
    ∙ bit_and-low 12 (address / 4096) (address % 4096) (omega arith)

bit_and-one : (n : ℕ) → bit_and n 1 ≡ n % 2
bit_and-one n =
    let cut : n / 2 * 2 + n % 2 ≡ n = omega arith in
    ap (λ t. bit_and t 1) (sym cut) ∙ bit_and-low 1 (n / 2) (n % 2) (omega arith)

pub is_present_lem : (entry : ℕ) → is_present entry ≡ ltb 0 (entry % 2)
unfolding is_present
is_present_lem entry = ap (λ t. ltb 0 t) (bit_and-one entry)

-- An entry for a page frame `q`, with flags of 12 bits.
pub frame_or :
    (q r flags : ℕ)
    → r < 4096
    → flags < 4096
    → bit_or (q * 4096 + r) flags ≡ q * 4096 + bit_or r flags
frame_or q r flags hr hf =
    let e : 0 * 4096 + flags ≡ flags = omega arith in
    ap (bit_or (q * 4096 + r)) (sym e)
    ∙ bit_or-high 12 q r 0 flags hr hf
    ∙ ap (λ t. t * 4096 + bit_or r flags) (bit_or-zero q)

pub table_entry_lem :
    (q : ℕ) → bit_or (bit_or (bit_or (q * 4096) pf_present) pf_rw) pf_user ≡ q * 4096 + 7
table_entry_lem q =
    ap (λ t. bit_or (bit_or t 2) 4) (bit_or-fields 12 q 1 (omega arith))
    ∙ ap (λ t. bit_or t 4) (frame_or q 1 2 (omega arith) (omega arith))
    ∙ frame_or q 3 4 (omega arith) (omega arith)

-- The entry that a page is mapped by: its frame, and the present bit.
pub page_entry_lem :
    (physical flags : ℕ)
    → physical < 2 ^ 64
    → flags < 4096
    → (bit_or (bit_or (p_phys_addr physical) pf_present) flags / 4096 ≡ physical / 4096)
      × (bit_or (bit_or (p_phys_addr physical) pf_present) flags % 2 ≡ 1)
page_entry_lem physical flags hp hf =
    let q = physical / 4096 in
    let e : bit_or (bit_or (p_phys_addr physical) pf_present) flags ≡ q * 4096 + bit_or 1 flags =
      ap (λ t. bit_or (bit_or t 1) flags) (p_phys_addr_lem physical hp)
      ∙ ap (λ t. bit_or t flags) (bit_or-fields 12 q 1 (omega arith))
      ∙ frame_or q 1 flags (omega arith) hf in
    let below = bit_or-lt 12 1 flags (omega arith) hf in
    (omega (arith, e, below), omega (arith, e, bit_or-step 1 flags))
