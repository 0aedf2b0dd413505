-- ===== src/Printf.antt =====
-- kernel/src/drivers/console/printf.c: numbers as text, and the states of a format.
-- A string is the list of its characters before the terminator, `putc` is the callback on a state of its
-- own, and the arguments are the words that va_arg goes through, `args 0` first.
pub mod Numerals
pub mod Directives
mod Tests
use lightux.Prelude.{
  ℕ, zero, suc, ◌+◌, ◌-◌, ◌/◌, ◌%◌, ◌^◌, Bool, true, false, ◌||◌, ltb, ◌==◌, if◌then◌else◌, List,
  [], ◌∷◌, u8, sub64,
}

-- `g_HexChars`
abbrev pub hex_chars : ℕ → ℕ
hex_chars digit = if ltb digit 10 then 48 + digit else 87 + digit

unfoldable pub puts_internal : {S : Type 0} (putc : ℕ → S → S) → List ℕ → S → S
puts_internal putc [] s = s
puts_internal putc (c ∷ string) s = puts_internal putc string (putc c s)

-- The buffer, what was stored last first.
unfoldable pub digits_loop : (rounds number radix : ℕ) → (buffer : List ℕ) → List ℕ
digits_loop zero number radix buffer = buffer
digits_loop (suc rounds) number radix buffer = elim (number / radix == 0) [
  | true ↦ hex_chars (number % radix) ∷ buffer
  | false ↦ digits_loop rounds (number / radix) radix (hex_chars (number % radix) ∷ buffer)
]

-- For a radix from 8 on, as printf_internal passes: 64 bits then fit in the buffer of 32 characters, and 64
-- rounds are more than enough. In radix 2 and 3 the code writes behind the buffer, and this does not.
abbrev pub digits : (number radix : ℕ) → List ℕ
digits number radix = digits_loop 64 number radix []

unfoldable pub printf_unsigned : {S : Type 0} (putc : ℕ → S → S) → (number radix : ℕ) → S → S
unfolding digits_loop puts_internal
printf_unsigned putc number radix s = puts_internal putc (digits number radix) s

-- `number` is the word of a `long long`.
unfoldable pub printf_signed : {S : Type 0} (putc : ℕ → S → S) → (number radix : ℕ) → S → S
unfolding printf_unsigned
printf_signed putc number radix s =
    if ltb number (2 ^ 63)
    then printf_unsigned putc number radix s
    else printf_unsigned putc (sub64 0 number) radix (putc 0x2d s)

pub data State : Type 0 where
  state_normal : State
  state_length : State
  state_length_short : State
  state_length_long : State
  state_spec : State

pub data Length : Type 0 where
  length_default : Length
  length_short_short : Length
  length_short : Length
  length_long : Length
  length_long_long : Length

-- The local variables of printf_internal, the arguments taken so far and the state of the callback.
pub record Printf (S : Type 0) : Type 0 where
  pub state : State
  pub length : Length
  pub radix : ℕ
  pub sign : Bool
  pub number : Bool
  pub next : ℕ
  pub out : S

abbrev pub sign_extend : (word : ℕ) → ℕ
sign_extend word =
    if ltb (word % 2 ^ 32) (2 ^ 31) then word % 2 ^ 32 else word % 2 ^ 32 + (2 ^ 64 - 2 ^ 32)

-- `int` sign-extended to `long long`, and `long` and `long long` as they are.
unfoldable pub signed_argument : Length → (word : ℕ) → ℕ
signed_argument length_long word = word
signed_argument length_long_long word = word
signed_argument length_default word = sign_extend word
signed_argument length_short word = sign_extend word
signed_argument length_short_short word = sign_extend word

unfoldable pub unsigned_argument : Length → (word : ℕ) → ℕ
unsigned_argument length_long word = word
unsigned_argument length_long_long word = word
unsigned_argument length_default word = word % 2 ^ 32
unsigned_argument length_short word = word % 2 ^ 32
unsigned_argument length_short_short word = word % 2 ^ 32

module _ {S : Type 0} (putc : ℕ → S → S) (strings : ℕ → List ℕ) (args : ℕ → ℕ) where
  -- The specifier; `strings` gives the string at an address.
  unfoldable pub conversion : (c : ℕ) → Printf S → Printf S
  unfolding puts_internal
  conversion c p =
      if c == 99
      then record p { out = putc (u8 (args p.next)) p.out; next = p.next + 1 }
      else if c == 115
      then record p { out = puts_internal putc (strings (args p.next)) p.out; next = p.next + 1 }
      else if c == 37
      then record p { out = putc 37 p.out }
      else if c == 100 || c == 105
      then record p { radix = 10; sign = true; number = true }
      else if c == 117
      then record p { radix = 10; sign = false; number = true }
      else if c == 88 || c == 120 || c == 112
      then record p { radix = 16; sign = false; number = true }
      else if c == 111
      then record p { radix = 8; sign = false; number = true }
      else p

  unfoldable pub print_number : Printf S → Printf S
  unfolding printf_signed printf_unsigned signed_argument unsigned_argument
  print_number p =
      if p.number
      then record p {
        out =
            (if p.sign
              then printf_signed putc (signed_argument p.length (args p.next)) p.radix p.out
              else printf_unsigned putc (unsigned_argument p.length (args p.next)) p.radix p.out);
        next = p.next + 1;
      }
      else p

  unfoldable pub printf_spec : (c : ℕ) → Printf S → Printf S
  unfolding conversion print_number
  printf_spec c p = record (print_number (conversion c p)) {
    state = state_normal;
    length = length_default;
    radix = 10;
    sign = false;
  }

  unfoldable pub printf_step : (c : ℕ) → Printf S → Printf S
  unfolding printf_spec
  printf_step c p = elim p.state [
    | state_normal ↦
        if c == 37 then record p { state = state_length } else record p { out = putc c p.out }
    | state_length ↦
        if c == 104
        then record p { length = length_short; state = state_length_short }
        else if c == 108
        then record p { length = length_long; state = state_length_long }
        else printf_spec c p
    | state_length_short ↦
        if c == 104
        then record p { length = length_short_short; state = state_spec }
        else printf_spec c p
    | state_length_long ↦
        if c == 108
        then record p { length = length_long_long; state = state_spec }
        else printf_spec c p
    | state_spec ↦ printf_spec c p
  ]

  unfoldable pub printf_loop : (fmt : List ℕ) → Printf S → Printf S
  unfolding printf_step
  printf_loop [] p = p
  printf_loop (c ∷ fmt) p = printf_loop fmt (printf_step c p)

  unfoldable pub printf_internal : (fmt : List ℕ) → S → S
  unfolding printf_loop
  printf_internal fmt s =
      (printf_loop fmt (record {
        state = state_normal;
        length = length_default;
        radix = 10;
        sign = false;
        number = false;
        next = 0;
        out = s;
      })).out
