-- ===== src/Keyboard.antt =====
-- kernel/src/drivers/input/kb_translate.c and keyboard.c: scan codes as characters, the handler of
-- the keyboard's interrupt, and GetKey, whose steps interleave with interrupts. A `char` is a byte.
pub mod Codes
pub mod Events
pub mod Typing
mod Tests
use lightux.Prelude.{
  ℕ, zero, suc, ◌+◌, ◌-◌, Bool, true, false, ◌&&◌, ltb, leb, ◌==◌, if◌then◌else◌, List, [], ◌∷◌,
}

nth : List ℕ → (behind : ℕ → ℕ) → ℕ → ℕ
nth [] behind i = behind i
nth (x ∷ xs) behind zero = x
nth (x ∷ xs) behind (suc i) = nth xs behind i

abbrev ascii_table : List ℕ
ascii_table =
    0 ∷ 0 ∷ 0x31 ∷ 0x32 ∷ 0x33 ∷ 0x34 ∷ 0x35 ∷ 0x36 ∷ 0x37 ∷ 0x38 ∷ 0x39 ∷ 0x30 ∷ 0x2d ∷ 0x3d ∷ 0
    ∷ 0 ∷ 0x71 ∷ 0x77 ∷ 0x65 ∷ 0x72 ∷ 0x74 ∷ 0x79 ∷ 0x75 ∷ 0x69 ∷ 0x6f ∷ 0x70 ∷ 0x5b ∷ 0x5d ∷ 0 ∷ 0
    ∷ 0x61 ∷ 0x73 ∷ 0x64 ∷ 0x66 ∷ 0x67 ∷ 0x68 ∷ 0x6a ∷ 0x6b ∷ 0x6c ∷ 0x3b ∷ 0x27 ∷ 0x60 ∷ 0 ∷ 0x5c
    ∷ 0x7a ∷ 0x78 ∷ 0x63 ∷ 0x76 ∷ 0x62 ∷ 0x6e ∷ 0x6d ∷ 0x2c ∷ 0x2e ∷ 0x2f ∷ 0 ∷ 0x2a ∷ 0 ∷ 0x20 ∷ []

-- The `switch` of the shifted characters; the others stay.
shifted : ℕ → ℕ
shifted c =
    if c == 0x31
    then 0x21
    else if c == 0x32
    then 0x40
    else if c == 0x33
    then 0x23
    else if c == 0x34
    then 0x24
    else if c == 0x35
    then 0x25
    else if c == 0x36
    then 0x5e
    else if c == 0x37
    then 0x26
    else if c == 0x38
    then 0x2a
    else if c == 0x39
    then 0x28
    else if c == 0x30
    then 0x29
    else if c == 0x3b
    then 0x3a
    else if c == 0x5b
    then 0x7b
    else if c == 0x5d
    then 0x7d
    else if c == 0x27
    then 0x22
    else if c == 0x2d
    then 0x5f
    else if c == 0x3d
    then 0x2b
    else if c == 0x5c
    then 0x7c
    else if c == 0x2c
    then 0x3c
    else if c == 0x2e
    then 0x3e
    else if c == 0x2f
    then 0x3f
    else if c == 0x60
    then 0x7e
    else c

-- `behind` is the memory behind the table.
unfoldable pub translate_to_ascii : (behind : ℕ → ℕ) → (scancode : ℕ) → (uppercase : Bool) → ℕ
unfolding nth shifted
translate_to_ascii behind scancode uppercase =
    let lower = nth ascii_table behind scancode in
    if ltb 58 scancode
    then 0
    else if uppercase
    then (if leb lower 0x7a && leb 0x61 lower then lower - 0x20 else shifted lower)
    else lower

-- `key_info_t`
pub record KeyInfo : Type 0 where
  pub key : ℕ
  pub uppercase : Bool

abbrev left_shift : ℕ
left_shift = 0x2a

abbrev right_shift : ℕ
right_shift = 0x36

abbrev enter : ℕ
enter = 0x1c

abbrev back_space : ℕ
back_space = 0x0e

abbrev tab : ℕ
tab = 0x0f

-- IRQKeyboardHandler, with the scan code that it reads from the port.
unfoldable pub irq_keyboard_handler : (behind : ℕ → ℕ) → (scancode : ℕ) → KeyInfo → KeyInfo
irq_keyboard_handler behind scancode s =
    let typed = translate_to_ascii behind scancode s.uppercase in
    if scancode == left_shift
    then record s { uppercase = true }
    else if scancode == left_shift + 0x80
    then record s { uppercase = false }
    else if scancode == right_shift
    then record s { uppercase = true }
    else if scancode == right_shift + 0x80
    then record s { uppercase = false }
    else if scancode == enter
    then record s { key = 0x0d }
    else if scancode == back_space
    then record s { key = 0x08 }
    else if scancode == tab
    then record s { key = 0x09 }
    else if typed == 0
    then s
    else record s { key = typed }

-- What happens next while GetKey runs: the thread takes a step, or an interrupt comes, of the keyboard with a
-- scan code or of another device.
pub data Event : Type 0 where
  runs : Event
  keyboard : (scancode : ℕ) → Event
  other : Event

-- Where GetKey is: before the test of the loop, before `hlt`, halted, before the read of the key, before
-- the key is cleared, with the value that was read, or behind the return.
pub data Point : Type 0 where
  at_test : Point
  at_hlt : Point
  halted : Point
  at_read : Point
  at_clear : ℕ → Point
  done : ℕ → Point

pub record Thread : Type 0 where
  pub point : Point
  pub info : KeyInfo

-- A step of GetKey, which is one access of the key or the `hlt`.
unfoldable pub advance : Thread → Thread
advance t = elim (t.point) [
  | at_test ↦ if t.info.key == 0 then record t { point = at_hlt } else record t { point = at_read }
  | at_hlt ↦ record t { point = halted }
  | halted ↦ t
  | at_read ↦ record t { point = at_clear t.info.key }
  | at_clear key ↦ record { point = done key; info = record t.info { key = 0 } }
  | done key ↦ t
]

-- An interrupt ends the halt, and the loop goes on with its test.
abbrev pub woken : Point → Point
woken at_test = at_test
woken at_hlt = at_hlt
woken halted = at_test
woken at_read = at_read
woken (at_clear key) = at_clear key
woken (done key) = done key

unfoldable pub happen : (behind : ℕ → ℕ) → Event → Thread → Thread
unfolding advance irq_keyboard_handler
happen behind runs t = advance t
happen behind (keyboard scancode) t = record {
  point = woken t.point;
  info = irq_keyboard_handler behind scancode t.info;
}
happen behind other t = record t { point = woken t.point }

-- GetKey along a sequence of events.
unfoldable pub get_key : (behind : ℕ → ℕ) → List Event → Thread → Thread
unfolding happen
get_key behind [] t = t
get_key behind (e ∷ es) t = get_key behind es (happen behind e t)
