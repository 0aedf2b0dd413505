-- ===== src/Keyboard/Tests.antt =====
-- kb_translate.c and keyboard.c: the scan codes of "A", typed with the left shift.
use lightux.Keyboard.{
  KeyInfo, nth, shifted, translate_to_ascii, irq_keyboard_handler, get_key, Event, runs, keyboard,
  other, at_test, halted, done,
}
use lightux.Keyboard.Events.{Returned, at, is_done, steps}
use lightux.Keyboard.Typing.{get_key-Returned}
use lightux.Text.{islower}
use lightux.Prelude.{ℕ, ◌≡◌, ◌≢◌, refl, arith, true, false, List, [], ◌∷◌, ◌⊎◌, ◌<◌}

abbrev zeros : ℕ → ℕ
zeros i = 0

abbrev ones : ℕ → ℕ
ones i = 1

abbrev idle : KeyInfo
idle = record { key = 0; uppercase = false }

-- GetKey halts, "A" is typed, and "S" between the read and the clearing of the key.
abbrev typing : List Event
typing =
    runs
    ∷ runs
    ∷ other
    ∷ runs
    ∷ runs
    ∷ keyboard 0x2a
    ∷ keyboard 0x1e
    ∷ runs
    ∷ runs
    ∷ keyboard 0x1f
    ∷ runs
    ∷ keyboard 0xaa
    ∷ []

typed_capital :
    get_key zeros typing (at at_test idle) ≡ at (done 0x41) (record { key = 0; uppercase = false })
unfolding get_key irq_keyboard_handler translate_to_ascii nth shifted
typed_capital = refl

-- The key comes between the test and `hlt`: it is there, and GetKey halts.
halted_with_key :
    get_key zeros (runs ∷ keyboard 0x1e ∷ runs ∷ runs ∷ []) (at at_test idle)
    ≡ at halted (record { key = 0x61; uppercase = false })
unfolding get_key irq_keyboard_handler translate_to_ascii nth shifted
halted_with_key = refl

get_key-Returned_example :
    Returned zeros typing idle (get_key zeros typing (at at_test idle))
    ⊎ ((is_done (get_key zeros typing (at at_test idle)).point ≡ false)
        × ((idle.key ≡ 0) ⊎ (steps typing < 3)))
get_key-Returned_example = get_key-Returned zeros typing idle

abbrev a_code : ℕ
a_code = 0x1e

a_key : translate_to_ascii zeros 0x1e false ≡ 0x61
unfolding translate_to_ascii nth
a_key = refl

a_some : translate_to_ascii zeros 0x1e false ≢ 0
a_some e = omega (arith, a_key, e)

a_small : islower (translate_to_ascii zeros 0x1e false) ≡ true
unfolding translate_to_ascii nth islower
a_small = refl
