-- ===== src/Text/Tests.antt =====
-- string.c and maths.c on small strings: "abc" at 100, "abd" at 200.
use lightux.Memory.{Mem}
use lightux.Text.{strlen, strcmp}
use lightux.Text.Length.{IsText, strlen_lem}
use lightux.Text.Compare.{SameText, strcmp-zero}
use lightux.Prelude.{◌≡◌, refl, arith, ◌==◌, if◌then◌else◌, Returns, returns, pos, ◌↔◌}

abbrev texts : Mem
texts a =
    if a == 100
    then 0x61
    else if a == 101
    then 0x62
    else if a == 102
    then 0x63
    else if a == 200
    then 0x61
    else if a == 201
    then 0x62
    else if a == 202
    then 0x64
    else 0

abc : IsText texts 100 3
abc = record { char = λ i h. ground arith; end = refl }

abd : IsText texts 200 3
abd = record { char = λ i h. ground arith; end = refl }

strlen_lem_example : strlen 10 100 texts ≡ returns 3 texts
strlen_lem_example = strlen_lem 3 10 100 texts abc (omega arith) (omega arith)

strcmp-zero_example :
    Returns (strcmp 10 100 200 texts) (λ r m'. (r ≡ pos 0) ↔ SameText texts 100 3 200 3)
strcmp-zero_example =
    strcmp-zero 3 3 10 100 200 texts (λ e. omega (arith, e)) (λ e. omega (arith, e))
      (λ i. ground arith) abc abd (omega arith)
