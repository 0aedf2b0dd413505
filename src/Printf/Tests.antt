-- ===== src/Printf/Tests.antt =====
-- printf.c: "n=%d, %lx" and "%s%%%u", with what is printed in a list.
use lightux.Printf.{puts_internal, digits, printf_internal, signed_argument}
use lightux.Printf.Numerals.{value, count, digits-value, digits-count}
use lightux.Printf.Directives.{
  plain, long, Directive, text, char, string, percent, decimal, natural, hex, encode, signed_text,
  length_of, meant, printf_internal-meant, printf_internal-number_kept,
}
use lightux.Prelude.{
  ℕ, ◌+◌, ◌^◌, ◌≤◌, ◌≡◌, refl, List, [], ◌∷◌, ◌++◌, if◌then◌else◌, ◌==◌, ◌%◌, u8, arith,
}

digits-value_example : value 16 0 (digits 0xbeef 16) ≡ 0xbeef
digits-value_example = digits-value 0xbeef 16 (omega arith) (omega arith) (omega arith)

digits-count_example : count (digits 0xffff_ffff_ffff_ffff 8) ≤ 22
digits-count_example = digits-count 0xffff_ffff_ffff_ffff 8 (omega arith) (omega arith)

abbrev print : ℕ → List ℕ → List ℕ
print c s = s ++ (c ∷ [])

abbrev words : ℕ → ℕ
words i = if i == 0 then 0xffff_fff6 else 0x2a + i

abbrev hello : ℕ → List ℕ
hello address = 104 ∷ 105 ∷ []

abbrev greeting : List Directive
greeting = text 110 ∷ string ∷ percent ∷ decimal plain ∷ text 44 ∷ hex long ∷ []

printf_internal-meant_example :
    printf_internal print hello words (encode greeting) []
    ≡ puts_internal print (meant hello words greeting 0) []
printf_internal-meant_example =
    printf_internal-meant print hello words greeting []
      ((λ e. omega (arith, e)), (refl, (refl, ((λ e. omega (arith, e)), tt))))

abbrev ending : List Directive
ending = natural long ∷ []

printf_internal-number_kept_example :
    printf_internal print hello words (encode (decimal plain ∷ char ∷ ending)) []
    ≡ puts_internal print
        (signed_text (signed_argument (length_of plain) (words 0))
          ++ (u8 (words 1) ∷ digits (words 2 % 2 ^ 32) 10 ++ meant hello words ending 3))
        []
printf_internal-number_kept_example =
    printf_internal-number_kept print hello words plain ending [] tt
