-- ===== src/Printf/Directives.antt =====
-- What a format prints: its directives, one after another.
use lightux.Printf.{
  puts_internal, digits, printf_signed, printf_unsigned, Printf, state_normal, Length,
  length_default, length_long, length_long_long, signed_argument, unsigned_argument, printf_loop,
  printf_internal,
}
use lightux.Prelude.{
  ℕ, ◌+◌, ◌^◌, ◌≡◌, ◌≢◌, refl, ap, sym, ◌∙◌, Bool, true, false, ltb, if◌then◌else◌, List, [], ◌∷◌,
  ◌++◌, u8, sub64, ne→==-false, Bool-cases, inl, inr, ◌%◌,
}

-- A number's size: nothing, `l` or `ll`.
pub data Size : Type 0 where
  plain : Size
  long : Size
  long_long : Size

-- A character other than `%`; %c, %s and %%; %d, %u, %x and %o with a size.
pub data Directive : Type 0 where
  text : ℕ → Directive
  char : Directive
  string : Directive
  percent : Directive
  decimal : Size → Directive
  natural : Size → Directive
  hex : Size → Directive
  octal : Size → Directive

abbrev letters : Size → List ℕ → List ℕ
letters plain rest = rest
letters long rest = 108 ∷ rest
letters long_long rest = 108 ∷ 108 ∷ rest

abbrev pub length_of : Size → Length
length_of plain = length_default
length_of long = length_long
length_of long_long = length_long_long

-- The format of a list of directives.
abbrev pub encode : List Directive → List ℕ
encode [] = []
encode (text c ∷ ds) = c ∷ encode ds
encode (char ∷ ds) = 37 ∷ 99 ∷ encode ds
encode (string ∷ ds) = 37 ∷ 115 ∷ encode ds
encode (percent ∷ ds) = 37 ∷ 37 ∷ encode ds
encode (decimal z ∷ ds) = 37 ∷ letters z (100 ∷ encode ds)
encode (natural z ∷ ds) = 37 ∷ letters z (117 ∷ encode ds)
encode (hex z ∷ ds) = 37 ∷ letters z (120 ∷ encode ds)
encode (octal z ∷ ds) = 37 ∷ letters z (111 ∷ encode ds)

-- A number in two's complement of 64 bits, in decimal.
abbrev pub signed_text : (word : ℕ) → List ℕ
signed_text word = if ltb word (2 ^ 63) then digits word 10 else 0x2d ∷ digits (sub64 0 word) 10

module _ (strings : ℕ → List ℕ) (args : ℕ → ℕ) where
  -- What the directives ask for, from argument `next` on.
  abbrev pub meant : List Directive → (next : ℕ) → List ℕ
  meant [] next = []
  meant (text c ∷ ds) next = c ∷ meant ds next
  meant (char ∷ ds) next = u8 (args next) ∷ meant ds (next + 1)
  meant (string ∷ ds) next = strings (args next) ++ meant ds (next + 1)
  meant (percent ∷ ds) next = 37 ∷ meant ds next
  meant (decimal z ∷ ds) next =
      signed_text (signed_argument (length_of z) (args next)) ++ meant ds (next + 1)
  meant (natural z ∷ ds) next =
      digits (unsigned_argument (length_of z) (args next)) 10 ++ meant ds (next + 1)
  meant (hex z ∷ ds) next =
      digits (unsigned_argument (length_of z) (args next)) 16 ++ meant ds (next + 1)
  meant (octal z ∷ ds) next =
      digits (unsigned_argument (length_of z) (args next)) 8 ++ meant ds (next + 1)

-- No character of the text is `%`, and behind a number there are only numbers and text.
abbrev pub Allowed : (behind_number : Bool) → List Directive → Type 0
Allowed b [] = Unit {0}
Allowed b (text c ∷ ds) = (c ≢ 37) × Allowed b ds
Allowed b (char ∷ ds) = (b ≡ false) × Allowed b ds
Allowed b (string ∷ ds) = (b ≡ false) × Allowed b ds
Allowed b (percent ∷ ds) = (b ≡ false) × Allowed b ds
Allowed b (decimal z ∷ ds) = Allowed true ds
Allowed b (natural z ∷ ds) = Allowed true ds
Allowed b (hex z ∷ ds) = Allowed true ds
Allowed b (octal z ∷ ds) = Allowed true ds

module _ {S : Type 0} (putc : ℕ → S → S) where
  puts_internal-append :
      (a b : List ℕ) (s : S)
      → puts_internal putc (a ++ b) s ≡ puts_internal putc b (puts_internal putc a s)
  unfolding puts_internal
  puts_internal-append [] b s = refl
  puts_internal-append (c ∷ a) b s = puts_internal-append a b (putc c s)

  printf_signed-text :
      (word : ℕ) (s : S) → printf_signed putc word 10 s ≡ puts_internal putc (signed_text word) s
  unfolding printf_signed printf_unsigned puts_internal
  printf_signed-text word s = elim (Bool-cases (ltb word (2 ^ 63))) [
    | inl e ↦ rw e refl
    | inr e ↦ rw e refl
  ]

module _ {S : Type 0} (putc : ℕ → S → S) (strings : ℕ → List ℕ) (args : ℕ → ℕ) where
  abbrev at : (number : Bool) (next : ℕ) → S → Printf S
  at number next s = record {
    state = state_normal;
    length = length_default;
    radix = 10;
    sign = false;
    number = number;
    next = next;
    out = s;
  }

  printf_loop-decimal :
      (z : Size) (b : Bool) (fmt : List ℕ) (next : ℕ) (s : S)
      → printf_loop putc strings args (37 ∷ letters z (100 ∷ fmt)) (at b next s)
        ≡ printf_loop putc strings args fmt (
            at true
              (next + 1)
              (printf_signed putc (signed_argument (length_of z) (args next)) 10 s))
  unfolding printf_loop
  printf_loop-decimal plain b fmt next s = refl
  printf_loop-decimal long b fmt next s = refl
  printf_loop-decimal long_long b fmt next s = refl

  printf_loop-natural :
      (z : Size) (b : Bool) (fmt : List ℕ) (next : ℕ) (s : S)
      → printf_loop putc strings args (37 ∷ letters z (117 ∷ fmt)) (at b next s)
        ≡ printf_loop putc strings args fmt (
            at true
              (next + 1)
              (printf_unsigned putc (unsigned_argument (length_of z) (args next)) 10 s))
  unfolding printf_loop
  printf_loop-natural plain b fmt next s = refl
  printf_loop-natural long b fmt next s = refl
  printf_loop-natural long_long b fmt next s = refl

  printf_loop-hex :
      (z : Size) (b : Bool) (fmt : List ℕ) (next : ℕ) (s : S)
      → printf_loop putc strings args (37 ∷ letters z (120 ∷ fmt)) (at b next s)
        ≡ printf_loop putc strings args fmt (
            at true
              (next + 1)
              (printf_unsigned putc (unsigned_argument (length_of z) (args next)) 16 s))
  unfolding printf_loop
  printf_loop-hex plain b fmt next s = refl
  printf_loop-hex long b fmt next s = refl
  printf_loop-hex long_long b fmt next s = refl

  printf_loop-octal :
      (z : Size) (b : Bool) (fmt : List ℕ) (next : ℕ) (s : S)
      → printf_loop putc strings args (37 ∷ letters z (111 ∷ fmt)) (at b next s)
        ≡ printf_loop putc strings args fmt (
            at true
              (next + 1)
              (printf_unsigned putc (unsigned_argument (length_of z) (args next)) 8 s))
  unfolding printf_loop
  printf_loop-octal plain b fmt next s = refl
  printf_loop-octal long b fmt next s = refl
  printf_loop-octal long_long b fmt next s = refl

  printf_loop-text :
      (c : ℕ) (b : Bool) (fmt : List ℕ) (next : ℕ) (s : S)
      → c ≢ 37
      → printf_loop putc strings args (c ∷ fmt) (at b next s)
        ≡ printf_loop putc strings args fmt (at b next (putc c s))
  unfolding printf_loop
  printf_loop-text c b fmt next s h = rw (ne→==-false c 37 h) refl

  printf_loop-char :
      (fmt : List ℕ) (next : ℕ) (s : S)
      → printf_loop putc strings args (37 ∷ 99 ∷ fmt) (at false next s)
        ≡ printf_loop putc strings args fmt (at false (next + 1) (putc (u8 (args next)) s))
  unfolding printf_loop
  printf_loop-char fmt next s = refl

  printf_loop-string :
      (fmt : List ℕ) (next : ℕ) (s : S)
      → printf_loop putc strings args (37 ∷ 115 ∷ fmt) (at false next s)
        ≡ printf_loop putc strings args fmt
            (at false (next + 1) (puts_internal putc (strings (args next)) s))
  unfolding printf_loop
  printf_loop-string fmt next s = refl

  printf_loop-percent :
      (fmt : List ℕ) (next : ℕ) (s : S)
      → printf_loop putc strings args (37 ∷ 37 ∷ fmt) (at false next s)
        ≡ printf_loop putc strings args fmt (at false next (putc 37 s))
  unfolding printf_loop
  printf_loop-percent fmt next s = refl

  -- A number that has been printed, and what follows it.
  after_number :
      (ds : List Directive) (number : List ℕ) (next : ℕ) (s s' : S)
      → s' ≡ puts_internal putc number s
      → (printf_loop putc strings args (encode ds) (at true (next + 1) s')).out
        ≡ puts_internal putc (meant strings args ds (next + 1)) s'
      → (printf_loop putc strings args (encode ds) (at true (next + 1) s')).out
        ≡ puts_internal putc (number ++ meant strings args ds (next + 1)) s
  after_number ds number next s s' same rest =
      rest
      ∙ ap (puts_internal putc (meant strings args ds (next + 1))) same
      ∙ sym (puts_internal-append putc number (meant strings args ds (next + 1)) s)

  printf_unsigned-digits :
      (n radix : ℕ) (s : S) → printf_unsigned putc n radix s ≡ puts_internal putc (digits n radix) s
  unfolding printf_unsigned
  printf_unsigned-digits n radix s = refl

  puts_internal-nil : (s : S) → puts_internal putc [] s ≡ s
  unfolding puts_internal
  puts_internal-nil s = refl

  puts_internal-cons :
      (c : ℕ) (cs : List ℕ) (s : S)
      → puts_internal putc (c ∷ cs) s ≡ puts_internal putc cs (putc c s)
  unfolding puts_internal
  puts_internal-cons c cs s = refl

  printf_loop-nil : (p : Printf S) → printf_loop putc strings args [] p ≡ p
  unfolding printf_loop
  printf_loop-nil p = refl

  printf_loop-meant :
      (ds : List Directive) (b : Bool) (next : ℕ) (s : S)
      → Allowed b ds
      → (printf_loop putc strings args (encode ds) (at b next s)).out
        ≡ puts_internal putc (meant strings args ds next) s
  printf_loop-meant [] b next s h = rw (printf_loop-nil (at b next s), puts_internal-nil s) refl
  printf_loop-meant (text c ∷ ds) b next s (h, more) =
      ap (λ p. p.out) (printf_loop-text c b (encode ds) next s h)
      ∙ printf_loop-meant ds b next (putc c s) more
      ∙ sym (puts_internal-cons c (meant strings args ds next) s)
  printf_loop-meant (char ∷ ds) false next s (h, more) =
      ap (λ p. p.out) (printf_loop-char (encode ds) next s)
      ∙ printf_loop-meant ds false (next + 1) (putc (u8 (args next)) s) more
      ∙ sym (puts_internal-cons (u8 (args next)) (meant strings args ds (next + 1)) s)
  printf_loop-meant (char ∷ ds) true next s (h, more) = cc
  printf_loop-meant (string ∷ ds) false next s (h, more) =
      ap (λ p. p.out) (printf_loop-string (encode ds) next s)
      ∙ printf_loop-meant ds false (next + 1) (puts_internal putc (strings (args next)) s) more
      ∙ sym (puts_internal-append putc (strings (args next)) (meant strings args ds (next + 1)) s)
  printf_loop-meant (string ∷ ds) true next s (h, more) = cc
  printf_loop-meant (percent ∷ ds) false next s (h, more) =
      ap (λ p. p.out) (printf_loop-percent (encode ds) next s)
      ∙ printf_loop-meant ds false next (putc 37 s) more
      ∙ sym (puts_internal-cons 37 (meant strings args ds next) s)
  printf_loop-meant (percent ∷ ds) true next s (h, more) = cc
  printf_loop-meant (decimal z ∷ ds) b next s more =
      ap (λ p. p.out) (printf_loop-decimal z b (encode ds) next s)
      ∙ after_number ds (signed_text (signed_argument (length_of z) (args next))) next s
          (printf_signed putc (signed_argument (length_of z) (args next)) 10 s)
          (printf_signed-text putc (signed_argument (length_of z) (args next)) s)
          (printf_loop-meant ds true (next + 1)
            (printf_signed putc (signed_argument (length_of z) (args next)) 10 s) more)
  printf_loop-meant (natural z ∷ ds) b next s more =
      ap (λ p. p.out) (printf_loop-natural z b (encode ds) next s)
      ∙ after_number ds (digits (unsigned_argument (length_of z) (args next)) 10) next s
          (printf_unsigned putc (unsigned_argument (length_of z) (args next)) 10 s)
          (printf_unsigned-digits (unsigned_argument (length_of z) (args next)) 10 s)
          (printf_loop-meant ds true (next + 1)
            (printf_unsigned putc (unsigned_argument (length_of z) (args next)) 10 s) more)
  printf_loop-meant (hex z ∷ ds) b next s more =
      ap (λ p. p.out) (printf_loop-hex z b (encode ds) next s)
      ∙ after_number ds (digits (unsigned_argument (length_of z) (args next)) 16) next s
          (printf_unsigned putc (unsigned_argument (length_of z) (args next)) 16 s)
          (printf_unsigned-digits (unsigned_argument (length_of z) (args next)) 16 s)
          (printf_loop-meant ds true (next + 1)
            (printf_unsigned putc (unsigned_argument (length_of z) (args next)) 16 s) more)
  printf_loop-meant (octal z ∷ ds) b next s more =
      ap (λ p. p.out) (printf_loop-octal z b (encode ds) next s)
      ∙ after_number ds (digits (unsigned_argument (length_of z) (args next)) 8) next s
          (printf_unsigned putc (unsigned_argument (length_of z) (args next)) 8 s)
          (printf_unsigned-digits (unsigned_argument (length_of z) (args next)) 8 s)
          (printf_loop-meant ds true (next + 1)
            (printf_unsigned putc (unsigned_argument (length_of z) (args next)) 8 s) more)

  -- A format made of directives, in which no %c, %s or %% stands behind a number, prints what they ask
  -- for, each from the next argument.
  pub printf_internal-meant :
      (ds : List Directive) (s : S)
      → Allowed false ds
      → printf_internal putc strings args (encode ds) s
        ≡ puts_internal putc (meant strings args ds 0) s
  unfolding printf_internal
  printf_internal-meant ds s h = printf_loop-meant ds false 0 s h

  printf_loop-char_kept :
      (fmt : List ℕ) (next : ℕ) (s : S)
      → printf_loop putc strings args (37 ∷ 99 ∷ fmt) (at true next s)
        ≡ printf_loop putc strings args fmt (
            at true
              (next + 1 + 1)
              (printf_unsigned putc (args (next + 1) % 2 ^ 32) 10 (putc (u8 (args next)) s)))
  unfolding printf_loop
  printf_loop-char_kept fmt next s = refl

  -- A %c behind a %d takes two arguments: it prints the first as a character, and the second as an
  -- unsigned number.
  pub printf_internal-number_kept :
      (z : Size) (ds : List Directive) (s : S)
      → Allowed true ds
      → printf_internal putc strings args (encode (decimal z ∷ char ∷ ds)) s
        ≡ puts_internal putc
            (signed_text (signed_argument (length_of z) (args 0))
              ++ (u8 (args 1) ∷ digits (args 2 % 2 ^ 32) 10 ++ meant strings args ds 3))
            s
  unfolding printf_internal
  printf_internal-number_kept z ds s h =
      let word = signed_argument (length_of z) (args 0) in
      let s1 = printf_signed putc word 10 s in
      let s2 = printf_unsigned putc (args 2 % 2 ^ 32) 10 (putc (u8 (args 1)) s1) in
      ap (λ p. p.out) (printf_loop-decimal z false (37 ∷ 99 ∷ encode ds) 0 s)
      ∙ ap (λ p. p.out) (printf_loop-char_kept (encode ds) 1 s1)
      ∙ printf_loop-meant ds true 3 s2 h
      ∙ ap (puts_internal putc (meant strings args ds 3))
          (printf_unsigned-digits (args 2 % 2 ^ 32) 10 (putc (u8 (args 1)) s1))
      ∙ sym (
          puts_internal-append putc (digits (args 2 % 2 ^ 32) 10) (meant strings args ds 3)
            (putc (u8 (args 1)) s1))
      ∙ sym (
          puts_internal-cons (u8 (args 1)) (digits (args 2 % 2 ^ 32) 10 ++ meant strings args ds 3)
            s1)
      ∙ ap
          (puts_internal putc
            (u8 (args 1) ∷ digits (args 2 % 2 ^ 32) 10 ++ meant strings args ds 3))
          (printf_signed-text putc word s)
      ∙ sym (
          puts_internal-append putc (signed_text word)
            (u8 (args 1) ∷ digits (args 2 % 2 ^ 32) 10 ++ meant strings args ds 3) s)
