-- ===== src/Shell/Print/Format.antt =====
-- The bytes that `sh_printf` and `sh_putint` put out, as lists.
pub mod Numeral
pub mod Grammar
use drupe.Base.{
  leb, ◌==◌, if◌then◌else◌, Bool-cases, u8, sub32, ◌>>=◌, ℕ, zero, suc, ◌+◌, ◌/◌, ◌%◌, ◌^◌, ◌≡◌,
  refl, sym, ap, ◌∙◌, inl, inr, true, false, ◌&&◌, Option, none, some, List, [], ◌∷◌, ◌++◌, arith,
}
use mathlib.Core.List.{append-nil, append_assoc}
use drupe.Shell.{Shell, sh_putc, sh_puts}
use drupe.Shell.Print.{
  digit, store_digits, sh_putint, Arg, arg_text, arg_word, convert, sh_printf, str, word,
}

-- the character of a digit, and the digits of a number in a base, at most `room` of them, the most
-- significant one first
abbrev digit_char : ℕ → ℕ
digit_char d = if leb d 9 then 48 + d else 87 + d

unfoldable pub digits : ℕ → ℕ → ℕ → List ℕ
digits zero base u = []
digits (suc room) base u =
    let front = digits room base (u / base) in
    if u == 0 then [] else front ++ digit_char (u % base) ∷ []

-- the text of a number without a sign, and of a number whose sign counts in base 10
unfoldable pub magnitude : ℕ → ℕ → List ℕ
magnitude u base = if u == 0 then 48 ∷ [] else digits 31 base u

unfoldable pub numeral : ℕ → ℕ → List ℕ
numeral value base =
    if base == 10 && leb (2 ^ 31) value
    then 45 ∷ magnitude (sub32 0 value) base
    else magnitude value base

-- What `sh_printf` puts out, as a function that proofs compute with; Format/Grammar says what it should
-- be. The text of a conversion, and the arguments behind it; `%u` from 2 ^ 31 on has the minus sign that
-- the code prints.
unfoldable pub converted : ℕ → List Arg → Option (List ℕ × List Arg)
converted c args =
    if c == 0x73
    then (do (s, rest) ← arg_text args; some (s, rest))
    else (if c == 0x64
        then (do (d, rest) ← arg_word args; some (numeral d 10, rest))
        else (if c == 0x75
            then (do (u, rest) ← arg_word args; some (numeral u 10, rest))
            else (if c == 0x78
                then (do (x, rest) ← arg_word args; some (numeral x 16, rest))
                else (if c == 0x70
                    then (do
                      (p, rest) ← arg_word args
                      some ((0x30 ∷ 0x78 ∷ []) ++ numeral p 16, rest))
                    else (if c == 0x63
                        then (do (k, rest) ← arg_word args; some (u8 k ∷ [], rest))
                        else (if c == 0x25
                            then some (0x25 ∷ [], args)
                            else some (0x25 ∷ c ∷ [], args)))))))

-- the whole text; `none` where `sh_printf` has no defined behaviour
unfoldable pub formatted : List ℕ → List Arg → Option (List ℕ)
formatted [] args = some []
formatted (c ∷ []) args = if c == 0x25 then none else some (c ∷ [])
formatted (c ∷ d ∷ fmt) args = elim (c == 0x25) [
  | true ↦ do (text, rest) ← converted d args; more ← formatted fmt rest; some (text ++ more)
  | false ↦ do more ← formatted (d ∷ fmt) args; some (c ∷ more)
]

pub sh_puts-append :
    (xs ys : List ℕ) (sh : Shell) → sh_puts sh (xs ++ ys) ≡ sh_puts (sh_puts sh xs) ys
unfolding sh_puts
sh_puts-append [] ys sh = refl
sh_puts-append (x ∷ xs) ys sh = sh_puts-append xs ys (sh_putc sh x)

-- The loop puts the digits in front of what the buffer holds.
store_digits-digits :
    (room u base : ℕ) (buffer : List ℕ)
    → store_digits room u base buffer ≡ digits room base u ++ buffer
unfolding store_digits digits
store_digits-digits zero u base buffer = refl
store_digits-digits (suc room) u base buffer = elim (Bool-cases (u == 0)) [
  | inl done ↦ rw done refl
  | inr more ↦
      let same : digit (u % base) ≡ digit_char (u % base) = unfold digit in ground arith in
      rw (more, same)
        (store_digits-digits room (u / base) base (digit_char (u % base) ∷ buffer)
          ∙ sym (append_assoc (digits room base (u / base)) (digit_char (u % base) ∷ []) buffer))
]

pub magnitude-eq-store :
    (u base : ℕ) → magnitude u base ≡ (if u == 0 then 0x30 ∷ [] else store_digits 31 u base [])
unfolding magnitude
magnitude-eq-store u base =
    rw (store_digits-digits 31 u base [], append-nil (digits 31 base u)) refl

-- what `sh_putint` prints
pub sh_putint-eq-puts :
    (sh : Shell) (value base : ℕ) → sh_putint sh value base ≡ sh_puts sh (numeral value base)
unfolding sh_putint sh_puts numeral
sh_putint-eq-puts sh value base =
    rw (magnitude-eq-store (sub32 0 value) base, magnitude-eq-store value base)
      (elim (Bool-cases (base == 10 && leb (2 ^ 31) value)) [
        | inl negative ↦ rw negative (elim (Bool-cases (sub32 0 value == 0)) [
          | inl nought ↦ rw nought
          | inr some_digits ↦ rw some_digits
        ])
        | inr positive ↦ rw positive (elim (Bool-cases (value == 0)) [
          | inl nought ↦ rw nought
          | inr some_digits ↦ rw some_digits
        ])
      ])

-- what `sh_printf` does for one conversion
printed : Shell → Option (List ℕ × List Arg) → Option (Shell × List Arg)
printed sh none = none
printed sh (some (text, rest)) = some (sh_puts sh text, rest)

convert-eq-printed :
    (sh : Shell) (c : ℕ) (args : List Arg) → convert sh c args ≡ printed sh (converted c args)
unfolding convert converted printed sh_puts
convert-eq-printed sh c [] = ground arith
convert-eq-printed sh c (str s ∷ args) = ground arith
convert-eq-printed sh c (word w ∷ args) = ground (
  arith,
  sh_putint-eq-puts sh w 10,
  sh_putint-eq-puts sh w 16,
  sh_putint-eq-puts (sh_putc (sh_putc sh 0x30) 0x78) w 16,
)

-- what is left to print behind a text
abbrev pub after : Shell → Option (List ℕ) → Option Shell
after sh none = none
after sh (some text) = some (sh_puts sh text)

after-append :
    (sh : Shell) (text : List ℕ) (o : Option (List ℕ))
    → after sh (o >>= λ more. some (text ++ more)) ≡ after (sh_puts sh text) o
after-append sh text none = refl
after-append sh text (some more) = ap some (sh_puts-append text more sh)

after-cons :
    (sh : Shell) (c : ℕ) (o : Option (List ℕ))
    → after sh (o >>= λ more. some (c ∷ more)) ≡ after (sh_putc sh c) o
unfolding sh_puts
after-cons sh c none = refl
after-cons sh c (some more) = refl

percent_step :
    (sh : Shell) (fmt : List ℕ) (o : Option (List ℕ × List Arg))
    → ((args : List Arg) (sh : Shell) → sh_printf sh fmt args ≡ after sh (formatted fmt args))
    → (printed sh o >>= λ x. sh_printf x.0 fmt x.1)
      ≡ after sh (o >>= λ x. formatted fmt x.1 >>= λ more. some (x.0 ++ more))
unfolding printed
percent_step sh fmt none ih = refl
percent_step sh fmt (some (text, rest)) ih =
    ih rest (sh_puts sh text) ∙ sym (after-append sh text (formatted fmt rest))

-- `sh_printf` puts out the bytes of `formatted`, and is defined where `formatted` is.
pub sh_printf-eq-puts :
    (fmt : List ℕ) (args : List Arg) (sh : Shell)
    → sh_printf sh fmt args ≡ after sh (formatted fmt args)
unfolding sh_printf formatted
sh_printf-eq-puts [] args sh = unfold sh_puts in refl
sh_printf-eq-puts (c ∷ []) args sh = unfold sh_puts in ground arith
sh_printf-eq-puts (c ∷ d ∷ fmt) args sh = elim (Bool-cases (c == 0x25)) [
  | inl percent ↦
      rw (percent, sh_printf, formatted)
        (ap (λ (o : Option (Shell × List Arg)). o >>= λ x. sh_printf x.0 fmt x.1)
            (convert-eq-printed sh d args)
          ∙ percent_step sh fmt (converted d args) (sh_printf-eq-puts fmt))
  | inr plain ↦
      rw (plain, sh_printf, formatted)
        (sh_printf-eq-puts (d ∷ fmt) args (sh_putc sh c)
          ∙ sym (after-cons sh c (formatted (d ∷ fmt) args)))
]
