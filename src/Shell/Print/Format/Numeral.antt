-- ===== src/Shell/Print/Format/Numeral.antt =====
-- The numerals that `sh_putint` prints, read back.
use drupe.Base.{
  ltb, leb, ◌==◌, if◌then◌else◌, Bool-cases, sub32, ℤ, signed32, pos, negsuc, ℕ, zero, suc, ◌+◌,
  ◌-◌, ◌*◌, ◌/◌, ◌%◌, ◌^◌, ◌≤◌, ◌<◌, ◌≡◌, refl, ap, ◌∙◌, ◌≢◌, inl, inr, true, false, some, List, [],
  ◌∷◌, ◌++◌, arith,
}
use native.Mathlib.Decide.{dec_lt}
use mathlib.Core.List.{append-nil}
use native.Mathlib.Nat.{pow-suc, div-lt_iff_lt-mul, mul-le-mul_left, div-add-mod', mod-lt}
use drupe.Shell.Print.{sh_putint, digit, store_digits, word}
use drupe.Shell.{Shell, sh_puts}
use drupe.Shell.Print.Format.{sh_putint-eq-puts, magnitude-eq-store, numeral, formatted, converted}

-- the value of a digit, and of a row of digits behind the value `acc`
unfoldable pub digit_value : ℕ → ℕ
digit_value c = if ltb c 0x3A then c - 0x30 else c - 0x61 + 10

unfoldable pub number : ℕ → ℕ → List ℕ → ℕ
number base acc [] = acc
number base acc (c ∷ cs) = number base (acc * base + digit_value c) cs

digit_value-digit : (d : ℕ) → d < 16 → digit_value (digit d) ≡ d
unfolding digit_value digit
digit_value-digit d h = ground arith

-- Eight to the power of the room that is left bounds the numbers that the buffer has room for.
number-store_digits :
    (left u base : ℕ) (buffer : List ℕ)
    → 8 ≤ base
    → base ≤ 16
    → u < 8 ^ left
    → number base 0 (store_digits left u base buffer) ≡ number base u buffer
unfolding store_digits number
number-store_digits zero u base buffer lo hi h =
    let e : 0 ≡ u = omega arith in ap (λ k. number base k buffer) e
number-store_digits (suc left) u base buffer lo hi h = elim (Bool-cases (u == 0)) [
  | inl done ↦ let e : 0 ≡ u = ground arith in rw done (ap (λ k. number base k buffer) e)
  | inr more ↦
      let last = digit_value-digit (u % base) (omega (arith, mod-lt u {m = base})) in
      let smaller : u / base < 8 ^ left =
        (div-lt_iff_lt-mul (omega arith)).1
          (omega (arith, pow-suc 8 left, mul-le-mul_left (8 ^ left) lo)) in
      let whole : u / base * base + digit_value (digit (u % base)) ≡ u =
        omega (arith, last, div-add-mod' u base) in
      rw more (
        number-store_digits left (u / base) base (digit (u % base) ∷ buffer) lo hi smaller
        ∙ ap (λ k. number base k buffer) whole)
]

-- Nothing, or a first byte that is no minus sign.
abbrev NotMinus : List ℕ → Type 0
NotMinus [] = Unit {0}
NotMinus (c ∷ cs) = c ≢ 0x2D

digit-ne_minus : (d : ℕ) → digit d ≢ 0x2D
unfolding digit
digit-ne_minus d = ground arith

store_digits-NotMinus :
    (left u base : ℕ) (buffer : List ℕ)
    → NotMinus buffer
    → NotMinus (store_digits left u base buffer)
unfolding store_digits
store_digits-NotMinus zero u base buffer h = h
store_digits-NotMinus (suc left) u base buffer h = elim (Bool-cases (u == 0)) [
  | inl done ↦ rw done h
  | inr more ↦ rw more (
      store_digits-NotMinus left (u / base) base (digit (u % base) ∷ buffer)
        (digit-ne_minus (u % base)))
]

abbrev minus : ℕ → ℤ
minus zero = pos 0
minus (suc n) = negsuc n

-- A decimal numeral with an optional minus sign.
unfoldable pub read_decimal : List ℕ → ℤ
unfolding number
read_decimal [] = pos 0
read_decimal (c ∷ cs) = if c == 0x2D then minus (number 10 0 cs) else pos (number 10 0 (c ∷ cs))

read_decimal-digits : (cs : List ℕ) → NotMinus cs → read_decimal cs ≡ pos (number 10 0 cs)
unfolding read_decimal number
read_decimal-digits [] h = refl
read_decimal-digits (c ∷ cs) h = ground arith

digits_value :
    (u base : ℕ)
    → 8 ≤ base
    → base ≤ 16
    → u < 2 ^ 32
    → number base 0 (if u == 0 then 0x30 ∷ [] else store_digits 31 u base []) ≡ u
unfolding number digit_value
digits_value u base lo hi h = elim (Bool-cases (u == 0)) [
  | inl nought ↦ rw nought (ground arith)
  | inr more ↦ rw more (number-store_digits 31 u base [] lo hi (omega arith))
]

digits-NotMinus : (u base : ℕ) → NotMinus (if u == 0 then 0x30 ∷ [] else store_digits 31 u base [])
digits-NotMinus u base = elim (Bool-cases (u == 0)) [
  | inl nought ↦ rw nought (λ e. cc)
  | inr more ↦ rw more (store_digits-NotMinus 31 u base [] tt)
]

abbrev digits_of : ℕ → List ℕ
digits_of u = if u == 0 then 0x30 ∷ [] else store_digits 31 u 10 []

numeral-negative :
    (value : ℕ)
    → 2 ^ 31 ≤ value
    → value < 2 ^ 32
    → numeral value 10 ≡ 0x2D ∷ digits_of (2 ^ 32 - value)
unfolding numeral
numeral-negative value lo hi =
    let sign : leb (2 ^ 31) value ≡ true = ground arith in
    let wrap : sub32 0 value ≡ 2 ^ 32 - value = omega arith in
    rw (sign, wrap, magnitude-eq-store (2 ^ 32 - value) 10) refl

numeral-positive : (value : ℕ) → value < 2 ^ 31 → numeral value 10 ≡ digits_of value
unfolding numeral
numeral-positive value h =
    let sign : leb (2 ^ 31) value ≡ false = ground arith in
    rw (sign, magnitude-eq-store value 10) refl

minus-negsuc : (n : ℕ) → 0 < n → minus n ≡ negsuc (n - 1)
minus-negsuc zero h = absurd (omega arith)
minus-negsuc (suc n) h = ap negsuc (omega arith)

read_decimal-minus : (cs : List ℕ) → read_decimal (0x2D ∷ cs) ≡ minus (number 10 0 cs)
unfolding read_decimal
read_decimal-minus cs = refl

read_decimal-numeral :
    (value : ℕ) → value < 2 ^ 32 → read_decimal (numeral value 10) ≡ signed32 value
read_decimal-numeral value h = elim (dec_lt value (2 ^ 31)) [
  | yes positive ↦ rw (numeral-positive value positive) (
      read_decimal-digits (digits_of value) (digits-NotMinus value 10)
      ∙ ap pos (digits_value value 10 (omega arith) (omega arith) h)
      ∙ ground arith)
  | no negative ↦
      rw
        (
          numeral-negative value (omega arith) h,
          read_decimal-minus,
          digits_value (2 ^ 32 - value) 10 (omega arith) (omega arith) (omega arith),
        )
        (minus-negsuc (2 ^ 32 - value) (omega arith) ∙ ground arith)
]

number-numeral_hex : (value : ℕ) → value < 2 ^ 32 → number 16 0 (numeral value 16) ≡ value
unfolding numeral
number-numeral_hex value h =
    ap (λ cs. number 16 0 cs) (magnitude-eq-store value 16)
    ∙ digits_value value 16 (omega arith) (omega arith) h

-- What `sh_putint` prints in base 10 reads back to the `int` that it was given, for every `int`, and
-- what it prints in base 16 to the word that it was given.
pub sh_putint-reads :
    (sh : Shell) (value : ℕ)
    → value < 2 ^ 32
    → (decimal hex : List ℕ) × (sh_putint sh value 10 ≡ sh_puts sh decimal)
      × (read_decimal decimal ≡ signed32 value)
      × (sh_putint sh value 16 ≡ sh_puts sh hex)
      × (number 16 0 hex ≡ value)
sh_putint-reads sh value h = (
  numeral value 10,
  numeral value 16,
  sh_putint-eq-puts sh value 10,
  read_decimal-numeral value h,
  sh_putint-eq-puts sh value 16,
  number-numeral_hex value h,
)

-- The conversion for an unsigned number prints every number from 2 ^ 31 on with a minus sign.
formatted-unsigned_minus :
    (value : ℕ)
    → 2 ^ 31 ≤ value
    → value < 2 ^ 32
    → (digits : List ℕ) × (formatted (0x25 ∷ 0x75 ∷ []) (word value ∷ []) ≡ some (0x2D ∷ digits))
      × (number 10 0 digits ≡ 2 ^ 32 - value)
unfolding formatted converted
formatted-unsigned_minus value lo hi = (
  digits_of (2 ^ 32 - value),
  ap (λ text. some (text ++ [])) (numeral-negative value lo hi)
      ∙ ap (λ text. some (0x2D ∷ text)) (append-nil (digits_of (2 ^ 32 - value))),
  digits_value (2 ^ 32 - value) 10 (omega arith) (omega arith) (omega arith),
)
