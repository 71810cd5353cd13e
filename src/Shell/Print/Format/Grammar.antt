-- ===== src/Shell/Print/Format/Grammar.antt =====
-- What `sh_printf` prints for a format and its arguments.
use drupe.Base.{
  leb, ◌==◌, chars, sub32, ◌>>=◌, ℕ, ◌-◌, ◌%◌, ◌^◌, ◌≤◌, ◌<◌, ◌≡◌, refl, ap, ◌∙◌, ◌≢◌, Bool, true,
  false, ◌||◌, none, some, List, [], ◌∷◌, ◌++◌, arith,
}
use drupe.Shell.{Shell, sh_puts}
use drupe.Shell.Print.{Arg, str, word, sh_printf}
use drupe.Shell.Print.Format.{magnitude, numeral, converted, formatted, after, sh_printf-eq-puts}

-- the letters behind a percent sign that stand for something
abbrev is_conversion : ℕ → Bool
is_conversion c = c == 115 || c == 100 || c == 117 || c == 120 || c == 112 || c == 99 || c == 37

-- The text that a format (`fmt`) and its arguments stand for, as a C programmer reads them. A number
-- for `%u` is below 2 ^ 31.
pub data Formats : List ℕ → List Arg → List ℕ → Type 0 where
  ends : (args : List Arg) → Formats [] args []
  plain :
      (c : ℕ) (fmt : List ℕ) (args : List Arg) (text : List ℕ)
      → c ≢ 37
      → Formats fmt args text
      → Formats (c ∷ fmt) args (c ∷ text)
  string :
      (s fmt : List ℕ) (args : List Arg) (text : List ℕ)
      → Formats fmt args text
      → Formats (chars "%s" ++ fmt) (str (some s) ∷ args) (s ++ text)
  null_string :
      (fmt : List ℕ) (args : List Arg) (text : List ℕ)
      → Formats fmt args text
      → Formats (chars "%s" ++ fmt) (str none ∷ args) (chars "(null)" ++ text)
  positive :
      (w : ℕ) (fmt : List ℕ) (args : List Arg) (text : List ℕ)
      → w < 2 ^ 31
      → Formats fmt args text
      → Formats (chars "%d" ++ fmt) (word w ∷ args) (magnitude w 10 ++ text)
  negative :
      (w : ℕ) (fmt : List ℕ) (args : List Arg) (text : List ℕ)
      → 2 ^ 31 ≤ w
      → w < 2 ^ 32
      → Formats fmt args text
      → Formats (chars "%d" ++ fmt) (word w ∷ args) (chars "-" ++ magnitude (2 ^ 32 - w) 10 ++ text)
  unsigned :
      (w : ℕ) (fmt : List ℕ) (args : List Arg) (text : List ℕ)
      → w < 2 ^ 31
      → Formats fmt args text
      → Formats (chars "%u" ++ fmt) (word w ∷ args) (magnitude w 10 ++ text)
  hexadecimal :
      (w : ℕ) (fmt : List ℕ) (args : List Arg) (text : List ℕ)
      → Formats fmt args text
      → Formats (chars "%x" ++ fmt) (word w ∷ args) (magnitude w 16 ++ text)
  pointer :
      (w : ℕ) (fmt : List ℕ) (args : List Arg) (text : List ℕ)
      → Formats fmt args text
      → Formats (chars "%p" ++ fmt) (word w ∷ args) (chars "0x" ++ magnitude w 16 ++ text)
  character :
      (w : ℕ) (fmt : List ℕ) (args : List Arg) (text : List ℕ)
      → Formats fmt args text
      → Formats (chars "%c" ++ fmt) (word w ∷ args) (w % 256 ∷ text)
  percent :
      (fmt : List ℕ) (args : List Arg) (text : List ℕ)
      → Formats fmt args text
      → Formats (chars "%%" ++ fmt) args (chars "%" ++ text)
  unknown :
      (c : ℕ) (fmt : List ℕ) (args : List Arg) (text : List ℕ)
      → is_conversion c ≡ false
      → Formats fmt args text
      → Formats (37 ∷ c ∷ fmt) args (37 ∷ c ∷ text)

plain-formatted :
    (c : ℕ) (fmt : List ℕ) (args : List Arg) (text : List ℕ)
    → c ≢ 37
    → formatted fmt args ≡ some text
    → formatted (c ∷ fmt) args ≡ some (c ∷ text)
unfolding formatted
plain-formatted c [] args text ne h =
    let other : (c == 37) ≡ false = ground arith in rw other (ap (λ o. o >>= λ t. some (c ∷ t)) h)
plain-formatted c (d ∷ fmt) args text ne h =
    let other : (c == 37) ≡ false = ground arith in
    rw (other, formatted) (ap (λ o. o >>= λ t. some (c ∷ t)) h)

pub Formats-formatted :
    (fmt : List ℕ) (args : List Arg) (text : List ℕ)
    → Formats fmt args text
    → formatted fmt args ≡ some text
unfolding formatted converted numeral
Formats-formatted fmt args text (ends args') = refl
Formats-formatted fmt args text (plain c fmt' args' text' ne h) =
    plain-formatted c fmt' args' text' ne (Formats-formatted fmt' args' text' h)
Formats-formatted fmt args text (string s fmt' args' text' h) =
    ap (λ o. o >>= λ t. some (s ++ t)) (Formats-formatted fmt' args' text' h)
Formats-formatted fmt args text (null_string fmt' args' text' h) =
    ap (λ o. o >>= λ t. some (chars "(null)" ++ t)) (Formats-formatted fmt' args' text' h)
Formats-formatted fmt args text (positive w fmt' args' text' small h) =
    let sign : leb (2 ^ 31) w ≡ false = ground arith in
    rw sign (ap (λ o. o >>= λ t. some (magnitude w 10 ++ t)) (Formats-formatted fmt' args' text' h))
Formats-formatted fmt args text (negative w fmt' args' text' large small h) =
    let sign : leb (2 ^ 31) w ≡ true = ground arith in
    let wrap : sub32 0 w ≡ 2 ^ 32 - w = omega arith in
    rw (sign, wrap)
      (ap (λ o. o >>= λ t. some (45 ∷ magnitude (2 ^ 32 - w) 10 ++ t))
        (Formats-formatted fmt' args' text' h))
Formats-formatted fmt args text (unsigned w fmt' args' text' small h) =
    let sign : leb (2 ^ 31) w ≡ false = ground arith in
    rw sign (ap (λ o. o >>= λ t. some (magnitude w 10 ++ t)) (Formats-formatted fmt' args' text' h))
Formats-formatted fmt args text (hexadecimal w fmt' args' text' h) =
    ap (λ o. o >>= λ t. some (magnitude w 16 ++ t)) (Formats-formatted fmt' args' text' h)
Formats-formatted fmt args text (pointer w fmt' args' text' h) =
    ap (λ o. o >>= λ t. some (48 ∷ 120 ∷ magnitude w 16 ++ t))
      (Formats-formatted fmt' args' text' h)
Formats-formatted fmt args text (character w fmt' args' text' h) =
    ap (λ o. o >>= λ t. some (w % 256 ∷ t)) (Formats-formatted fmt' args' text' h)
Formats-formatted fmt args text (percent fmt' args' text' h) =
    ap (λ o. o >>= λ t. some (37 ∷ t)) (Formats-formatted fmt' args' text' h)
Formats-formatted fmt args text (unknown c fmt' args' text' other h) =
    let s : (c == 115) ≡ false = ground arith in
    let d : (c == 100) ≡ false = ground arith in
    let u : (c == 117) ≡ false = ground arith in
    let x : (c == 120) ≡ false = ground arith in
    let p : (c == 112) ≡ false = ground arith in
    let k : (c == 99) ≡ false = ground arith in
    let same : (c == 37) ≡ false = ground arith in
    rw (s, d, u, x, p, k, same)
      (ap (λ o. o >>= λ t. some (37 ∷ c ∷ t)) (Formats-formatted fmt' args' text' h))

-- Where a format and its arguments stand for a text (with the least digits for a number, a minus sign
-- for a negative one, "(null)" for the null pointer, and the percent sign and the letter themselves
-- for an unknown conversion), with no number for `%u` from 2 ^ 31 on, `sh_printf` prints exactly this
-- text, as `sh_puts` does.
pub sh_printf-Formats :
    (fmt : List ℕ) (args : List Arg) (text : List ℕ) (sh : Shell)
    → Formats fmt args text
    → sh_printf sh fmt args ≡ some (sh_puts sh text)
sh_printf-Formats fmt args text sh h =
    sh_printf-eq-puts fmt args sh ∙ ap (after sh) (Formats-formatted fmt args text h)
