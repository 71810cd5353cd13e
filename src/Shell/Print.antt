-- ===== src/Shell/Print.antt =====
-- `sh_putint` and `sh_printf`.
pub mod Format
use drupe.Base.{
  ltb, leb, ◌==◌, if◌then◌else◌, u8, sub32, ◌>>=◌, ℕ, zero, suc, ◌+◌, ◌-◌, ◌/◌, ◌%◌, ◌^◌, true,
  false, ◌&&◌, Option, none, some, List, [], ◌∷◌,
}
use drupe.Shell.{Shell, sh_putc, sh_puts}

-- `digits[d]` of "0123456789abcdef"
unfoldable pub digit : ℕ → ℕ
digit d = if ltb d 10 then 0x30 + d else 0x61 + (d - 10)

-- The loop that fills the buffer, with room for `left` more digits. The list is what stands in the
-- buffer, the last digit stored first, which is the order in which the second loop prints it.
unfoldable pub store_digits : ℕ → ℕ → ℕ → List ℕ → List ℕ
unfolding digit
store_digits zero uvalue base buffer = buffer
store_digits (suc left) uvalue base buffer =
    let rest = store_digits left (uvalue / base) base (digit (uvalue % base) ∷ buffer) in
    if uvalue == 0 then buffer else rest

-- `value` is the bit pattern of the `int`. `-value` wraps for the least `int`.
unfoldable pub sh_putint : Shell → ℕ → ℕ → Shell
sh_putint sh value base =
    let negative = base == 10 && leb (2 ^ 31) value in
    let sh' = if negative then sh_putc sh 0x2D else sh in
    let uvalue = if negative then sub32 0 value else value in
    if uvalue == 0 then sh_putc sh' 0x30 else sh_puts sh' (store_digits 31 uvalue base [])

-- What a `va_arg` may find: a string, or the null pointer, or a word of 32 bits.
pub data Arg : Type 0 where
  str : Option (List ℕ) → Arg
  word : ℕ → Arg

-- "(null)"
abbrev pub null_text : List ℕ
null_text = 0x28 ∷ 0x6E ∷ 0x75 ∷ 0x6C ∷ 0x6C ∷ 0x29 ∷ []

abbrev pub text_or_null : Option (List ℕ) → List ℕ
text_or_null none = null_text
text_or_null (some s) = s

abbrev pub arg_text : List Arg → Option (List ℕ × List Arg)
arg_text [] = none
arg_text (str s ∷ args) = some (text_or_null s, args)
arg_text (word w ∷ args) = none

abbrev pub arg_word : List Arg → Option (ℕ × List Arg)
arg_word [] = none
arg_word (str s ∷ args) = none
arg_word (word w ∷ args) = some (w, args)

-- The `switch` of `sh_printf` on the byte behind a percent sign. `none` for an argument that is
-- missing or of another type.
unfoldable pub convert : Shell → ℕ → List Arg → Option (Shell × List Arg)
convert sh c args =
    if c == 0x73
    then (do (s, rest) ← arg_text args; some (sh_puts sh s, rest))
    else (if c == 0x64
        then (do (d, rest) ← arg_word args; some (sh_putint sh d 10, rest))
        else (if c == 0x75
            then (do (u, rest) ← arg_word args; some (sh_putint sh u 10, rest))
            else (if c == 0x78
                then (do (x, rest) ← arg_word args; some (sh_putint sh x 16, rest))
                else (if c == 0x70
                    then (do
                      (p, rest) ← arg_word args
                      some (sh_putint (sh_puts sh (0x30 ∷ 0x78 ∷ [])) p 16, rest))
                    else (if c == 0x63
                        then (do (k, rest) ← arg_word args; some (sh_putc sh (u8 k), rest))
                        else (if c == 0x25
                            then some (sh_putc sh 0x25, args)
                            else some (sh_putc (sh_putc sh 0x25) c, args)))))))

-- `none` also for a percent sign at the end, behind which the loop runs past the end of the format.
unfoldable pub sh_printf : Shell → List ℕ → List Arg → Option Shell
sh_printf sh [] args = some sh
sh_printf sh (c ∷ []) args = if c == 0x25 then none else some (sh_putc sh c)
sh_printf sh (c ∷ d ∷ fmt) args = elim (c == 0x25) [
  | true ↦ do (sh', rest) ← convert sh d args; sh_printf sh' fmt rest
  | false ↦ sh_printf (sh_putc sh c) (d ∷ fmt) args
]
