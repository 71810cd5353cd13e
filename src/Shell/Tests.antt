-- ===== src/Shell/Tests.antt =====
-- Runs on a screen of three rows of four cells, and the theorems at concrete shells.
use drupe.Base.{chars, replicate, negsuc, ℕ, ◌-◌, ◌≡◌, refl, none, some, List, [], ◌∷◌, arith}
use drupe.Stream.{Stream}
use drupe.Stream.Stuck.{IsStuck}
use drupe.Shell.Display.{
  Screen, Cell, sh_scroll, sh_clear, render_char, render_chars, blank, cell_at,
}
use drupe.Shell.Display.Scroll.{IsShaped, sh_scroll_lem, sh_clear_lem}
use drupe.Shell.Display.Inv.{IsValid, render_char-typed}
use drupe.Shell.Render.{sh_render-Rendered, Rendered}
use drupe.Shell.Render.Puts.{IsIdle, sh_puts-types, sh_puts-frozen, Lands, plain}
use drupe.Shell.Print.{str, word, sh_putint, sh_printf}
use drupe.Shell.Print.Format.{magnitude, digits, numeral}
use drupe.Shell.Print.Format.Grammar.{negative, null_string, ends, sh_printf-Formats}
use drupe.Shell.Print.Format.Numeral.{read_decimal, number, sh_putint-reads}
use drupe.Shell.{Shell, sh_render, sh_puts}

abbrev key : ℕ → Cell
key c = record { character = c; color = 0x07 }

-- the rows "ABCD", "EFGH" and "IJ", the cursor behind the J
abbrev letters : Screen
letters = record {
  memory =
      key 65
      ∷ key 66
      ∷ key 67
      ∷ key 68
      ∷ key 69
      ∷ key 70
      ∷ key 71
      ∷ key 72
      ∷ key 73
      ∷ key 74
      ∷ key 32
      ∷ key 32
      ∷ [];
  size = 12;
  cursor = 10;
  width = 4;
  height = 3;
  color = 0x07;
}

abbrev fresh : Stream
fresh = record { bytes = replicate 1024 0; head = 0; tail = 0; count = 0 }

-- a newline in cell 0, not read yet
abbrev dead : Stream
dead = record { bytes = 10 ∷ replicate 1023 0; head = 1; tail = 0; count = 1 }

abbrev shell : Shell
shell = record { screen = letters; stdin = fresh; stdout = fresh; stderr = fresh }

abbrev dead_shell : Shell
dead_shell = record shell { stdout = dead }

letters-IsShaped : IsShaped letters
letters-IsShaped = omega arith

letters-IsValid : IsValid letters
letters-IsValid = omega arith

shell-IsIdle : IsIdle shell
shell-IsIdle = record {
  out_valid = omega arith;
  out_empty = refl;
  out_clear = λ e. cc;
  err_empty = refl;
}

dead-IsStuck : IsStuck dead
dead-IsStuck = record {
  valid = omega arith;
  at_start = refl;
  some_left = omega arith;
  blocked = refl;
}

scrolls :
    (sh_scroll letters).memory
    ≡ key 69
      ∷ key 70
      ∷ key 71
      ∷ key 72
      ∷ key 73
      ∷ key 74
      ∷ key 32
      ∷ key 32
      ∷ key 32
      ∷ key 32
      ∷ key 32
      ∷ key 32
      ∷ []
unfolding sh_scroll
scrolls = refl

prints_hex : numeral 0xBEEF 16 ≡ 0x62 ∷ 0x65 ∷ 0x65 ∷ 0x66 ∷ []
unfolding numeral magnitude digits
prints_hex = refl

sh_scroll_lem_example : cell_at (sh_scroll letters).memory 5 ≡ key 74
sh_scroll_lem_example = sh_scroll_lem letters 5 letters-IsShaped (omega arith)

sh_clear_lem_example :
    (cell_at (sh_clear letters).memory 5 ≡ blank 0x07) × ((sh_clear letters).cursor ≡ 0)
sh_clear_lem_example = sh_clear_lem letters 5 refl (omega arith)

render_char-typed_example :
    cell_at (render_char letters 75).memory ((render_char letters 75).cursor - 1) ≡ key 75
render_char-typed_example =
    render_char-typed 75 letters-IsValid (omega arith) (λ e. omega arith) (λ e. omega arith)

sh_render-Rendered_example : Rendered shell (sh_render shell)
sh_render-Rendered_example = sh_render-Rendered shell

hi-Lands : Lands 0 (72 ∷ 105 ∷ 10 ∷ [])
hi-Lands = (λ at_zero e. omega arith, (λ at_zero e. omega arith, (λ at_zero e. omega arith, tt)))

sh_puts-types_example :
    (plain (sh_puts shell (72 ∷ 105 ∷ 10 ∷ [])).screen
      ≡ render_chars (plain letters) (72 ∷ 105 ∷ 10 ∷ []))
    × IsIdle (sh_puts shell (72 ∷ 105 ∷ 10 ∷ []))
    × ((sh_puts shell (72 ∷ 105 ∷ 10 ∷ [])).stdin ≡ fresh)
sh_puts-types_example = sh_puts-types (72 ∷ 105 ∷ 10 ∷ []) shell shell-IsIdle hi-Lands

sh_puts-frozen_example :
    ((sh_puts dead_shell (72 ∷ 105 ∷ [])).screen.memory ≡ letters.memory)
    × IsStuck (sh_puts dead_shell (72 ∷ 105 ∷ [])).stdout
sh_puts-frozen_example = sh_puts-frozen (72 ∷ 105 ∷ []) dead_shell dead-IsStuck refl

sh_printf-Formats_example :
    sh_printf shell (chars "%d%s") (word 0xFFFF_FFFE ∷ str none ∷ [])
    ≡ some (sh_puts shell (chars "-2(null)"))
unfolding magnitude digits
sh_printf-Formats_example =
    sh_printf-Formats (chars "%d%s") (word 0xFFFF_FFFE ∷ str none ∷ []) (chars "-2(null)") shell (
      negative 0xFFFF_FFFE (chars "%s") (str none ∷ []) (chars "(null)") (omega arith) (omega arith)
        (null_string [] [] [] (ends [])))

sh_putint-reads_example :
    (decimal hex : List ℕ) × (sh_putint shell 0xFFFF_FFFE 10 ≡ sh_puts shell decimal)
    × (read_decimal decimal ≡ negsuc 1)
    × (sh_putint shell 0xFFFF_FFFE 16 ≡ sh_puts shell hex)
    × (number 16 0 hex ≡ 0xFFFF_FFFE)
sh_putint-reads_example = sh_putint-reads shell 0xFFFF_FFFE (omega arith)
