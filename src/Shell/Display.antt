-- ===== src/Shell/Display.antt =====
-- The cells of the text screen: `sh_scroll`, `sh_clear` and what `sh_render` does with one byte.
pub mod Scroll
pub mod Inv
use drupe.Base.{
  ltb, leb, ◌==◌, if◌then◌else◌, get_or, set, u32, sub32, ℕ, zero, suc, ◌+◌, ◌-◌, ◌*◌, ◌%◌, List,
  [], ◌∷◌,
}

-- `shell_char_t`
pub record Cell : Type 0 where
  pub character : ℕ
  pub color : ℕ

-- The fields of `shell_instance_t` but the streams. `memory` has the `size` cells of the screen.
pub record Screen : Type 0 where
  pub memory : List Cell
  pub size : ℕ
  pub cursor : ℕ
  pub width : ℕ
  pub height : ℕ
  pub color : ℕ

abbrev pub blank : ℕ → Cell
blank color = record { character = 0x20; color = color }

abbrev pub cell_at : List Cell → ℕ → Cell
cell_at memory i = get_or memory i (blank 0)

-- `memory[i] = c` for `left` cells from index `i` on
unfoldable pub fill : ℕ → ℕ → Cell → List Cell → List Cell
fill zero i c memory = memory
fill (suc left) i c memory = fill left (i + 1) c (set memory i c)

-- the inner loop of `sh_scroll`, with `left` columns to go
unfoldable pub copy_row : ℕ → ℕ → ℕ → ℕ → List Cell → List Cell
copy_row zero col row width memory = memory
copy_row (suc left) col row width memory =
    let dst = u32 (sub32 row 1 * width + col) in
    let src = u32 (row * width + col) in
    copy_row left (col + 1) row width (set memory dst (cell_at memory src))

-- the outer loop, with `left` rows to go
unfoldable pub copy_rows : ℕ → ℕ → ℕ → List Cell → List Cell
unfolding copy_row
copy_rows zero row width memory = memory
copy_rows (suc left) row width memory =
    copy_rows left (row + 1) width (copy_row width 0 row width memory)

unfoldable pub sh_scroll : Screen → Screen
unfolding copy_rows fill
sh_scroll s =
    let memory = copy_rows (s.height - 1) 1 s.width s.memory in
    let last_line = u32 (sub32 s.height 1 * s.width) in
    record s { memory = fill s.width last_line (blank s.color) memory }

unfoldable pub sh_clear : Screen → Screen
unfolding fill
sh_clear s = record s { memory = fill s.size 0 (blank s.color) s.memory; cursor = 0 }

-- the test for the end of the screen, behind a newline and behind a character
unfoldable pub scroll_at_end : Screen → Screen
scroll_at_end s =
    let scrolled = sh_scroll s in
    if leb s.size s.cursor
    then record scrolled { cursor = sub32 scrolled.cursor scrolled.width }
    else s

-- One byte of a stream on the screen. The width is not 0 once `sh_init` has returned.
unfoldable pub render_char : Screen → ℕ → Screen
render_char s c =
    if c == 0x0D
    then record s { cursor = s.cursor - s.cursor % s.width }
    else (if c == 0x0A
        then scroll_at_end (record s { cursor = u32 (s.cursor + (s.width - s.cursor % s.width)) })
        else (if ltb s.cursor s.size
            then scroll_at_end (record s {
              memory = set s.memory s.cursor (record { character = c; color = s.color });
              cursor = u32 (s.cursor + 1);
            })
            else s))

-- the `for` loop over the bytes that one `stream_read` has given
unfoldable pub render_chars : Screen → List ℕ → Screen
render_chars s [] = s
render_chars s (c ∷ cs) = render_chars (render_char s c) cs
