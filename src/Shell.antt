-- ===== src/Shell.antt =====
-- source/system/shell/shell.c: the text screen, the three streams and formatted output.
pub mod Display
pub mod Render
pub mod Print
pub mod Tests
use drupe.Base.{
  leb, if◌then◌else◌, length, ℤ, pos, negsuc, ℕ, zero, suc, ◌+◌, ◌/◌, Option, none, some, List, [],
  ◌∷◌,
}
use drupe.Stream.{Stream, stream_write, stream_read}
use drupe.Shell.Display.{Screen, Cell, sh_clear, render_chars}

abbrev pub vga_width : ℕ
vga_width = 80

abbrev pub vga_height : ℕ
vga_height = 25

-- `shell_instance_t`: the screen, and `streams[0]`, `streams[1]` and `streams[2]`
pub record Shell : Type 0 where
  pub screen : Screen
  pub stdin : Stream
  pub stdout : Stream
  pub stderr : Stream

-- The storage of a stream is left as it is.
abbrev pub emptied : List ℕ → Stream
emptied bytes = record { bytes = bytes; head = 0; tail = 0; count = 0 }

-- `none` for the division by a zero width. `memory` is the screen memory, and `old` what the
-- uninitialised structure holds.
unfoldable pub sh_init : Shell → List Cell → ℕ → ℕ → Option Shell
unfolding sh_clear
sh_init old memory zero size = none
sh_init old memory (suc w) size = some (record {
  screen = sh_clear (record {
    memory = memory;
    size = size;
    cursor = 0;
    width = suc w;
    height = size / suc w;
    color = 0x07;
  });
  stdin = emptied old.stdin.bytes;
  stdout = emptied old.stdout.bytes;
  stderr = emptied old.stderr.bytes;
})

-- `while ((bytes = stream_read(stream, buf, 64)) > 0)`, on fuel. `sh_render` has this loop twice.
unfoldable pub drain : ℕ → Screen → Stream → Screen × Stream
drain zero screen s = (screen, s)
drain (suc fuel) screen s =
    let r = stream_read s (pos 64) in
    let rest = drain fuel (render_chars screen r.1) r.0 in
    if leb (length r.1) 0 then (screen, r.0) else rest

-- Each round but the last takes a byte, so one more round than bytes is enough.
unfoldable pub sh_render : Shell → Shell
sh_render sh =
    let (screen1, out) = drain (sh.stdout.count + 1) sh.screen sh.stdout in
    let red = record screen1 { color = 0x04 } in
    let (screen2, err) = drain (sh.stderr.count + 1) red sh.stderr in
    record sh { screen = record screen2 { color = screen1.color }; stdout = out; stderr = err }

abbrev pub stdin_idx : ℕ
stdin_idx = 0

abbrev pub stdout_idx : ℕ
stdout_idx = 1

abbrev pub stderr_idx : ℕ
stderr_idx = 2

-- `stream_write(&shell->streams[stream_idx], buf, len)` for a valid index
abbrev pub write_at : Shell → ℕ → (ℕ → ℕ) → ℤ → Shell × ℕ
write_at sh zero buf len =
    let (s, n) = stream_write sh.stdin buf len in (record sh { stdin = s }, n)
write_at sh (suc zero) buf len =
    let (s, n) = stream_write sh.stdout buf len in (record sh { stdout = s }, n)
write_at sh (suc (suc i)) buf len =
    let (s, n) = stream_write sh.stderr buf len in (record sh { stderr = s }, n)

abbrev pub with_color : Shell → ℕ → Shell
with_color sh color = record sh { screen = record sh.screen { color = color } }

-- The new shell and the `int` result, -1 for an invalid index.
unfoldable pub sh_write_stream : Shell → ℤ → (ℕ → ℕ) → ℤ → Shell × ℤ
sh_write_stream sh (negsuc i) buf len = (sh, negsuc 0)
sh_write_stream sh (pos i) buf len =
    let (sh', written) = write_at (with_color sh 0x07) i buf len in
    if leb 3 i then (sh, negsuc 0) else (sh_render sh', pos written)

unfoldable pub sh_write_stdout : Shell → (ℕ → ℕ) → ℤ → Shell × ℤ
unfolding sh_write_stream
sh_write_stdout sh buf len = sh_write_stream sh (pos stdout_idx) buf len

unfoldable pub sh_write_stderr : Shell → (ℕ → ℕ) → ℤ → Shell × ℤ
unfolding sh_write_stream
sh_write_stderr sh buf len = sh_write_stream sh (pos stderr_idx) buf len

unfoldable pub sh_putc : Shell → ℕ → Shell
unfolding sh_write_stdout
sh_putc sh c = (sh_write_stdout sh (λ i. c) (pos 1)).0

-- The string is given by its bytes before the terminating zero.
unfoldable pub sh_puts : Shell → List ℕ → Shell
sh_puts sh [] = sh
sh_puts sh (c ∷ cs) = sh_puts (sh_putc sh c) cs
