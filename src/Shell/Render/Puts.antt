-- ===== src/Shell/Render/Puts.antt =====
-- `sh_putc` and `sh_puts`: the text reaches the screen, or none of it ever does.
use drupe.Base.{
  ◌==◌, Bool-cases, length, get_or, set, get_or-set_self, get_or-set_ne, pos, ℕ, zero, suc, ◌+◌,
  ◌-◌, ◌%◌, ◌≡◌, refl, sym, ap, subst, ◌∙◌, ◌≢◌, inl, inr, List, [], ◌∷◌, ◌++◌, arith,
}
use mathlib.Core.List.{append-nil}
use drupe.Stream.{Stream, newline, stream_buf_size, clamp, put, write_from, stream_write}
use drupe.Stream.Inv.{put-IsValid, IsValid}
use drupe.Stream.Queue.{contents-put, window, contents, length-window}
use drupe.Stream.Stuck.{IsStuck, stream_write-IsStuck, stream_read-stuck}
use drupe.Shell.Display.{sh_scroll, scroll_at_end, Screen, render_chars, render_char}
use drupe.Shell.{Shell, sh_render, sh_write_stream, sh_write_stdout, sh_putc, sh_puts, drain}
use drupe.Shell.Render.{drain-Drained, drain-IsValid, Drained, Rendered, sh_render-Rendered}

-- Nothing waits in stdout or stderr, and no newline stands in cell 0 of stdout.
pub record IsIdle (sh : Shell) : Type 0 where
  pub out_valid : IsValid sh.stdout
  pub out_empty : sh.stdout.count ≡ 0
  pub out_clear : get_or sh.stdout.bytes 0 0 ≢ newline
  pub err_empty : sh.stderr.count ≡ 0

Drained-empty :
    {screen : Screen} {s : Stream} {r : Screen × Stream}
    → Drained screen s r
    → s.count ≡ 0
    → (r.0 ≡ screen) × (r.1.count ≡ 0)
Drained-empty {screen} {s} {r} d e =
    (d.shown ∙ nothing d.typed (omega (arith, d.fewer)), omega (arith, d.fewer))
  where
    nothing : (t : List ℕ) → length t ≡ 0 → render_chars screen t ≡ screen
    nothing [] h = unfold render_chars in refl
    nothing (c ∷ t) h = absurd (omega arith)

Drained-clear :
    {screen : Screen} {s : Stream} {r : Screen × Stream}
    → Drained screen s r
    → get_or s.bytes 0 0 ≢ newline
    → (r.0 ≡ render_chars screen (contents s)) × (r.1.count ≡ 0)
Drained-clear {screen} {s} {r} d clear =
    let empty : r.1.count ≡ 0 = elim d.ended [ inl e ↦ e | inr nl ↦ absurd (clear nl) ] in
    (
      d.shown
          ∙ ap (render_chars screen)
              (whole (contents r.1) d.prefix (length-window r.1.bytes r.1.tail r.1.count ∙ empty)),
      empty,
    )
  where
    whole : (rest : List ℕ) → contents s ≡ d.typed ++ rest → length rest ≡ 0 → d.typed ≡ contents s
    whole [] e h = sym (e ∙ append-nil d.typed)
    whole (c ∷ rest) e h = absurd (omega arith)

-- The screen in the default colour.
abbrev pub plain : Screen → Screen
plain s = record s { color = 0x07 }

stream_write-one :
    (s : Stream) (c : ℕ) → s.count ≡ 0 → stream_write s (λ i. c) (pos 1) ≡ (put s c, 1)
unfolding stream_write write_from clamp
stream_write-one s c e =
    let one : clamp (pos 1) (stream_buf_size - s.count) ≡ 1 = ground arith in
    ap (λ n. (write_from n 0 s (λ i. c), n)) one

-- the shell as `sh_putc` hands it to `sh_render`
abbrev handed : Shell → ℕ → Shell
handed sh c = record sh { screen = plain sh.screen; stdout = put sh.stdout c }

sh_putc-handed : (sh : Shell) (c : ℕ) → sh.stdout.count ≡ 0 → sh_putc sh c ≡ sh_render (handed sh c)
unfolding sh_putc sh_write_stdout sh_write_stream
sh_putc-handed sh c e =
    ap (λ (w : Stream × ℕ). sh_render (record sh { screen = plain sh.screen; stdout = w.0 }))
      (stream_write-one sh.stdout c e)

contents-put_empty : {s : Stream} (c : ℕ) → IsValid s → s.count ≡ 0 → contents (put s c) ≡ c ∷ []
contents-put_empty {s} c v e =
    contents-put c v (omega arith) ∙ ap (λ q. q ++ (c ∷ [])) (ap (window s.bytes s.tail) e)

put-clear :
    (s : Stream) (c : ℕ)
    → IsValid s
    → get_or s.bytes 0 0 ≢ newline
    → (s.head ≡ 0 → c ≢ newline)
    → get_or (put s c).bytes 0 0 ≢ newline
unfolding put
put-clear s c v old new = elim (Bool-cases (s.head == 0)) [
  | inl at_zero ↦
      let e : s.head ≡ 0 = ground arith in
      λ nl. new e (
        sym (get_or-set_self s.bytes 0 c 0 (omega (arith, v.sized)))
        ∙ ap (λ k. get_or (set s.bytes k c) 0 0) (sym e)
        ∙ nl)
  | inr elsewhere ↦ λ nl. old (sym (get_or-set_ne s.bytes s.head 0 c 0 (ground arith)) ∙ nl)
]

-- what typing one byte does to a shell
pub record Types (sh : Shell) (c : ℕ) (sh' : Shell) : Type 0 where
  pub shown : sh'.screen ≡ render_char (plain sh.screen) c
  pub idle : IsIdle sh'
  pub next : sh'.stdout.head ≡ (sh.stdout.head + 1) % stream_buf_size
  pub input : sh'.stdin ≡ sh.stdin

sh_render-out-IsValid : (sh : Shell) → IsValid sh.stdout → IsValid (sh_render sh).stdout
unfolding sh_render
sh_render-out-IsValid sh v = drain-IsValid (sh.stdout.count + 1) sh.screen v

-- One byte to an idle shell is typed on the screen, in the default colour, and the shell is idle
-- again, unless the byte is a newline that lands in cell 0 of stdout.
pub sh_putc-Types :
    (sh : Shell) (c : ℕ)
    → IsIdle sh
    → (sh.stdout.head ≡ 0 → c ≢ newline)
    → Types sh c (sh_putc sh c)
unfolding put render_chars
sh_putc-Types sh c idle clear = rw (sh_putc-handed sh c idle.out_empty) (record {
  shown =
      r.screen
      ∙ ap (λ (last : Screen). record last { color = r.mid.color }) err.0
      ∙ out.0
      ∙ ap (render_chars (plain sh.screen)) (contents-put_empty c idle.out_valid idle.out_empty);
  idle = record {
    out_valid = sh_render-out-IsValid (handed sh c) (put-IsValid c idle.out_valid (omega arith));
    out_empty = out.1;
    out_clear = λ nl. still_clear (ap (λ b. get_or b 0 0) (sym r.out.storage) ∙ nl);
    err_empty = err.1;
  };
  next = r.out.same_head;
  input = r.input;
})
  where
    r : Rendered (handed sh c) (sh_render (handed sh c))
    r = sh_render-Rendered (handed sh c)

    still_clear : get_or (put sh.stdout c).bytes 0 0 ≢ newline
    still_clear = put-clear sh.stdout c idle.out_valid idle.out_clear clear

    out :
        (r.mid ≡ render_chars (plain sh.screen) (contents (put sh.stdout c)))
        × ((sh_render (handed sh c)).stdout.count ≡ 0)
    out = Drained-clear r.out still_clear

    err : (r.last ≡ record r.mid { color = 0x04 }) × ((sh_render (handed sh c)).stderr.count ≡ 0)
    err = Drained-empty r.errors idle.err_empty

-- No byte of the text is a newline that lands in cell 0 of stdout, from index `head` on.
abbrev pub Lands : ℕ → List ℕ → Type 0
Lands head [] = Unit {0}
Lands head (c ∷ cs) = (head ≡ 0 → c ≢ newline) × Lands ((head + 1) % stream_buf_size) cs

-- Both only set the colour that the bytes are typed in.
plain-render_char : (s : Screen) (c : ℕ) → plain (render_char (plain s) c) ≡ render_char (plain s) c
unfolding render_char scroll_at_end sh_scroll
plain-render_char s c = ground arith

-- A text to an idle shell is typed byte by byte, in the default colour, and the shell is idle again,
-- if no newline of it lands in cell 0 of stdout.
pub sh_puts-types :
    (cs : List ℕ) (sh : Shell)
    → IsIdle sh
    → Lands sh.stdout.head cs
    → (plain (sh_puts sh cs).screen ≡ render_chars (plain sh.screen) cs)
      × IsIdle (sh_puts sh cs)
      × ((sh_puts sh cs).stdin ≡ sh.stdin)
unfolding sh_puts render_chars
sh_puts-types [] sh idle lands = (refl, idle, refl)
sh_puts-types (c ∷ cs) sh idle lands =
    let t = sh_putc-Types sh c idle lands.0 in
    let ih =
      sh_puts-types cs (sh_putc sh c) t.idle (subst (λ h. Lands h cs) (sym t.next) lands.1) in
    (
      ih.0 ∙ ap (λ s. render_chars s cs) (ap plain t.shown ∙ plain-render_char sh.screen c),
      ih.1,
      ih.2 ∙ t.input,
    )

drain-stuck :
    (fuel : ℕ) (screen : Screen) {s : Stream} → IsStuck s → drain fuel screen s ≡ (screen, s)
unfolding drain
drain-stuck zero screen k = refl
drain-stuck (suc fuel) screen k = rw (stream_read-stuck (pos 64) k)

sh_render-stuck :
    (sh : Shell)
    → IsStuck sh.stdout
    → sh.stderr.count ≡ 0
    → ((sh_render sh).screen.memory ≡ sh.screen.memory)
      × ((sh_render sh).stdout ≡ sh.stdout)
      × ((sh_render sh).stderr.count ≡ 0)
unfolding sh_render
sh_render-stuck sh k e =
    let still = drain-stuck (sh.stdout.count + 1) sh.screen k in
    let x = drain (sh.stdout.count + 1) sh.screen sh.stdout in
    let d =
      Drained-empty
        (drain-Drained (sh.stderr.count + 1) (record x.0 { color = 0x04 }) sh.stderr (omega arith))
        e in
    (
      ap (λ (s : Screen). s.memory) d.0 ∙ ap (λ (x : Screen × Stream). x.0.memory) still,
      ap (λ (x : Screen × Stream). x.1) still,
      d.1,
    )

-- Once stdout is dead and with nothing in stderr, no text that is printed changes a cell of the
-- screen, and stdout stays dead.
pub sh_puts-frozen :
    (cs : List ℕ) (sh : Shell)
    → IsStuck sh.stdout
    → sh.stderr.count ≡ 0
    → ((sh_puts sh cs).screen.memory ≡ sh.screen.memory) × IsStuck (sh_puts sh cs).stdout
unfolding sh_puts sh_putc
sh_puts-frozen [] sh k e = (refl, k)
sh_puts-frozen (c ∷ cs) sh k e =
    let w = (stream_write sh.stdout (λ i. c) (pos 1)).0 in
    let handed' : Shell = record sh { screen = plain sh.screen; stdout = w } in
    let k' : IsStuck w = stream_write-IsStuck (λ i. c) (pos 1) k in
    let r = sh_render-stuck handed' k' e in
    let ih = sh_puts-frozen cs (sh_render handed') (rw r.1 k') r.2 in (ih.0 ∙ r.0, ih.1)
