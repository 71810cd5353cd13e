-- ===== src/Shell/Render.antt =====
-- What reaches the screen of what is written to a stream.
pub mod Puts
use drupe.Base.{
  leb, Bool-cases, length, get_or, length-append, pos, ℕ, zero, suc, ◌+◌, ◌≤◌, ◌<◌, ◌≡◌, refl, sym,
  ap, subst, ◌∙◌, ◌⊎◌, inl, inr, List, [], ◌∷◌, ◌++◌, arith,
}
use mathlib.Core.List.{append_assoc}
use drupe.Stream.{Stream, newline, stream_read}
use drupe.Stream.Inv.{IsValid, stream_read-IsValid}
use drupe.Stream.Queue.{contents, HasRead, stream_read-HasRead}
use drupe.Shell.Display.{Screen, render_chars, render_char}
use drupe.Shell.{sh_putc, sh_puts, sh_write_stdout, sh_write_stream, Shell, drain, sh_render}

pub render_chars-append :
    (s : Screen) (xs ys : List ℕ) → render_chars s (xs ++ ys) ≡ render_chars (render_chars s xs) ys
unfolding render_chars
render_chars-append s [] ys = refl
render_chars-append s (x ∷ xs) ys = render_chars-append (render_char s x) xs ys

-- What emptying a stream onto the screen has come to when it ends.
pub record Drained (screen : Screen) (s : Stream) (r : Screen × Stream) : Type 0 where
  pub typed : List ℕ
  pub prefix : contents s ≡ typed ++ contents r.1
  pub shown : r.0 ≡ render_chars screen typed
  pub storage : r.1.bytes ≡ s.bytes
  pub same_head : r.1.head ≡ s.head
  pub fewer : length typed + r.1.count ≡ s.count
  pub ended : (r.1.count ≡ 0) ⊎ (get_or s.bytes 0 0 ≡ newline)

drain_step :
    (screen : Screen) (s : Stream) (r : Stream × List ℕ) (rest : Screen × Stream)
    → HasRead 64 0 s r
    → Drained (render_chars screen r.1) r.0 rest
    → Drained screen s rest
drain_step screen s r rest h d = record {
  typed = r.1 ++ d.typed;
  prefix =
      h.prefix ∙ ap (λ q. r.1 ++ q) d.prefix ∙ sym (append_assoc r.1 d.typed (contents rest.1));
  shown = d.shown ∙ sym (render_chars-append screen r.1 d.typed);
  storage = d.storage ∙ h.storage;
  same_head = d.same_head ∙ h.same_head;
  fewer = omega (arith, h.amount, d.fewer, length-append r.1 d.typed);
  ended = elim d.ended [
    | inl empty ↦ inl empty
    | inr nl ↦ inr (ap (λ b. get_or b 0 0) (sym h.storage) ∙ nl)
  ];
}

drain_last :
    (screen : Screen) (s : Stream) (s' : Stream) (out : List ℕ)
    → HasRead 64 0 s (s', out)
    → length out ≤ 0
    → Drained screen s (screen, s')
drain_last screen s s' [] h none_read = record {
  typed = [];
  prefix = h.prefix;
  shown = unfold render_chars in refl;
  storage = h.storage;
  same_head = h.same_head;
  fewer = h.amount;
  ended = elim h.reason [
    | inl full ↦ absurd (omega arith)
    | inr (inl empty) ↦ inl empty
    | inr (inr nl) ↦ inr (subst (λ k. get_or s.bytes k 0 ≡ newline) (omega arith) nl)
  ];
}
drain_last screen s s' (c ∷ out) h none_read = absurd (omega arith)

-- With more rounds than bytes the loop of `sh_render` ends by its own test. It types a first part of
-- the stream, in order, and leaves the rest: nothing, unless cell 0 of the stream holds a newline.
pub drain-Drained :
    (fuel : ℕ) (screen : Screen) (s : Stream)
    → s.count < fuel
    → Drained screen s (drain fuel screen s)
unfolding drain
drain-Drained zero screen s h = absurd (omega arith)
drain-Drained (suc fuel) screen s h =
    let r = stream_read s (pos 64) in
    let read : HasRead 64 0 s r = stream_read-HasRead s (pos 64) in
    elim (Bool-cases (leb (length r.1) 0)) [
      | inl done ↦ rw done (drain_last screen s r.0 r.1 read (ground arith))
      | inr more ↦ rw more (
          drain_step screen s r _ read
            (drain-Drained fuel (render_chars screen r.1) r.0 (ground (arith, read.amount))))
    ]

pub drain-IsValid :
    (fuel : ℕ) (screen : Screen) {s : Stream} → IsValid s → IsValid (drain fuel screen s).1
unfolding drain
drain-IsValid zero screen v = v
drain-IsValid (suc fuel) screen {s} v =
    let r = stream_read s (pos 64) in
    let v' : IsValid r.0 = stream_read-IsValid (pos 64) v in
    elim (Bool-cases (leb (length r.1) 0)) [
      | inl done ↦ rw done v'
      | inr more ↦ rw more (drain-IsValid fuel (render_chars screen r.1) v')
    ]

pub record Rendered (sh sh' : Shell) : Type 0 where
  pub mid : Screen
  pub last : Screen
  pub out : Drained sh.screen sh.stdout (mid, sh'.stdout)
  pub errors : Drained (record mid { color = 0x04 }) sh.stderr (last, sh'.stderr)
  pub screen : sh'.screen ≡ record last { color = mid.color }
  pub input : sh'.stdin ≡ sh.stdin

-- `sh_render` types a first part of stdout and then, in red, a first part of stderr, leaves the rest
-- of each in its stream (nothing, unless cell 0 of the stream holds a newline), and gives the colour
-- back; stdin is as before.
pub sh_render-Rendered : (sh : Shell) → Rendered sh (sh_render sh)
unfolding sh_render
sh_render-Rendered sh =
    let d = drain (sh.stdout.count + 1) sh.screen sh.stdout in
    let e = drain (sh.stderr.count + 1) (record d.0 { color = 0x04 }) sh.stderr in
    record {
      mid = d.0;
      last = e.0;
      out = drain-Drained (sh.stdout.count + 1) sh.screen sh.stdout (omega arith);
      errors =
          drain-Drained (sh.stderr.count + 1) (record d.0 { color = 0x04 }) sh.stderr (omega arith);
      screen = refl;
      input = refl;
    }

sh_putc-stdin : (sh : Shell) (c : ℕ) → (sh_putc sh c).stdin ≡ sh.stdin
unfolding sh_putc sh_write_stdout sh_write_stream
sh_putc-stdin sh c = (sh_render-Rendered _).input

pub sh_puts-stdin : (sh : Shell) (cs : List ℕ) → (sh_puts sh cs).stdin ≡ sh.stdin
unfolding sh_puts
sh_puts-stdin sh [] = refl
sh_puts-stdin sh (c ∷ cs) = sh_puts-stdin (sh_putc sh c) cs ∙ sh_putc-stdin sh c
