-- ===== src/Interrupts/Input.antt =====
-- What goes into stdin and comes out of it, by key and by system call.
pub mod Calls
pub mod Reports
use drupe.Base.{
  ltb, leb, ◌==◌, if◌then◌else◌, Bool-cases, tabulate, ℤ, signed32, rounds, pos, ℕ, zero, suc, ◌+◌,
  ◌-◌, min, ◌≡◌, refl, sym, ap, subst, ◌∙◌, ◌⊎◌, inl, inr, true, false, not, ◌&&◌, ◌||◌, some, List,
  [], ◌∷◌, ◌++◌, arith,
}
use mathlib.Core.List.{append-nil}
use drupe.Stream.{stream_write}
use drupe.Stream.Inv.{IsValid, stream_write-IsValid}
use drupe.Stream.Queue.{contents, stream_write_lem}
use drupe.Shell.{Shell, sh_write_stream}
use drupe.Shell.Render.{sh_render-Rendered}
use drupe.Interrupts.{Frame, Kernel}
use drupe.Interrupts.Handlers.{scancode_to_ascii, key_pressed, irq_handler, end_of_interrupt}
use drupe.Interrupts.Handlers.Outcomes.{key_code}
use drupe.Interrupts.Syscalls.{sys_read, sys_write, in_user_memory}
use drupe.Interrupts.Syscalls.Transfer.{sh_write_stream_nowhere}

-- Stdin is valid again, and what was in it, with what has been entered, is what has been delivered,
-- with what is in it now.
pub record Feeds (sh sh' : Shell) (entered delivered : List ℕ) : Type 0 where
  pub valid : IsValid sh'.stdin
  pub order : contents sh.stdin ++ entered ≡ delivered ++ contents sh'.stdin

-- the bytes that a call writes to stdin itself
abbrev pub own_input : Kernel → Frame → List ℕ
own_input k frame =
    if frame.eax == sys_write && in_user_memory frame.ecx && frame.ebx == 0
    then tabulate (min (rounds (signed32 frame.edx)) (1024 - k.shell.stdin.count)) 0
        (λ i. k.memory (frame.ecx + i))
    else []

-- the bytes that a call has read, as the caller finds them: as many as `eax` says, at its buffer
abbrev pub read_back : Frame → Kernel → ℕ → List ℕ
read_back frame k' eax =
    if frame.eax == sys_read && in_user_memory frame.ecx
    then tabulate eax 0 (λ i. k'.memory (frame.ecx + i))
    else []

-- the character of a key, if it is one and there is room
abbrev pub typed : Kernel → ℕ → List ℕ
typed k scancode =
    if scancode_to_ascii scancode == 0 || leb 1024 k.shell.stdin.count
    then []
    else scancode_to_ascii scancode ∷ []

pub Feeds-same : (sh sh' : Shell) → IsValid sh.stdin → sh'.stdin ≡ sh.stdin → Feeds sh sh' [] []
Feeds-same sh sh' v same = record {
  valid = subst IsValid (sym same) v;
  order = append-nil (contents sh.stdin) ∙ ap contents (sym same);
}

pub sh_write_stream-Feeds :
    (sh : Shell) (w : ℕ) (buf : ℕ → ℕ) (len : ℤ)
    → IsValid sh.stdin
    → Feeds sh
        (sh_write_stream sh (signed32 w) buf len).0
        (if w == 0 then tabulate (min (rounds len) (1024 - sh.stdin.count)) 0 buf else [])
        []
unfolding sh_write_stream
sh_write_stream-Feeds sh zero buf len v =
    let drawn = sh_render-Rendered (record sh {
      screen = record sh.screen { color = 0x07 };
      stdin = (stream_write sh.stdin buf len).0;
    }) in
    let wrote = stream_write_lem buf len v in
    record {
      valid = subst IsValid (sym drawn.input) (stream_write-IsValid buf len v);
      order = sym (
          ap contents drawn.input
          ∙ wrote.1
          ∙ ap (λ n. contents sh.stdin ++ tabulate n 0 buf) wrote.0);
    }
sh_write_stream-Feeds sh (suc zero) buf len v = Feeds-same sh _ v (sh_render-Rendered _).input
sh_write_stream-Feeds sh (suc (suc zero)) buf len v = Feeds-same sh _ v (sh_render-Rendered _).input
sh_write_stream-Feeds sh (suc (suc (suc i))) buf len v =
    let e = sh_write_stream_nowhere sh (suc (suc (suc i))) buf len (omega arith) in
    let other : (suc (suc (suc i)) == 0) ≡ false = ground arith in
    rw (e, other) (Feeds-same sh sh v refl)

one_or_none :
    (c count : ℕ)
    → tabulate (min 1 (1024 - count)) 0 (λ i. c) ≡ (if leb 1024 count then [] else c ∷ [])
one_or_none c count = elim (Bool-cases (leb 1024 count)) [
  | inl full ↦ let n : min 1 (1024 - count) ≡ 0 = ground arith in rw (n, full) refl
  | inr room ↦ let n : min 1 (1024 - count) ≡ 1 = ground arith in rw (n, room) refl
]

pub key_pressed-Feeds :
    (k : Kernel) (scancode : ℕ)
    → IsValid k.shell.stdin
    → Feeds k.shell (key_pressed k scancode).shell (typed k scancode) []
unfolding key_pressed
key_pressed-Feeds k scancode v = elim (Bool-cases (scancode_to_ascii scancode == 0)) [
  | inl other ↦
      let shut : (ltb scancode 128 && not (scancode_to_ascii scancode == 0)) ≡ false =
        ground arith in
      rw (shut, other) (Feeds-same k.shell k.shell v refl)
  | inr key ↦
      let open_key : (ltb scancode 128 && not (scancode_to_ascii scancode == 0)) ≡ true =
        ground (arith, key_code scancode (λ e. ground arith)) in
      let c = scancode_to_ascii scancode in
      rw (open_key, key)
        (subst
          (λ entered. Feeds k.shell (sh_write_stream k.shell (pos 0) (λ i. c) (pos 1)).0 entered [])
          (one_or_none c k.shell.stdin.count) (sh_write_stream-Feeds k.shell 0 (λ i. c) (pos 1) v))
]

pub key_pressed-memory : (k : Kernel) (scancode : ℕ) → (key_pressed k scancode).memory ≡ k.memory
unfolding key_pressed
key_pressed-memory k scancode =
    elim (Bool-cases (ltb scancode 128 && not (scancode_to_ascii scancode == 0))) [
      | inl key ↦ rw key refl
      | inr other ↦ rw other refl
    ]

-- The two interrupts that the controller lets through end. A key goes to the end of stdin if it is a
-- character and there is room; the timer changes nothing. The memory is as it was.
pub irq_handler-Feeds :
    (port : ℕ → ℕ) (k : Kernel) (frame : Frame)
    → IsValid k.shell.stdin
    → (frame.int_no ≡ 32) ⊎ (frame.int_no ≡ 33)
    → (k' : Kernel) × (irq_handler port k frame ≡ some (k', (0x20, 0x20) ∷ []))
      × Feeds k.shell k'.shell (if frame.int_no == 33 then typed k (port 0x60) else []) []
      × (k'.memory ≡ k.memory)
unfolding irq_handler end_of_interrupt
irq_handler-Feeds port k frame v (inl timer) =
    (k, rw timer refl, rw timer (Feeds-same k.shell k.shell v refl), refl)
irq_handler-Feeds port k frame v (inr keyboard) = (
  key_pressed k (port 0x60),
  rw keyboard refl,
  rw keyboard (key_pressed-Feeds k (port 0x60) v),
  key_pressed-memory k (port 0x60),
)
