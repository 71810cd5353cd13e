-- ===== src/Session/Isolated.antt =====
-- What the kernel does to the memory of a session, whatever the program asks it for.
use drupe.Base.{ℕ, ◌+◌, ◌≡◌, refl, ◌∙◌, inl, inr, List, arith}
use drupe.Boot.Idt.{Idt}
use drupe.Stream.Inv.{IsValid}
use drupe.Interrupts.Syscalls.Safety.{Outside}
use drupe.Arch.{Machine}
use drupe.Session.{IsGated, Session, begins, computes, interrupted, calls}
use drupe.Session.InOrder.{after_interrupt, after_call, Session-InOrder}

-- In each of its own steps the program writes to no byte outside the 5 MB from 4 MB on.
abbrev pub IsConfined :
    {exit_address stack_top : ℕ} {idt : Idt} {m0 m : Machine} {entered delivered : List ℕ}
    → Session exit_address stack_top idt m0 m entered delivered
    → Type 0
IsConfined begins = Unit
IsConfined (computes before m' es ds t code shell) =
    IsConfined t
    × ((a : ℕ) → Outside 0x400000 0x500000 a → m'.kernel.memory a ≡ before.kernel.memory a)
IsConfined (interrupted before m' es ds port s flags v t which e) = IsConfined t
IsConfined (calls before m' es ds port s flags t not_exit e) = IsConfined t

within : (a : ℕ) → Outside 0x400000 (0x500000 + 1023) a → Outside 0x400000 0x500000 a
within a (inl before) = inl before
within a (inr behind) = inr (omega arith)

module _ (exit_address stack_top : ℕ) (idt : Idt) (gates : IsGated idt) (m0 : Machine)
    (user : m0.cpu.cs ≡ 0x1B) (valid : IsValid m0.kernel.shell.stdin) where
  -- With gates to the kernel's code, and from a machine in user mode with a valid stdin, in a session
  -- of a program that itself writes only to its 5 MB from 4 MB on: no byte outside them changes but
  -- the 1023 behind them, whatever the keys and the system calls.
  pub Session-isolates :
      (m : Machine) (entered delivered : List ℕ) (a : ℕ)
      → (t : Session exit_address stack_top idt m0 m entered delivered) → IsConfined t
      → Outside 0x400000 (0x500000 + 1023) a
      → m.kernel.memory a ≡ m0.kernel.memory a
  Session-isolates m entered delivered a begins confined out = refl
  Session-isolates m entered delivered a (computes before m' es ds t code shell) confined out =
      confined.1 a (within a out) ∙ Session-isolates before es ds a t confined.0 out
  Session-isolates m entered delivered a (interrupted before m' es ds port s flags v t which e)
        confined out =
      let h = Session-InOrder exit_address stack_top idt gates m0 user valid before es ds t in
      let step =
        after_interrupt exit_address stack_top idt gates port s flags v before m h.code h.valid
          which e in
      step.2 a out ∙ Session-isolates before es ds a t confined out
  Session-isolates m entered delivered a (calls before m' es ds port s flags t not_exit e) confined
        out =
      let h = Session-InOrder exit_address stack_top idt gates m0 user valid before es ds t in
      let step =
        after_call exit_address stack_top idt gates port s flags before m h.code h.valid not_exit
          e in
      step.2 a out ∙ Session-isolates before es ds a t confined out
