-- ===== src/Session/InOrder.antt =====
-- Every interrupt of a session returns, and what is entered is delivered in order.
use drupe.Base.{
  ◌==◌, if◌then◌else◌, u16, Bytes, ◌>>=◌, ℕ, ◌+◌, bit_and, ◌≡◌, refl, sym, ap, subst, ◌∙◌, ◌≢◌, ◌⊎◌,
  inl, inr, Option, none, some, List, [], ◌∷◌, ◌++◌,
}
use mathlib.Core.List.{append_assoc, append-nil}
use drupe.Boot.Idt.{Idt}
use drupe.Stream.Inv.{IsValid}
use drupe.Stream.Queue.{contents}
use drupe.Interrupts.{Frame}
use drupe.Interrupts.Handlers.{resume, finish, interrupt_handler}
use drupe.Interrupts.Syscalls.{sys_exit}
use drupe.Interrupts.Syscalls.Safety.{Outside, handle_syscall-Handled}
use drupe.Interrupts.Input.{Feeds, own_input, read_back, typed, irq_handler-Feeds}
use drupe.Interrupts.Input.Calls.{handle_syscall-Served}
use drupe.Arch.{Machine, Run, runs, Scratch, halts_for_ever}
use drupe.Arch.Stubs.{serve}
use drupe.Arch.Stubs.Return.{arrival, serve-returns}
use drupe.Shell.{Shell}
use drupe.Session.{IsGated, Session, begins, computes, interrupted, calls}

-- what a step makes of the machine
pub record Steps (m : Machine) (r : Option Run) (entered : List ℕ) (delivered : Machine → List ℕ)
    : Type 0 where
  pub m' : Machine
  pub result : r ≡ some (runs m')
  pub code : m'.cpu.cs ≡ 0x1B
  pub next : m'.cpu.eip ≡ m.cpu.eip
  pub feeds : Feeds m.kernel.shell m'.kernel.shell entered (delivered m')
  pub kept : (a : ℕ) → Outside 0x400000 (0x500000 + 1023) a → m'.kernel.memory a ≡ m.kernel.memory a

module _ (exit_address stack_top : ℕ) (idt : Idt) (gates : IsGated idt) where
  interrupt-Steps :
      (port : ℕ → ℕ) (s : Scratch) (flags v : ℕ) (m : Machine)
      → m.cpu.cs ≡ 0x1B
      → IsValid m.kernel.shell.stdin
      → (v ≡ 32) ⊎ (v ≡ 33)
      → Steps m
          (serve exit_address stack_top port s idt flags v [] m)
          (if v == 33 then typed m.kernel (port 0x60) else [])
          (λ m'. [])
  interrupt-Steps port s flags v m user valid (inl timer) =
      let (k', e, feeds, memory) =
        irq_handler-Feeds port m.kernel (arrival idt 32 0 m.cpu) valid (inl refl) in
      let ring : bit_and m.cpu.cs 3 ≡ 3 = rw user refl in
      let back : bit_and (u16 m.cpu.cs) 3 ≡ 3 = rw user refl in
      rw timer (record {
        m' = _;
        result =
            serve-returns exit_address stack_top port s idt flags 32 0 m k' (arrival idt 32 0 m.cpu)
              ((0x20, 0x20) ∷ []) refl ring gates.timer
              (ap (λ o. o >>= λ r. some (resume r.0 (arrival idt 32 0 m.cpu), r.1)) e) back;
        code = ap u16 user;
        next = refl;
        feeds = feeds;
        kept = λ a out. ap (λ (bytes : Bytes). bytes a) memory;
      })
  interrupt-Steps port s flags v m user valid (inr keyboard) =
      let (k', e, feeds, memory) =
        irq_handler-Feeds port m.kernel (arrival idt 33 0 m.cpu) valid (inr refl) in
      let ring : bit_and m.cpu.cs 3 ≡ 3 = rw user refl in
      let back : bit_and (u16 m.cpu.cs) 3 ≡ 3 = rw user refl in
      rw keyboard (record {
        m' = _;
        result =
            serve-returns exit_address stack_top port s idt flags 33 0 m k' (arrival idt 33 0 m.cpu)
              ((0x20, 0x20) ∷ []) refl ring gates.keyboard
              (ap (λ o. o >>= λ r. some (resume r.0 (arrival idt 33 0 m.cpu), r.1)) e) back;
        code = ap u16 user;
        next = refl;
        feeds = feeds;
        kept = λ a out. ap (λ (bytes : Bytes). bytes a) memory;
      })

  call-Steps :
      (port : ℕ → ℕ) (s : Scratch) (flags : ℕ) (m : Machine)
      → m.cpu.cs ≡ 0x1B
      → IsValid m.kernel.shell.stdin
      → m.cpu.eax ≢ sys_exit
      → Steps m
          (serve exit_address stack_top port s idt flags 0x80 [] m)
          (own_input m.kernel (arrival idt 0x80 0 m.cpu))
          (λ m'. read_back (arrival idt 0x80 0 m.cpu) m'.kernel m'.cpu.eax)
  unfolding interrupt_handler finish
  call-Steps port s flags m user valid not_exit =
      let frame = arrival idt 0x80 0 m.cpu in
      let ring : bit_and m.cpu.cs 3 ≡ 3 = rw user refl in
      let c = handle_syscall-Served exit_address stack_top m.kernel frame valid ring in
      let h = handle_syscall-Handled exit_address stack_top m.kernel frame valid.count_in in
      let same : c.frame' ≡ h.frame' =
        ap (λ o. elim o [ none ↦ frame | some r ↦ r.1 ]) (sym c.result ∙ h.result) in
      let code : c.frame'.cs ≡ 0x1B = ap (λ (f : Frame). f.cs) same ∙ elim h.goes_on [
        | inl (there, next) ↦ there ∙ user
        | inr (exit, u, c, a) ↦ absurd (not_exit exit)
      ] in
      let next : c.frame'.eip ≡ m.cpu.eip = ap (λ (f : Frame). f.eip) same ∙ elim h.goes_on [
        | inl (there, next) ↦ next
        | inr (exit, u, c, a) ↦ absurd (not_exit exit)
      ] in
      let int_no : c.frame'.int_no ≡ 0x80 = ap (λ (f : Frame). f.int_no) same ∙ h.vector in
      let handled : interrupt_handler exit_address stack_top m.kernel frame
          ≡ some (resume c.k' c.frame') =
        rw (c.result, int_no) refl in
      let back : bit_and (u16 c.frame'.cs) 3 ≡ 3 = rw code refl in
      record {
        m' = _;
        result =
            serve-returns exit_address stack_top port s idt flags 0x80 0 m c.k' c.frame' [] refl
              ring gates.call (ap (λ o. o >>= λ r. some (r, [])) handled) back;
        code = ap u16 code;
        next = next;
        feeds = c.feeds;
        kept = λ a out.
            ap (λ o. elim o [ none ↦ 0 | some r ↦ r.0.memory a ]) (sym c.result ∙ h.result)
            ∙ h.kept a out;
      }

  -- the next machine is the one of a step
  after-step :
      (m m' : Machine) (r : Option Run) (entered : List ℕ) (delivered : Machine → List ℕ)
      → Steps m r entered delivered
      → r ≡ some (runs m')
      → (m'.cpu.cs ≡ 0x1B)
        × Feeds m.kernel.shell m'.kernel.shell entered (delivered m')
        × ((a : ℕ) → Outside 0x400000 (0x500000 + 1023) a → m'.kernel.memory a ≡ m.kernel.memory a)
  after-step m m' r entered delivered h e =
      let same : h.m' ≡ m' =
        ap (λ o. elim o [ none ↦ m | some r ↦ elim r [ runs x ↦ x | halts_for_ever k w ↦ m ] ])
          (sym h.result ∙ e) in
      (
        subst (λ (x : Machine). x.cpu.cs ≡ 0x1B) same h.code,
        subst (λ (x : Machine). Feeds m.kernel.shell x.kernel.shell entered (delivered x)) same
            h.feeds,
        λ a out. subst (λ (x : Machine). x.kernel.memory a ≡ m.kernel.memory a) same (h.kept a out),
      )

  -- a step of the sessions
  abbrev pub Stepped : Machine → Machine → List ℕ → List ℕ → Type 0
  Stepped m m' entered delivered =
      (m'.cpu.cs ≡ 0x1B)
      × Feeds m.kernel.shell m'.kernel.shell entered delivered
      × ((a : ℕ) → Outside 0x400000 (0x500000 + 1023) a → m'.kernel.memory a ≡ m.kernel.memory a)

  pub after_interrupt :
      (port : ℕ → ℕ) (s : Scratch) (flags v : ℕ) (m m' : Machine)
      → m.cpu.cs ≡ 0x1B
      → IsValid m.kernel.shell.stdin
      → (v ≡ 32) ⊎ (v ≡ 33)
      → serve exit_address stack_top port s idt flags v [] m ≡ some (runs m')
      → Stepped m m' (if v == 33 then typed m.kernel (port 0x60) else []) []
  after_interrupt port s flags v m m' code valid which e =
      after-step m m' (serve exit_address stack_top port s idt flags v [] m)
        (if v == 33 then typed m.kernel (port 0x60) else []) (λ m'. [])
        (interrupt-Steps port s flags v m code valid which) e

  pub after_call :
      (port : ℕ → ℕ) (s : Scratch) (flags : ℕ) (m m' : Machine)
      → m.cpu.cs ≡ 0x1B
      → IsValid m.kernel.shell.stdin
      → m.cpu.eax ≢ sys_exit
      → serve exit_address stack_top port s idt flags 0x80 [] m ≡ some (runs m')
      → Stepped m m'
          (own_input m.kernel (arrival idt 0x80 0 m.cpu))
          (read_back (arrival idt 0x80 0 m.cpu) m'.kernel m'.cpu.eax)
  after_call port s flags m m' code valid not_exit e =
      after-step m m' (serve exit_address stack_top port s idt flags 0x80 [] m)
        (own_input m.kernel (arrival idt 0x80 0 m.cpu))
        (λ m'. read_back (arrival idt 0x80 0 m.cpu) m'.kernel m'.cpu.eax)
        (call-Steps port s flags m code valid not_exit) e

-- The program is in user mode, stdin is valid, and what was in it at the start, with all that has been
-- entered, is all that has been delivered, with what is in it now.
pub record InOrder (m0 m : Machine) (entered delivered : List ℕ) : Type 0 where
  pub code : m.cpu.cs ≡ 0x1B
  pub valid : IsValid m.kernel.shell.stdin
  pub order : contents m0.kernel.shell.stdin ++ entered ≡ delivered ++ contents m.kernel.shell.stdin

InOrder-step :
    (m0 m m' : Machine) (entered delivered more out : List ℕ)
    → InOrder m0 m entered delivered
    → m'.cpu.cs ≡ 0x1B
    → Feeds m.kernel.shell m'.kernel.shell more out
    → InOrder m0 m' (entered ++ more) (delivered ++ out)
InOrder-step m0 m m' entered delivered more out h code feeds = record {
  code = code;
  valid = feeds.valid;
  order =
      sym (append_assoc (contents m0.kernel.shell.stdin) entered more)
      ∙ ap (λ xs. xs ++ more) h.order
      ∙ append_assoc delivered (contents m.kernel.shell.stdin) more
      ∙ ap (λ xs. delivered ++ xs) feeds.order
      ∙ sym (append_assoc delivered out (contents m'.kernel.shell.stdin));
}

module _ (exit_address stack_top : ℕ) (idt : Idt) (gates : IsGated idt) (m0 : Machine)
    (user : m0.cpu.cs ≡ 0x1B) (valid : IsValid m0.kernel.shell.stdin) where
  -- With gates to the kernel's code, and from a machine in user mode with a valid stdin, whatever the
  -- order of the program's steps, keys, ticks and system calls: the program stays in user mode, stdin
  -- is valid, and what has been delivered to the program is a first part of what was in stdin at the
  -- start and has been entered since, in order. What is in stdin now is all the rest of it.
  pub Session-InOrder :
      (m : Machine) (entered delivered : List ℕ)
      → Session exit_address stack_top idt m0 m entered delivered
      → InOrder m0 m entered delivered
  Session-InOrder m entered delivered begins = record {
    code = user;
    valid = valid;
    order = append-nil (contents m0.kernel.shell.stdin);
  }
  Session-InOrder m entered delivered (computes before m' es ds t code shell) =
      let h = Session-InOrder before es ds t in
      record {
        code = code ∙ h.code;
        valid = subst (λ (sh : Shell). IsValid sh.stdin) (sym shell) h.valid;
        order = h.order ∙ ap (λ (sh : Shell). ds ++ contents sh.stdin) (sym shell);
      }
  Session-InOrder m entered delivered (interrupted before m' es ds port s flags v t which e) =
      let h = Session-InOrder before es ds t in
      let step =
        after_interrupt exit_address stack_top idt gates port s flags v before m h.code h.valid
          which e in
      subst (λ xs. InOrder m0 m entered xs) (append-nil ds)
        (InOrder-step m0 before m es ds (if v == 33 then typed before.kernel (port 0x60) else []) []
          h step.0 step.1)
  Session-InOrder m entered delivered (calls before m' es ds port s flags t not_exit e) =
      let h = Session-InOrder before es ds t in
      let step =
        after_call exit_address stack_top idt gates port s flags before m h.code h.valid not_exit
          e in
      InOrder-step m0 before m es ds (own_input before.kernel (arrival idt 0x80 0 before.cpu))
        (read_back (arrival idt 0x80 0 before.cpu) m.kernel m.cpu.eax) h step.0 step.1

  -- In every state of such a session each key, tick and system call but `SYS_EXIT` returns to the
  -- program.
  pub Session-returns :
      (m : Machine) (entered delivered : List ℕ) (port : ℕ → ℕ) (s : Scratch) (flags v : ℕ)
      → Session exit_address stack_top idt m0 m entered delivered
      → ((v ≡ 32) ⊎ (v ≡ 33)) ⊎ ((v ≡ 0x80) × (m.cpu.eax ≢ sys_exit))
      → (m' : Machine) × (serve exit_address stack_top port s idt flags v [] m ≡ some (runs m'))
        × (m'.cpu.cs ≡ 0x1B)
        × (m'.cpu.eip ≡ m.cpu.eip)
  Session-returns m entered delivered port s flags v t (inl which) =
      let h = Session-InOrder m entered delivered t in
      let r =
        interrupt-Steps exit_address stack_top idt gates port s flags v m h.code h.valid which in
      (r.m', r.result, r.code, r.next)
  Session-returns m entered delivered port s flags v t (inr (call, not_exit)) =
      let h = Session-InOrder m entered delivered t in
      let r = call-Steps exit_address stack_top idt gates port s flags m h.code h.valid not_exit in
      rw call (r.m', r.result, r.code, r.next)
