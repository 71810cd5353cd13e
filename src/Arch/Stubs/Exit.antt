-- ===== src/Arch/Stubs/Exit.antt =====
-- Where `SYS_EXIT` really goes.
use drupe.Base.{
  ltb, chars, u16, u32, ◌>>=◌, ℕ, zero, suc, ◌+◌, ◌*◌, ◌/◌, ◌^◌, ◌<◌, bit_and, ◌≡◌, refl, sym, ap,
  ◌∙◌, false, some, List, [], ◌∷◌, ◌++◌, arith,
}
use drupe.Interrupts.{Frame, Kernel}
use drupe.Interrupts.Handlers.{resume}
use mathlib.Core.List.{append-nil, append_assoc}
use drupe.Shell.{sh_puts}
use drupe.Arch.{
  Cpu, runs, Scratch, execute, execute_popad, execute_iret, run, frame_words, Machine,
  call_interrupt_handler, scratched, unless_stopped, push,
}
use drupe.Interrupts.{Kernel}
use drupe.Interrupts.Say.{told, say-formatted}
use drupe.Interrupts.Handlers.{finish, interrupt_handler}
use drupe.Interrupts.Syscalls.{
  exit_to_kernel, sys_exit, exit_frame, syscall_exit, dispatch, handle_syscall,
}
use drupe.Shell.Print.{word}
use drupe.Shell.Print.Format.{sh_puts-append, formatted, converted, numeral}
use drupe.Arch.Stubs.Return.{arrival, interrupt-at_stub, at_stub}
use drupe.Boot.Idt.{Idt, gate_at}
use drupe.Arch.Stubs.{isr_common, restore, stub, serve}
use drupe.Arch.Stubs.Common.{until-call, called, calls-handled_by}
use drupe.Arch.Stubs.Layout.{handled_by, frame_of, at_call, registers_of, lowered}

-- one word up again
back_up : (n esp : ℕ) → esp < 2 ^ 32 → u32 (lowered (suc n) esp + 4) ≡ lowered n esp
back_up zero esp small = omega arith
back_up (suc n) esp small = omega arith

-- the machine after `SYS_EXIT`, about to run the code at `exit_address`
abbrev pub exited : ℕ → ℕ → Idt → Machine → List (ℕ × ℕ) → Machine
exited exit_address stack_top idt m ports = record {
  cpu = record m.cpu {
    eax = 0;
    cs = 0x08;
    eip = exit_address;
    ds = 0x10;
    es = 0x10;
    fs = 0x10;
    gs = 0x10;
    ss = idt.tss.ss0;
    esp = lowered 2 idt.tss.esp0;
  };
  stack = stack_top ∷ 0x10 ∷ [];
  kernel = told m.kernel (chars "Exited with code " ++ numeral m.cpu.ebx 10 ++ chars "\r\n");
  ports = ports;
}

module _ (exit_address stack_top : ℕ) (port : ℕ → ℕ) (s : Scratch) where
  -- The end of a stub that goes back to code of the same privilege leaves `esp` and `ss` of the frame
  -- on the stack.
  restore-stays :
      (cpu : Cpu) (pointer esp : ℕ) (f : Frame) (rest : List ℕ) (k : Kernel) (ports : List (ℕ × ℕ))
      → esp < 2 ^ 32
      → cpu.esp ≡ lowered 20 esp
      → ltb (bit_and cpu.cs 3) (bit_and (u16 f.cs) 3) ≡ false
      → run exit_address stack_top port s restore
          (record { cpu = cpu; stack = pointer ∷ frame_words f rest; kernel = k; ports = ports })
        ≡ some (
            runs (record {
              cpu = record (registers_of f) { esp = lowered 2 esp; ss = cpu.ss };
              stack = f.useresp ∷ f.ss ∷ rest;
              kernel = k;
              ports = ports;
            }))
  unfolding run execute execute_popad execute_iret
  restore-stays cpu pointer esp f rest k ports small at inward =
      rw
        (
          inward,
          at,
          back_up 19 esp small,
          back_up 18 esp small,
          back_up 17 esp small,
          back_up 16 esp small,
          back_up 15 esp small,
          back_up 14 esp small,
          back_up 13 esp small,
          back_up 12 esp small,
          back_up 11 esp small,
          back_up 10 esp small,
          back_up 9 esp small,
          back_up 8 esp small,
          back_up 7 esp small,
          back_up 6 esp small,
          back_up 5 esp small,
          back_up 4 esp small,
          back_up 3 esp small,
          back_up 2 esp small,
        )
        refl

  -- A stub from its common part on, with a handler that goes on at the privilege it runs at.
  common-stays :
      (m : Machine) (v eip cs eflags useresp ss esp : ℕ) (rest : List ℕ) (k : Kernel) (f : Frame)
      (writes : List (ℕ × ℕ))
      → m.stack ≡ v ∷ 0 ∷ eip ∷ cs ∷ eflags ∷ useresp ∷ ss ∷ rest
      → m.cpu.esp ≡ lowered 7 esp
      → esp < 2 ^ 32
      → handled_by exit_address stack_top port false m.kernel
          (frame_of m.cpu v 0 eip cs eflags useresp ss)
        ≡ some (resume k f, writes)
      → ltb (bit_and m.cpu.cs 3) (bit_and (u16 f.cs) 3) ≡ false
      → run exit_address stack_top port s isr_common m
        ≡ some (
            runs (record {
              cpu = record (registers_of f) { esp = lowered 2 esp; ss = m.cpu.ss };
              stack = f.useresp ∷ f.ss ∷ rest;
              kernel = k;
              ports = m.ports ++ writes;
            }))
  common-stays m v eip cs eflags useresp ss esp rest k f writes words at small handled inward =
      let ax = m.cpu.eax / 2 ^ 16 * 2 ^ 16 + u16 0x10 in
      let cpu = scratched s (at_call m ax).cpu in
      let here : cpu.esp ≡ lowered 20 esp = ap (lowered 13) at in
      until-call exit_address stack_top port s m call_interrupt_handler
      ∙ ap (λ o. o >>= λ r. unless_stopped (run exit_address stack_top port s restore) r)
          (calls-handled_by exit_address stack_top port s false (at_call m ax)
            ∙ called exit_address stack_top port s (handled_by exit_address stack_top port false) m
                ax v 0 eip cs eflags useresp ss rest k f writes words handled)
      ∙ restore-stays cpu (lowered 12 m.cpu.esp) esp f rest k (m.ports ++ writes) small here inward

  exit-handled :
      (k : Kernel) (frame : Frame)
      → frame.int_no ≡ 0x80
      → frame.eax ≡ sys_exit
      → bit_and frame.cs 3 ≡ 3
      → handled_by exit_address stack_top port false k frame
        ≡ some (
          resume
              (told k (chars "Exited with code " ++ numeral frame.ebx 10 ++ chars "\r\n"))
              (exit_frame exit_address stack_top frame),
          [],
        )
  unfolding interrupt_handler handle_syscall dispatch syscall_exit exit_frame finish formatted
      converted
  exit-handled k frame vector number user =
      rw
        (
          vector,
          user,
          number,
          say-formatted k (chars "Exited with code %d\r\n") (word frame.ebx ∷ []) _ refl,
        )
        refl

  -- Through a gate for the kernel's code, and with a stack for the kernel below 2 ^ 32, `SYS_EXIT` from
  -- user mode ends in `exit_to_kernel` with the kernel's code segment, but not on the
  -- stack that the handler asks for: `esp` and `ss` are still those of the task state segment, two
  -- words lower, and the words that the handler has set for them are on top of the stack. What has been
  -- put out then is the line of the exit and the line of `exit_to_kernel`.
  pub serve-exits :
      (idt : Idt) (flags : ℕ) (m : Machine)
      → bit_and m.cpu.cs 3 ≡ 3
      → (gate_at idt 0x80).selector ≡ 0x08
      → idt.tss.esp0 < 2 ^ 32
      → m.cpu.eax ≡ sys_exit
      → (serve exit_address stack_top port s idt flags 0x80 [] m
          ≡ some (runs (exited exit_address stack_top idt m m.ports)))
        × (exit_to_kernel (exited exit_address stack_top idt m m.ports).kernel
            ≡ told m.kernel
                (chars "Exited with code " ++ numeral m.cpu.ebx 10 ++ chars "\r\nIdling...\r\n"))
  unfolding serve stub exit_frame run execute exit_to_kernel
  serve-exits idt flags m user kernel small number =
      let inward : ltb (bit_and (gate_at idt 0x80).selector 3) (bit_and (u16 0x08) 3) ≡ false =
        rw kernel refl in
      let start = push 0x80 (push 0 (at_stub false idt flags 0x80 0 m)) in
      let frame = arrival idt 0x80 0 m.cpu in
      (
        ap (λ m. stub 0x80 >>= λ code. run exit_address stack_top port s code m)
              (interrupt-at_stub false idt flags 0x80 0 m user)
            ∙ common-stays start 0x80 m.cpu.eip m.cpu.cs m.cpu.eflags m.cpu.esp m.cpu.ss
                idt.tss.esp0 [] _ (exit_frame exit_address stack_top frame) [] refl refl small
                (exit-handled m.kernel frame refl number user) inward
            ∙ ap (λ ports. some (runs (exited exit_address stack_top idt m ports)))
                (append-nil m.ports),
        ap (λ sh. record m.kernel { shell = sh })
            (sym (
                sh_puts-append (chars "Exited with code " ++ numeral m.cpu.ebx 10 ++ chars "\r\n")
                  (chars "Idling...\r\n") m.kernel.shell)
              ∙ ap (sh_puts m.kernel.shell) (
                  append_assoc (chars "Exited with code " ++ numeral m.cpu.ebx 10) (chars "\r\n")
                    (chars "Idling...\r\n"))),
      )
