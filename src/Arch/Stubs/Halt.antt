-- ===== src/Arch/Stubs/Halt.antt =====
-- Exceptions that end the program, and the machine with it.
use drupe.Base.{
  ltb, ◌==◌, if◌then◌else◌, u16, ◌>>=◌, ℕ, ◌+◌, ◌*◌, ◌/◌, ◌^◌, ◌≤◌, ◌<◌, bit_and, ◌≡◌, refl, ap,
  ◌∙◌, ◌≢◌, Bool, true, false, not, ◌&&◌, ◌||◌, some, [], ◌∷◌, ◌++◌, arith,
}
use mathlib.Core.List.{append-nil}
use drupe.Boot.Idt.{Idt, gate_at}
use drupe.Interrupts.{Kernel}
use drupe.Interrupts.Handlers.{resume, halt, interrupt_handler}
use drupe.Interrupts.Handlers.Outcomes.{interrupt_handler-ends}
use drupe.Arch.{Machine, halts_for_ever, Scratch, call_c, execute, run, push, unless_stopped}
use drupe.Boot.Idt.Setup.{is_interrupt}
use drupe.Arch.Stubs.{save, restore, has_error_code, serve, interrupt}
use drupe.Arch.Stubs.Common.{until-call, calls-handled_by, stub-code}
use drupe.Arch.Stubs.Layout.{
  handled_by, frame_of, at_call, vector_frame, vector_code, error_words, call_of,
}
use drupe.Arch.Stubs.Return.{arrival, at_stub, interrupt-at_stub, code_or_zero}

module _ (exit_address stack_top : ℕ) (port : ℕ → ℕ) (s : Scratch) where
  -- The handler of a call halts.
  common-stops :
      (m : Machine) (v e eip cs eflags useresp ss : ℕ) (k : Kernel)
      → m.stack ≡ v ∷ e ∷ eip ∷ cs ∷ eflags ∷ useresp ∷ ss ∷ []
      → handled_by exit_address stack_top port false m.kernel
          (frame_of m.cpu v e eip cs eflags useresp ss)
        ≡ some (halt k, [])
      → run exit_address stack_top port s (save ++ call_of false ∷ restore) m
        ≡ some (halts_for_ever k m.ports)
  unfolding call_c
  common-stops m v e eip cs eflags useresp ss k words handled =
      let at = at_call m (m.cpu.eax / 2 ^ 16 * 2 ^ 16 + u16 0x10) in
      let halted : call_c (handled_by exit_address stack_top port false) s at
          ≡ some (halts_for_ever k (m.ports ++ [])) =
        rw (words, handled) refl in
      until-call exit_address stack_top port s m (call_of false)
      ∙ ap (λ o. o >>= λ r. unless_stopped (run exit_address stack_top port s restore) r)
          (calls-handled_by exit_address stack_top port s false at ∙ halted)
      ∙ ap (λ ports. some (halts_for_ever k ports)) (append-nil m.ports)

  code-stops :
      (coded : Bool) (v e : ℕ) (m : Machine) (eip cs eflags useresp ss : ℕ) (k : Kernel)
      → m.stack ≡ error_words coded e (eip ∷ cs ∷ eflags ∷ useresp ∷ ss ∷ [])
      → handled_by exit_address stack_top port false m.kernel
          (vector_frame coded v e m eip cs eflags useresp ss)
        ≡ some (halt k, [])
      → run exit_address stack_top port s (vector_code coded v (save ++ call_of false ∷ restore)) m
        ≡ some (halts_for_ever k m.ports)
  unfolding run execute
  code-stops true v e m eip cs eflags useresp ss k words handled =
      common-stops (push v m) v e eip cs eflags useresp ss k (ap (λ ws. v ∷ ws) words) handled
  code-stops false v e m eip cs eflags useresp ss k words handled =
      common-stops (push v (push 0 m)) v 0 eip cs eflags useresp ss k (ap (λ ws. v ∷ 0 ∷ ws) words)
        handled

  stops-at_stub :
      (coded : Bool) (idt : Idt) (flags v e : ℕ) (m : Machine) (k : Kernel)
      → bit_and m.cpu.cs 3 ≡ 3
      → handled_by exit_address stack_top port false m.kernel
          (arrival idt v (code_or_zero coded e) m.cpu)
        ≡ some (halt k, [])
      → run exit_address stack_top port s
          (vector_code coded v (save ++ call_of false ∷ restore))
          (interrupt idt flags v (error_words coded e []) m)
        ≡ some (halts_for_ever k m.ports)
  stops-at_stub true idt flags v e m k user handled =
      rw (interrupt-at_stub true idt flags v e m user) (
        code-stops true v e (at_stub true idt flags v e m) m.cpu.eip m.cpu.cs m.cpu.eflags m.cpu.esp
          m.cpu.ss k refl handled)
  stops-at_stub false idt flags v e m k user handled =
      rw (interrupt-at_stub false idt flags v e m user) (
        code-stops false v e (at_stub false idt flags v e m) m.cpu.eip m.cpu.cs m.cpu.eflags
          m.cpu.esp m.cpu.ss k refl handled)

  -- With at most 1024 bytes in stdin, every exception that has a stub, but the breakpoint, 3, stops the
  -- machine for ever if it is raised in user mode and its gate leads to the kernel's code, with or
  -- without an error code: its stub does not return to the program.
  pub serve-stops :
      (idt : Idt) (flags v e : ℕ) (m : Machine)
      → (is_interrupt v || v == 0x80) ≡ true
      → v < 32
      → v ≢ 3
      → bit_and m.cpu.cs 3 ≡ 3
      → (gate_at idt v).selector ≡ 0x08
      → m.kernel.shell.stdin.count ≤ 1024
      → (k' : Kernel) × (serve exit_address stack_top port s idt flags v
            (error_words (has_error_code v) e [])
            m
          ≡ some (halts_for_ever k' m.ports))
  unfolding serve
  serve-stops idt flags v e m known exception other user gate few =
      let frame = arrival idt v (code_or_zero (has_error_code v) e) m.cpu in
      let (k', frame', h) = interrupt_handler-ends exit_address stack_top m.kernel frame few in
      let fatal : (ltb v 32 && not (v == 3)) ≡ true = ground arith in
      let isr : (v == 32 || v == 33) ≡ false = ground arith in
      let halts : interrupt_handler exit_address stack_top m.kernel frame ≡ some (halt k') =
        h ∙ ap (λ b. some (if b then halt k' else resume k' frame')) fatal in
      (
        k',
        rw (stub-code exit_address stack_top port s v known, isr)
            (stops-at_stub (has_error_code v) idt flags v e m k' user
              (ap (λ o. o >>= λ o. some (o, [])) halts)),
      )
