-- ===== src/Arch/Stubs/Common.antt =====
-- The parts of a stub: up to the call, the call, and from there on.
use drupe.Base.{
  ltb, leb, ◌==◌, Bool-cases, u16, ◌>>=◌, ℕ, ◌+◌, ◌*◌, ◌/◌, ◌^◌, bit_and, ◌≡◌, refl, ap, ◌∙◌, inl,
  inr, Bool, true, false, ◌&&◌, ◌||◌, Option, none, some, List, [], ◌∷◌, ◌++◌, arith,
}
use drupe.Interrupts.{Frame, Kernel}
use drupe.Interrupts.Handlers.{Outcome, resume}
use drupe.Arch.{
  Cpu, Machine, Instruction, Run, runs, halts_for_ever, Scratch, call_c, execute, execute_pushad,
  execute_popad, execute_iret, run, frame_words, unless_stopped, scratched, push,
}
use drupe.Boot.Idt.Setup.{is_interrupt}
use drupe.Arch.Stubs.{save, restore, has_error_code, stub}
use drupe.Arch.Stubs.Layout.{
  frame_of, registers_of, lowered, at_call, vector_frame, error_words, vector_code, call_of,
  handled_by,
}

unless_stopped_assoc :
    (o : Option Run) (f g : Machine → Option Run)
    → (o >>= λ r. unless_stopped (λ m. f m >>= λ r'. unless_stopped g r') r)
      ≡ (o >>= (λ r. unless_stopped f r) >>= λ r. unless_stopped g r)
unless_stopped_assoc none f g = refl
unless_stopped_assoc (some (runs m)) f g = refl
unless_stopped_assoc (some (halts_for_ever k writes)) f g = refl

module _ (exit_address stack_top : ℕ) (port : ℕ → ℕ) (s : Scratch) where
  pub run-append :
      (is js : List Instruction) (m : Machine)
      → run exit_address stack_top port s (is ++ js) m ≡ (
          run exit_address stack_top port s is m >>= λ r.
          unless_stopped (run exit_address stack_top port s js) r)
  unfolding run
  run-append [] js m = refl
  run-append (i ∷ is) js m =
      ap (λ f. execute exit_address stack_top port s i m >>= λ r. unless_stopped f r)
        (λ t m'. run-append is js m' t)
      ∙ unless_stopped_assoc (execute exit_address stack_top port s i m)
          (run exit_address stack_top port s is) (run exit_address stack_top port s js)

  pub save-runs :
      (m : Machine)
      → run exit_address stack_top port s save m
        ≡ some (runs (at_call m (m.cpu.eax / 2 ^ 16 * 2 ^ 16 + u16 0x10)))
  unfolding run execute execute_pushad
  save-runs m = let ax : u16 (m.cpu.eax / 2 ^ 16 * 2 ^ 16 + 16) ≡ 16 = omega arith in rw ax refl

  restore-runs :
      (cpu : Cpu) (pointer : ℕ) (f : Frame) (rest : List ℕ) (k : Kernel) (ports : List (ℕ × ℕ))
      → ltb (bit_and cpu.cs 3) (bit_and (u16 f.cs) 3) ≡ true
      → run exit_address stack_top port s restore
          (record { cpu = cpu; stack = pointer ∷ frame_words f rest; kernel = k; ports = ports })
        ≡ some (runs (record { cpu = registers_of f; stack = rest; kernel = k; ports = ports }))
  unfolding run execute execute_popad execute_iret
  restore-runs cpu pointer f rest k ports outward = rw outward refl

  -- what the handler gets, and what it leaves on the stack
  pub called :
      (handler : Kernel → Frame → Option (Outcome × List (ℕ × ℕ))) (m : Machine)
      (eax_called int_no err_code eip cs eflags useresp ss : ℕ) (rest : List ℕ) (k : Kernel)
      (f : Frame) (writes : List (ℕ × ℕ))
      → m.stack ≡ int_no ∷ err_code ∷ eip ∷ cs ∷ eflags ∷ useresp ∷ ss ∷ rest
      → handler m.kernel (frame_of m.cpu int_no err_code eip cs eflags useresp ss)
        ≡ some (resume k f, writes)
      → call_c handler s (at_call m eax_called)
        ≡ some (
            runs (record {
              cpu = scratched s (at_call m eax_called).cpu;
              stack = lowered 12 m.cpu.esp ∷ frame_words f rest;
              kernel = k;
              ports = m.ports ++ writes;
            }))
  unfolding call_c
  called handler m eax_called int_no err_code eip cs eflags useresp ss rest k f writes words
        handled =
      rw (words, handled) refl

  -- the common part of a stub is its call, with the registers saved, and what comes behind
  pub until-call :
      (m : Machine) (call : Instruction)
      → run exit_address stack_top port s (save ++ call ∷ restore) m ≡ (
          execute exit_address stack_top port s call
            (at_call m (m.cpu.eax / 2 ^ 16 * 2 ^ 16 + u16 0x10))
          >>= λ r. unless_stopped (run exit_address stack_top port s restore) r)
  unfolding run
  until-call m call =
      run-append save (call ∷ restore) m
      ∙ ap (λ o. o >>= λ r. unless_stopped (run exit_address stack_top port s (call ∷ restore)) r)
          (save-runs m)

  -- A stub from its common part on, with a handler that goes on in less privileged code: the handler
  -- gets the registers in its frame, and the registers get what it leaves there.
  common-returns :
      (handler : Kernel → Frame → Option (Outcome × List (ℕ × ℕ))) (call : Instruction)
      (m : Machine) (int_no err_code eip cs eflags useresp ss : ℕ) (rest : List ℕ) (k : Kernel)
      (f : Frame) (writes : List (ℕ × ℕ))
      → ((m' : Machine) → execute exit_address stack_top port s call m' ≡ call_c handler s m')
      → m.stack ≡ int_no ∷ err_code ∷ eip ∷ cs ∷ eflags ∷ useresp ∷ ss ∷ rest
      → handler m.kernel (frame_of m.cpu int_no err_code eip cs eflags useresp ss)
        ≡ some (resume k f, writes)
      → ltb (bit_and m.cpu.cs 3) (bit_and (u16 f.cs) 3) ≡ true
      → run exit_address stack_top port s (save ++ call ∷ restore) m
        ≡ some (
            runs (record {
              cpu = registers_of f;
              stack = rest;
              kernel = k;
              ports = m.ports ++ writes;
            }))
  unfolding run
  common-returns handler call m int_no err_code eip cs eflags useresp ss rest k f writes calls words
        handled outward =
      let ax = m.cpu.eax / 2 ^ 16 * 2 ^ 16 + u16 0x10 in
      until-call m call
      ∙ ap (λ o. o >>= λ r. unless_stopped (run exit_address stack_top port s restore) r)
          (calls (at_call m ax)
            ∙ called handler m ax int_no err_code eip cs eflags useresp ss rest k f writes words
                handled)
      ∙ restore-runs (scratched s (at_call m ax).cpu) (lowered 12 m.cpu.esp) f rest k
          (m.ports ++ writes) outward

  pub code-returns :
      (coded : Bool) (handler : Kernel → Frame → Option (Outcome × List (ℕ × ℕ)))
      (call : Instruction) (v e : ℕ) (m : Machine) (eip cs eflags useresp ss : ℕ) (rest : List ℕ)
      (k : Kernel) (f : Frame) (writes : List (ℕ × ℕ))
      → ((m' : Machine) → execute exit_address stack_top port s call m' ≡ call_c handler s m')
      → m.stack ≡ error_words coded e (eip ∷ cs ∷ eflags ∷ useresp ∷ ss ∷ rest)
      → handler m.kernel (vector_frame coded v e m eip cs eflags useresp ss)
        ≡ some (resume k f, writes)
      → ltb (bit_and m.cpu.cs 3) (bit_and (u16 f.cs) 3) ≡ true
      → run exit_address stack_top port s (vector_code coded v (save ++ call ∷ restore)) m
        ≡ some (
            runs (record {
              cpu = registers_of f;
              stack = rest;
              kernel = k;
              ports = m.ports ++ writes;
            }))
  unfolding run execute
  code-returns true handler call v e m eip cs eflags useresp ss rest k f writes calls words handled
        outward =
      common-returns handler call (push v m) v e eip cs eflags useresp ss rest k f writes calls
        (ap (λ ws. v ∷ ws) words) handled outward
  code-returns false handler call v e m eip cs eflags useresp ss rest k f writes calls words handled
        outward =
      common-returns handler call (push v (push 0 m)) v 0 eip cs eflags useresp ss rest k f writes
        calls (ap (λ ws. v ∷ 0 ∷ ws) words) handled outward

  pub calls-handled_by :
      (irq : Bool) (m : Machine)
      → execute exit_address stack_top port s (call_of irq) m
        ≡ call_c (handled_by exit_address stack_top port irq) s m
  unfolding execute
  calls-handled_by true m = refl
  calls-handled_by false m = refl

  -- the stub of a vector that has one pushes a word for the error code exactly where the processor
  -- does not
  pub stub-code :
      (v : ℕ)
      → (is_interrupt v || v == 0x80) ≡ true
      → stub v
        ≡ some (vector_code (has_error_code v) v (save ++ call_of (v == 32 || v == 33) ∷ restore))
  unfolding stub
  stub-code v known = elim (Bool-cases (ltb v 8 || v == 16 || v == 128)) [
    | inl first ↦
        let plain : has_error_code v ≡ false = ground arith in
        let isr : (v == 32 || v == 33) ≡ false = ground arith in rw (first, plain, isr) refl
    | inr other ↦ elim (Bool-cases (v == 8 || leb 10 v && leb v 14)) [
      | inl coded ↦
          let isr : (v == 32 || v == 33) ≡ false = ground arith in rw (other, coded, isr) refl
      | inr uncoded ↦
          let irq : (v == 32 || v == 33) ≡ true = ground arith in
          let plain : (v == 17 || v == 21 || v == 29 || v == 30) ≡ false = ground arith in
          rw (other, uncoded, plain, irq) refl
    ]
  ]
