-- ===== src/Arch/Stubs/Return.antt =====
-- What a stub hands to its handler, and where it goes back to.
use drupe.Base.{
  ltb, ◌==◌, u16, ℕ, bit_and, ◌≡◌, refl, Bool, true, false, ◌||◌, some, List, [], ◌∷◌, ◌++◌, arith,
}
use drupe.Boot.Idt.{Idt, gate_at}
use drupe.Interrupts.{Frame, Kernel}
use drupe.Interrupts.Handlers.{resume}
use drupe.Arch.{Cpu, Machine, runs, Scratch, run}
use drupe.Boot.Idt.Setup.{is_interrupt}
use drupe.Arch.Stubs.{save, restore, has_error_code, interrupt, serve, gate_address}
use drupe.Arch.Stubs.Common.{code-returns, calls-handled_by, stub-code}
use drupe.Arch.Stubs.Layout.{
  frame_of, registers_of, lowered, error_words, vector_code, call_of, handled_by,
}

-- The frame for code in user mode that is interrupted, with the error code that the processor gives,
-- or 0.
abbrev pub arrival : Idt → ℕ → ℕ → Cpu → Frame
arrival idt v err_code cpu =
    frame_of (record cpu { esp = lowered 7 idt.tss.esp0 }) v err_code cpu.eip cpu.cs cpu.eflags
      cpu.esp cpu.ss

-- the machine in front of a stub
abbrev pub at_stub : Bool → Idt → ℕ → ℕ → ℕ → Machine → Machine
at_stub coded idt flags v e m = record m {
  cpu = record m.cpu {
    esp = elim coded [ true ↦ lowered 6 idt.tss.esp0 | false ↦ lowered 5 idt.tss.esp0 ];
    ss = idt.tss.ss0;
    cs = (gate_at idt v).selector;
    eip = gate_address (gate_at idt v);
    eflags = flags;
  };
  stack = error_words coded e (m.cpu.eip ∷ m.cpu.cs ∷ m.cpu.eflags ∷ m.cpu.esp ∷ m.cpu.ss ∷ []);
}

pub interrupt-at_stub :
    (coded : Bool) (idt : Idt) (flags v e : ℕ) (m : Machine)
    → bit_and m.cpu.cs 3 ≡ 3
    → interrupt idt flags v (error_words coded e []) m ≡ at_stub coded idt flags v e m
unfolding interrupt
interrupt-at_stub true idt flags v e m user =
    let ring : (bit_and m.cpu.cs 3 == 0) ≡ false = ground (arith, user) in rw ring refl
interrupt-at_stub false idt flags v e m user =
    let ring : (bit_and m.cpu.cs 3 == 0) ≡ false = ground (arith, user) in rw ring refl

abbrev pub code_or_zero : Bool → ℕ → ℕ
code_or_zero true e = e
code_or_zero false e = 0

module _ (exit_address stack_top : ℕ) (port : ℕ → ℕ) (s : Scratch) where
  arrives :
      (coded : Bool) (idt : Idt) (flags v e : ℕ) (m : Machine) (k : Kernel) (f : Frame)
      (writes : List (ℕ × ℕ)) (irq : Bool)
      → bit_and m.cpu.cs 3 ≡ 3
      → (gate_at idt v).selector ≡ 0x08
      → handled_by exit_address stack_top port irq m.kernel
          (arrival idt v (code_or_zero coded e) m.cpu)
        ≡ some (resume k f, writes)
      → bit_and (u16 f.cs) 3 ≡ 3
      → run exit_address stack_top port s
          (vector_code coded v (save ++ call_of irq ∷ restore))
          (interrupt idt flags v (error_words coded e []) m)
        ≡ some (
            runs
              (record { cpu = registers_of f; stack = []; kernel = k; ports = m.ports ++ writes }))
  arrives true idt flags v e m k f writes irq user kernel handled back =
      let outward : ltb (bit_and (gate_at idt v).selector 3) (bit_and (u16 f.cs) 3) ≡ true =
        rw (kernel, back) refl in
      rw (interrupt-at_stub true idt flags v e m user) (
        code-returns exit_address stack_top port s true (handled_by exit_address stack_top port irq)
          (call_of irq) v e (at_stub true idt flags v e m) m.cpu.eip m.cpu.cs m.cpu.eflags m.cpu.esp
          m.cpu.ss [] k f writes (calls-handled_by exit_address stack_top port s irq) refl handled
          outward)
  arrives false idt flags v e m k f writes irq user kernel handled back =
      let outward : ltb (bit_and (gate_at idt v).selector 3) (bit_and (u16 f.cs) 3) ≡ true =
        rw (kernel, back) refl in
      rw (interrupt-at_stub false idt flags v e m user) (
        code-returns exit_address stack_top port s false
          (handled_by exit_address stack_top port irq) (call_of irq) v e
          (at_stub false idt flags v e m) m.cpu.eip m.cpu.cs m.cpu.eflags m.cpu.esp m.cpu.ss [] k f
          writes (calls-handled_by exit_address stack_top port s irq) refl handled outward)

  -- An interrupt of user mode by any vector that has a stub, through a gate for the kernel's code
  -- segment. The handler gets the registers, the vector and the error code in its frame; if it goes on in user
  -- mode, the registers are what it leaves in the frame, the stack of the kernel is empty again, and
  -- the kernel and the ports are as the handler leaves them.
  pub serve-returns :
      (idt : Idt) (flags v e : ℕ) (m : Machine) (k : Kernel) (f : Frame) (writes : List (ℕ × ℕ))
      → (is_interrupt v || v == 0x80) ≡ true
      → bit_and m.cpu.cs 3 ≡ 3
      → (gate_at idt v).selector ≡ 0x08
      → handled_by exit_address stack_top port
          (v == 32 || v == 33)
          m.kernel
          (arrival idt v (code_or_zero (has_error_code v) e) m.cpu)
        ≡ some (resume k f, writes)
      → bit_and (u16 f.cs) 3 ≡ 3
      → serve exit_address stack_top port s idt flags v (error_words (has_error_code v) e []) m
        ≡ some (
            runs
              (record { cpu = registers_of f; stack = []; kernel = k; ports = m.ports ++ writes }))
  unfolding serve
  serve-returns idt flags v e m k f writes known user kernel handled back =
      rw (stub-code exit_address stack_top port s v known) (
        arrives (has_error_code v) idt flags v e m k f writes (v == 32 || v == 33) user kernel
          handled back)
