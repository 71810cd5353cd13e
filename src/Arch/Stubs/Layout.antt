-- ===== src/Arch/Stubs/Layout.antt =====
-- How the registers lie on the stack at the call of a handler, and the handler that is called.
use drupe.Base.{u16, sub32, ◌>>=◌, ℕ, zero, suc, Bool, true, false, Option, some, List, [], ◌∷◌}
use drupe.Interrupts.{Frame, Kernel}
use drupe.Interrupts.Handlers.{Outcome, resume, interrupt_handler, irq_handler}
use drupe.Arch.{Cpu, Machine, Instruction, call_interrupt_handler, call_irq_handler, push_dword}

-- the frame of registers, behind the words that the processor and the stub push
abbrev pub frame_of : Cpu → ℕ → ℕ → ℕ → ℕ → ℕ → ℕ → ℕ → Frame
frame_of cpu int_no err_code eip cs eflags useresp ss = record {
  gs = cpu.gs;
  fs = cpu.fs;
  es = cpu.es;
  ds = cpu.ds;
  edi = cpu.edi;
  esi = cpu.esi;
  ebp = cpu.ebp;
  esp = cpu.esp;
  ebx = cpu.ebx;
  edx = cpu.edx;
  ecx = cpu.ecx;
  eax = cpu.eax;
  int_no = int_no;
  err_code = err_code;
  eip = eip;
  cs = cs;
  eflags = eflags;
  useresp = useresp;
  ss = ss;
}

-- the registers that a return to a frame of user mode sets
abbrev pub registers_of : Frame → Cpu
registers_of f = record {
  eax = f.eax;
  ebx = f.ebx;
  ecx = f.ecx;
  edx = f.edx;
  esi = f.esi;
  edi = f.edi;
  ebp = f.ebp;
  esp = f.useresp;
  ds = u16 f.ds;
  es = u16 f.es;
  fs = u16 f.fs;
  gs = u16 f.gs;
  ss = u16 f.ss;
  cs = u16 f.cs;
  eip = f.eip;
  eflags = f.eflags;
}

-- `esp` after pushing `n` words
abbrev pub lowered : ℕ → ℕ → ℕ
lowered zero esp = esp
lowered (suc n) esp = sub32 (lowered n esp) 4

-- the machine at the call of a handler
abbrev pub at_call : Machine → ℕ → Machine
at_call m eax = record m {
  cpu = record m.cpu {
    eax = eax;
    ds = 0x10;
    es = 0x10;
    fs = 0x10;
    gs = 0x10;
    esp = lowered 13 m.cpu.esp;
  };
  stack =
      lowered 12 m.cpu.esp
      ∷ m.cpu.gs
      ∷ m.cpu.fs
      ∷ m.cpu.es
      ∷ m.cpu.ds
      ∷ m.cpu.edi
      ∷ m.cpu.esi
      ∷ m.cpu.ebp
      ∷ m.cpu.esp
      ∷ m.cpu.ebx
      ∷ m.cpu.edx
      ∷ m.cpu.ecx
      ∷ m.cpu.eax
      ∷ m.stack;
}

-- the frame of a vector, and the words that the processor has pushed for it
abbrev pub vector_frame : Bool → ℕ → ℕ → Machine → ℕ → ℕ → ℕ → ℕ → ℕ → Frame
vector_frame true v e m = frame_of (record m.cpu { esp = lowered 1 m.cpu.esp }) v e
vector_frame false v e m = frame_of (record m.cpu { esp = lowered 2 m.cpu.esp }) v 0

abbrev pub error_words : Bool → ℕ → List ℕ → List ℕ
error_words true e ws = e ∷ ws
error_words false e ws = ws

-- the words of a vector, and then the common part
abbrev pub vector_code : Bool → ℕ → List Instruction → List Instruction
vector_code true v code = push_dword v ∷ code
vector_code false v code = push_dword 0 ∷ push_dword v ∷ code

abbrev pub call_of : Bool → Instruction
call_of true = call_irq_handler
call_of false = call_interrupt_handler

module _ (exit_address stack_top : ℕ) (port : ℕ → ℕ) where
  -- the handler that a stub calls, with the writes to ports
  abbrev pub handled_by : Bool → Kernel → Frame → Option (Outcome × List (ℕ × ℕ))
  handled_by true kernel frame = irq_handler port kernel frame >>= λ r. some (resume r.0 frame, r.1)
  handled_by false kernel frame =
      interrupt_handler exit_address stack_top kernel frame >>= λ o. some (o, [])
