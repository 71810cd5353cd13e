-- ===== src/Arch/Stubs.antt =====
-- source/arch/x86/idt_asm.asm: the stubs of the interrupts, and how the processor reaches them.
pub mod Layout
pub mod Common
pub mod Return
pub mod Exit
pub mod Halt
pub mod Undisturbed
pub mod Tests
use drupe.Base.{
  ltb, leb, ◌==◌, if◌then◌else◌, ◌>>=◌, ℕ, ◌+◌, ◌*◌, ◌^◌, bit_and, Bool, ◌&&◌, ◌||◌, Option, none,
  some, List, [], ◌∷◌, ◌++◌,
}
use drupe.Boot.Idt.{Idt, IdtEntry, gate_at}
use drupe.Arch.{
  Machine, Instruction, Run, ds_register, es_register, fs_register, gs_register, push_dword,
  push_segment, pop_segment, pushad, popad, mov_ax, mov_segment_ax, push_esp,
  call_interrupt_handler, call_irq_handler, add_esp, iret, push, Scratch, run,
}

-- `isr_common` and `irq_common` up to the call, and from there on
abbrev pub save : List Instruction
save =
    pushad
    ∷ push_segment ds_register
    ∷ push_segment es_register
    ∷ push_segment fs_register
    ∷ push_segment gs_register
    ∷ mov_ax 0x10
    ∷ mov_segment_ax ds_register
    ∷ mov_segment_ax es_register
    ∷ mov_segment_ax fs_register
    ∷ mov_segment_ax gs_register
    ∷ push_esp
    ∷ []

abbrev pub restore : List Instruction
restore =
    add_esp 4
    ∷ pop_segment gs_register
    ∷ pop_segment fs_register
    ∷ pop_segment es_register
    ∷ pop_segment ds_register
    ∷ popad
    ∷ add_esp 8
    ∷ iret
    ∷ []

abbrev pub isr_common : List Instruction
isr_common = save ++ call_interrupt_handler ∷ restore

abbrev pub irq_common : List Instruction
irq_common = save ++ call_irq_handler ∷ restore

-- The stub of a vector, `isr0` to `isr8`, `isr10` to `isr14`, `isr16`, `isr128`, `irq0` or `irq1`;
-- `none` for the other vectors, which have none.
unfoldable pub stub : ℕ → Option (List Instruction)
stub v =
    if ltb v 8 || v == 16 || v == 128
    then some (push_dword 0 ∷ push_dword v ∷ isr_common)
    else (if v == 8 || leb 10 v && leb v 14
        then some (push_dword v ∷ isr_common)
        else (if v == 32 || v == 33 then some (push_dword 0 ∷ push_dword v ∷ irq_common) else none))

-- the vectors for which the processor pushes an error code itself
abbrev pub has_error_code : ℕ → Bool
has_error_code v = v == 8 || leb 10 v && leb v 14 || v == 17 || v == 21 || v == 29 || v == 30

-- the address in a gate
abbrev pub gate_address : IdtEntry → ℕ
gate_address e = e.handler_low + 2 ^ 16 * e.handler_high

-- What the processor does on an interrupt: with the gate of its vector, on the stack of the task state
-- segment if it interrupts user mode. `flags` are the flags in the handler, `error` holds the error
-- code if there is one.
unfoldable pub interrupt : Idt → ℕ → ℕ → List ℕ → Machine → Machine
interrupt idt flags v error m =
    let cpu = m.cpu in
    let gate = gate_at idt v in
    let inner =
      if bit_and cpu.cs 3 == 0
      then m
      else push cpu.esp (
          push cpu.ss
            (record m { cpu = record cpu { esp = idt.tss.esp0; ss = idt.tss.ss0 }; stack = [] })) in
    let saved = push cpu.eip (push cpu.cs (push cpu.eflags inner)) in
    let told : Machine = elim error [ [] ↦ saved | e ∷ es ↦ push e saved ] in
    record told {
      cpu = record told.cpu { cs = gate.selector; eip = gate_address gate; eflags = flags };
    }

-- An interrupt from its arrival to the return of the stub. The code at the address in the gate is
-- the stub of the vector; `none` for a vector without one.
module _ (exit_address stack_top : ℕ) (port : ℕ → ℕ) (s : Scratch) where
  unfoldable pub serve : Idt → ℕ → ℕ → List ℕ → Machine → Option Run
  unfolding interrupt stub
  serve idt flags v error m =
      stub v >>= λ code. run exit_address stack_top port s code (interrupt idt flags v error m)
