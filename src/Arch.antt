-- ===== src/Arch.antt =====
-- source/arch/x86: the processor, as far as the assembly files use it, and their instructions.
pub mod Stubs
use drupe.Base.{
  ltb, if◌then◌else◌, u16, u32, sub32, ◌>>=◌, ℕ, zero, suc, ◌+◌, ◌*◌, ◌/◌, ◌^◌, bit_and, Option,
  none, some, List, [], ◌∷◌, ◌++◌,
}
use drupe.Boot.Idt.{Idt, IdtEntry, gate_at}
use drupe.Interrupts.{Frame, Kernel}
use drupe.Interrupts.Handlers.{Outcome, resume, halt, interrupt_handler, irq_handler}

-- the registers
pub record Cpu : Type 0 where
  pub eax : ℕ
  pub ebx : ℕ
  pub ecx : ℕ
  pub edx : ℕ
  pub esi : ℕ
  pub edi : ℕ
  pub ebp : ℕ
  pub esp : ℕ
  pub ds : ℕ
  pub es : ℕ
  pub fs : ℕ
  pub gs : ℕ
  pub ss : ℕ
  pub cs : ℕ
  pub eip : ℕ
  pub eflags : ℕ

-- The registers, the words from `esp` on, the one at `esp` first, the kernel, and the writes to ports,
-- in order. In user mode the list is empty: the stack of the program is memory of its own.
pub record Machine : Type 0 where
  pub cpu : Cpu
  pub stack : List ℕ
  pub kernel : Kernel
  pub ports : List (ℕ × ℕ)

pub data Segment : Type 0 where
  ds_register : Segment
  es_register : Segment
  fs_register : Segment
  gs_register : Segment

-- The instructions of the stubs. The three that push a pointer to the frame, call a handler and drop
-- the pointer are `push esp`, one of the two calls, and `add esp, 4`.
pub data Instruction : Type 0 where
  push_dword : ℕ → Instruction
  push_segment : Segment → Instruction
  pop_segment : Segment → Instruction
  pushad : Instruction
  popad : Instruction
  mov_ax : ℕ → Instruction
  mov_segment_ax : Segment → Instruction
  push_esp : Instruction
  call_interrupt_handler : Instruction
  call_irq_handler : Instruction
  add_esp : ℕ → Instruction
  iret : Instruction

-- An instruction ends with the machine, or a handler that it calls halts for ever.
pub data Run : Type 0 where
  runs : Machine → Run
  halts_for_ever : Kernel → List (ℕ × ℕ) → Run

abbrev pub segment : Segment → Cpu → ℕ
segment ds_register cpu = cpu.ds
segment es_register cpu = cpu.es
segment fs_register cpu = cpu.fs
segment gs_register cpu = cpu.gs

abbrev pub set_segment : Segment → ℕ → Cpu → Cpu
set_segment ds_register v cpu = record cpu { ds = v }
set_segment es_register v cpu = record cpu { es = v }
set_segment fs_register v cpu = record cpu { fs = v }
set_segment gs_register v cpu = record cpu { gs = v }

abbrev pub push : ℕ → Machine → Machine
push w m = record m { cpu = record m.cpu { esp = sub32 m.cpu.esp 4 }; stack = w ∷ m.stack }

-- `none` for a word that is not known
abbrev pub pop : Machine → Option (ℕ × Machine)
pop m = elim m.stack [
  | [] ↦ none
  | w ∷ ws ↦ some (w, record m { cpu = record m.cpu { esp = u32 (m.cpu.esp + 4) }; stack = ws })
]

-- `add esp, 4 * n`
abbrev pub drop_words : ℕ → Machine → Option Machine
drop_words zero m = some m
drop_words (suc n) m = pop m >>= λ r. drop_words n r.1

-- the words of a frame, as `interrupt_frame_t` has them in memory, and what stands behind
abbrev pub frame_words : Frame → List ℕ → List ℕ
frame_words f rest =
    f.gs ∷ f.fs ∷ f.es ∷ f.ds ∷ f.edi ∷ f.esi ∷ f.ebp ∷ f.esp ∷ f.ebx ∷ f.edx ∷ f.ecx ∷ f.eax
    ∷ f.int_no ∷ f.err_code ∷ f.eip ∷ f.cs ∷ f.eflags ∷ f.useresp ∷ f.ss ∷ rest

-- the frame that a pointer to the stack stands for, and what stands behind
abbrev pub frame_at : List ℕ → Option (Frame × List ℕ)
frame_at
      (gs ∷ fs ∷ es ∷ ds ∷ edi ∷ esi ∷ ebp ∷ esp ∷ ebx ∷ edx ∷ ecx ∷ eax ∷ int_no ∷ err_code ∷ eip
        ∷ cs ∷ eflags ∷ useresp ∷ ss ∷ rest) =
    some (
      record {
        gs = gs;
        fs = fs;
        es = es;
        ds = ds;
        edi = edi;
        esi = esi;
        ebp = ebp;
        esp = esp;
        ebx = ebx;
        edx = edx;
        ecx = ecx;
        eax = eax;
        int_no = int_no;
        err_code = err_code;
        eip = eip;
        cs = cs;
        eflags = eflags;
        useresp = useresp;
        ss = ss;
      },
      rest,
    )
frame_at other = none

-- what a C function leaves in the registers that it need not keep
pub record Scratch : Type 0 where
  pub eax : ℕ
  pub ecx : ℕ
  pub edx : ℕ
  pub eflags : ℕ

abbrev pub scratched : Scratch → Cpu → Cpu
scratched s cpu = record cpu { eax = s.eax; ecx = s.ecx; edx = s.edx; eflags = s.eflags }

-- A call with the pointer to the frame on the stack. The frame that the handler leaves is in memory.
unfoldable pub call_c :
    (Kernel → Frame → Option (Outcome × List (ℕ × ℕ))) → Scratch → Machine → Option Run
call_c handler s m = do
  (pointer, under) ← pop m
  (frame, rest) ← frame_at under.stack
  (outcome, writes) ← handler m.kernel frame
  some (elim outcome [
    | resume k frame' ↦ runs (record {
      cpu = scratched s m.cpu;
      stack = pointer ∷ frame_words frame' rest;
      kernel = k;
      ports = m.ports ++ writes;
    })
    | halt k ↦ halts_for_ever k (m.ports ++ writes)
  ])

unfoldable pub execute_pushad : Machine → Machine
execute_pushad m =
    let esp = m.cpu.esp in
    push m.cpu.edi (
      push m.cpu.esi (
        push m.cpu.ebp
          (push esp (push m.cpu.ebx (push m.cpu.edx (push m.cpu.ecx (push m.cpu.eax m)))))))

-- `popad` leaves `esp` out.
unfoldable pub execute_popad : Machine → Option Machine
execute_popad m = do
  (edi, m1) ← pop m
  (esi, m2) ← pop m1
  (ebp, m3) ← pop m2
  (esp, m4) ← pop m3
  (ebx, m5) ← pop m4
  (edx, m6) ← pop m5
  (ecx, m7) ← pop m6
  (eax, m8) ← pop m7
  some (record m8 {
    cpu = record m8.cpu {
      edi = edi;
      esi = esi;
      ebp = ebp;
      ebx = ebx;
      edx = edx;
      ecx = ecx;
      eax = eax;
    };
  })

-- The stack of the code to return to is on the stack only if that code has less privilege.
unfoldable pub execute_iret : Machine → Option Machine
execute_iret m = do
  (eip, m1) ← pop m
  (cs, m2) ← pop m1
  (eflags, m3) ← pop m2
  let m4 = record m3 { cpu = record m3.cpu { eip = eip; cs = u16 cs; eflags = eflags } }
  if ltb (bit_and m.cpu.cs 3) (bit_and (u16 cs) 3)
      then (do
        (esp, m5) ← pop m4
        (ss, m6) ← pop m5
        some (record m6 { cpu = record m6.cpu { esp = esp; ss = u16 ss } }))
      else some m4

-- what comes after an instruction, if no handler halts
abbrev pub unless_stopped : (Machine → Option Run) → Run → Option Run
unless_stopped next (runs m) = next m
unless_stopped next (halts_for_ever k writes) = some (halts_for_ever k writes)

-- `exit_address` and `stack_top` are those of `handle_syscall`, `port` what the ports give, and `s`
-- what the C code leaves in the registers that it need not keep.
module _ (exit_address stack_top : ℕ) (port : ℕ → ℕ) (s : Scratch) where
  unfoldable pub execute : Instruction → Machine → Option Run
  unfolding call_c execute_pushad execute_popad execute_iret
  execute (push_dword w) m = some (runs (push w m))
  execute (push_segment r) m = some (runs (push (segment r m.cpu) m))
  execute (pop_segment r) m =
      pop m >>= λ p. some (runs (record p.1 { cpu = set_segment r (u16 p.0) p.1.cpu }))
  execute pushad m = some (runs (execute_pushad m))
  execute popad m = execute_popad m >>= λ m'. some (runs m')
  execute (mov_ax w) m =
      some (runs (record m { cpu = record m.cpu { eax = m.cpu.eax / 2 ^ 16 * 2 ^ 16 + u16 w } }))
  execute (mov_segment_ax r) m =
      some (runs (record m { cpu = set_segment r (u16 m.cpu.eax) m.cpu }))
  execute push_esp m = some (runs (push m.cpu.esp m))
  execute call_interrupt_handler m =
      call_c (λ k frame. interrupt_handler exit_address stack_top k frame >>= λ o. some (o, [])) s m
  execute call_irq_handler m =
      call_c (λ k frame. irq_handler port k frame >>= λ r. some (resume r.0 frame, r.1)) s m
  execute (add_esp n) m = drop_words (n / 4) m >>= λ m'. some (runs m')
  execute iret m = execute_iret m >>= λ m'. some (runs m')

  unfoldable pub run : List Instruction → Machine → Option Run
  unfolding execute
  run [] m = some (runs m)
  run (i ∷ is) m = execute i m >>= λ r. unless_stopped (run is) r
