-- ===== src/Arch/Stubs/Undisturbed.antt =====
-- Interrupts that the program does not notice.
use drupe.Base.{
  ◌==◌, u16, ℕ, ◌^◌, ◌<◌, bit_and, ◌≡◌, refl, sym, ap, ◌∙◌, ◌⊎◌, inl, inr, true, false, ◌||◌, some,
  [], ◌∷◌, ◌++◌, arith,
}
use drupe.Boot.Idt.{Idt, gate_at}
use drupe.Interrupts.{Frame, Kernel}
use drupe.Interrupts.Handlers.{resume, irq_handler, key_pressed, end_of_interrupt}
use drupe.Interrupts.Input.{key_pressed-memory}
use drupe.Arch.{Cpu, Machine, runs, Scratch}
use drupe.Arch.Stubs.{has_error_code, serve}
use drupe.Arch.Stubs.Layout.{handled_by, registers_of, error_words}
use drupe.Arch.Stubs.Return.{arrival, code_or_zero, serve-returns}

-- the segment registers hold selectors of 16 bits
pub record HasSelectors (cpu : Cpu) : Type 0 where
  pub ds : cpu.ds < 2 ^ 16
  pub es : cpu.es < 2 ^ 16
  pub fs : cpu.fs < 2 ^ 16
  pub gs : cpu.gs < 2 ^ 16
  pub ss : cpu.ss < 2 ^ 16
  pub cs : cpu.cs < 2 ^ 16

u16-small : (w : ℕ) → w < 2 ^ 16 → u16 w ≡ w
u16-small w small = omega arith

registers-back :
    (idt : Idt) (v e : ℕ) (cpu : Cpu) → HasSelectors cpu → registers_of (arrival idt v e cpu) ≡ cpu
registers-back idt v e cpu h =
    rw
      (
        u16-small cpu.ds h.ds,
        u16-small cpu.es h.es,
        u16-small cpu.fs h.fs,
        u16-small cpu.gs h.gs,
        u16-small cpu.ss h.ss,
        u16-small cpu.cs h.cs,
      )
      refl

irq_handler-memory :
    (port : ℕ → ℕ) (k : Kernel) (frame : Frame)
    → (frame.int_no ≡ 32) ⊎ (frame.int_no ≡ 33)
    → (k' : Kernel) × (irq_handler port k frame ≡ some (k', (0x20, 0x20) ∷ []))
      × (k'.memory ≡ k.memory)
unfolding irq_handler end_of_interrupt
irq_handler-memory port k frame (inl timer) = (k, rw timer refl, refl)
irq_handler-memory port k frame (inr keyboard) =
    (key_pressed k (port 0x60), rw keyboard refl, key_pressed-memory k (port 0x60))

module _ (exit_address stack_top : ℕ) (port : ℕ → ℕ) (s : Scratch) where
  -- The timer and the keyboard, interrupting user mode through a gate for the kernel's code, leave no
  -- trace in the program, with 16 bits in each segment register: all registers are what they were,
  -- and so is the memory. The controller gets the end of the interrupt.
  pub serve-undisturbed :
      (idt : Idt) (flags v : ℕ) (m : Machine)
      → (v ≡ 32) ⊎ (v ≡ 33)
      → bit_and m.cpu.cs 3 ≡ 3
      → HasSelectors m.cpu
      → (gate_at idt v).selector ≡ 0x08
      → (k' : Kernel) × (serve exit_address stack_top port s idt flags v [] m
          ≡ some (
              runs (record {
                cpu = m.cpu;
                stack = [];
                kernel = k';
                ports = m.ports ++ (0x20, 0x20) ∷ [];
              })))
        × (k'.memory ≡ m.kernel.memory)
  serve-undisturbed idt flags v m which user selectors kernel =
      let (k', e, alone) = irq_handler-memory port m.kernel (arrival idt v 0 m.cpu) which in
      let back : bit_and (u16 m.cpu.cs) 3 ≡ 3 =
        ap (λ w. bit_and w 3) (u16-small m.cpu.cs selectors.cs) ∙ user in
      let irq : (v == 32 || v == 33) ≡ true = ground (arith, which) in
      let plain : has_error_code v ≡ false = ground (arith, which) in
      let handled : handled_by exit_address stack_top port (v == 32 || v == 33) m.kernel
            (arrival idt v (code_or_zero (has_error_code v) 0) m.cpu)
          ≡ some (resume k' (arrival idt v 0 m.cpu), (0x20, 0x20) ∷ []) =
        rw (irq, plain, e) refl in
      let served =
        serve-returns exit_address stack_top port s idt flags v 0 m k' (arrival idt v 0 m.cpu)
          ((0x20, 0x20) ∷ []) (ground (arith, which)) user kernel handled back in
      (
        k',
        ap (λ ws. serve exit_address stack_top port s idt flags v ws m)
              (sym (ap (λ coded. error_words coded 0 []) plain))
            ∙ served
            ∙ ap
                (λ cpu. some (
                  runs (record {
                    cpu = cpu;
                    stack = [];
                    kernel = k';
                    ports = m.ports ++ (0x20, 0x20) ∷ [];
                  })))
                (registers-back idt v 0 m.cpu selectors),
        alone,
      )
