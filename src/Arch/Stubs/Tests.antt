-- ===== src/Arch/Stubs/Tests.antt =====
-- The theorems on the stubs, for a program that is interrupted at a concrete place.
use drupe.Base.{chars, ℕ, ◌≡◌, refl, ap, inr, some, [], ◌∷◌, ◌++◌, arith}
use drupe.Boot.Idt.{Idt, gate_at, idt_setup, make_gate, tss_set_kernel_stack}
use drupe.Boot.Idt.Setup.{gate_at-idt_setup}
use drupe.Boot.Idt.Tests.{cold, cold_gdt, stubs}
use drupe.Interrupts.{Kernel}
use drupe.Interrupts.Handlers.{interrupt_handler, finish}
use drupe.Interrupts.Syscalls.{sys_exit, sys_getpid, exit_to_kernel, handle_syscall, dispatch}
use drupe.Interrupts.Say.{told}
use drupe.Interrupts.Tests.{kernel}
use drupe.Shell.Print.Format.{numeral}
use drupe.Arch.{Cpu, Machine, runs, halts_for_ever, Scratch}
use drupe.Arch.Stubs.{serve}
use drupe.Arch.Stubs.Layout.{registers_of}
use drupe.Arch.Stubs.Return.{arrival, serve-returns}
use drupe.Arch.Stubs.Exit.{exited, serve-exits}
use drupe.Arch.Stubs.Undisturbed.{HasSelectors, serve-undisturbed}
use drupe.Arch.Stubs.Halt.{serve-stops}

-- the table with a stack for the kernel
abbrev pub idt : Idt
idt = tss_set_kernel_stack (idt_setup stubs cold cold_gdt).0 0x10C000

pub keyboard_gate : (gate_at idt 33).selector ≡ 0x08
unfolding make_gate tss_set_kernel_stack
keyboard_gate = ap (λ e. e.selector) (gate_at-idt_setup stubs cold cold_gdt 33)

protection_gate : (gate_at idt 13).selector ≡ 0x08
unfolding make_gate tss_set_kernel_stack
protection_gate = ap (λ e. e.selector) (gate_at-idt_setup stubs cold cold_gdt 13)

pub timer_gate : (gate_at idt 32).selector ≡ 0x08
unfolding make_gate tss_set_kernel_stack
timer_gate = ap (λ e. e.selector) (gate_at-idt_setup stubs cold cold_gdt 32)

pub call_gate : (gate_at idt 0x80).selector ≡ 0x08
unfolding make_gate tss_set_kernel_stack
call_gate = ap (λ e. e.selector) (gate_at-idt_setup stubs cold cold_gdt 0x80)

-- A program at 0x400010, with a number in `eax` and an argument in `ebx`.
abbrev pub program_cpu : ℕ → ℕ → Cpu
program_cpu eax ebx = record {
  eax = eax;
  ebx = ebx;
  ecx = 0x400100;
  edx = 4;
  esi = 5;
  edi = 6;
  ebp = 0x7FFFF8;
  esp = 0x7FFFF0;
  ds = 0x23;
  es = 0x23;
  fs = 0x23;
  gs = 0x23;
  ss = 0x23;
  cs = 0x1B;
  eip = 0x400010;
  eflags = 0x202;
}

abbrev pub machine : ℕ → ℕ → Machine
machine eax ebx = record { cpu = program_cpu eax ebx; stack = []; kernel = kernel; ports = [] }

abbrev pub scratch : Scratch
scratch = record { eax = 0; ecx = 1; edx = 2; eflags = 0x46 }

serve-returns_example :
    serve 0x101000 0x10C000 (λ p. 0) scratch idt 0x202 0x80 [] (machine sys_getpid 0)
    ≡ some (
        runs (record {
          cpu = registers_of (record (arrival idt 0x80 0 (program_cpu sys_getpid 0)) { eax = 1 });
          stack = [];
          kernel = kernel;
          ports = [];
        }))
unfolding interrupt_handler handle_syscall dispatch finish
serve-returns_example =
    serve-returns 0x101000 0x10C000 (λ p. 0) scratch idt 0x202 0x80 0 (machine sys_getpid 0) kernel
      (record (arrival idt 0x80 0 (program_cpu sys_getpid 0)) { eax = 1 }) [] refl refl call_gate
      refl refl

program-HasSelectors : HasSelectors (program_cpu 7 8)
program-HasSelectors = record {
  ds = omega arith;
  es = omega arith;
  fs = omega arith;
  gs = omega arith;
  ss = omega arith;
  cs = omega arith;
}

serve-undisturbed_example :
    (k' : Kernel) × (serve 0x101000 0x10C000 (λ p. 0x1E) scratch idt 0x2 33 [] (machine 7 8)
      ≡ some (
          runs
            (record { cpu = program_cpu 7 8; stack = []; kernel = k'; ports = (0x20, 0x20) ∷ [] })))
    × (k'.memory ≡ kernel.memory)
serve-undisturbed_example =
    serve-undisturbed 0x101000 0x10C000 (λ p. 0x1E) scratch idt 0x2 33 (machine 7 8) (inr refl) refl
      program-HasSelectors keyboard_gate

serve-exits_example :
    (serve 0x101000 0x10C000 (λ p. 0) scratch idt 0x202 0x80 [] (machine sys_exit 7)
      ≡ some (runs (exited 0x101000 0x10C000 idt (machine sys_exit 7) [])))
    × (exit_to_kernel (exited 0x101000 0x10C000 idt (machine sys_exit 7) []).kernel
        ≡ told kernel (chars "Exited with code " ++ numeral 7 10 ++ chars "\r\nIdling...\r\n"))
unfolding tss_set_kernel_stack
serve-exits_example =
    serve-exits 0x101000 0x10C000 (λ p. 0) scratch idt 0x202 (machine sys_exit 7) refl call_gate
      (omega arith) refl

serve-stops_example :
    (k' : Kernel) × (serve 0x101000 0x10C000 (λ p. 0) scratch idt 0x2 13 (0x18 ∷ []) (machine 7 8)
      ≡ some (halts_for_ever k' []))
serve-stops_example =
    serve-stops 0x101000 0x10C000 (λ p. 0) scratch idt 0x2 13 0x18 (machine 7 8) refl (omega arith)
      (λ e. absurd (omega arith)) refl protection_gate (omega arith)
