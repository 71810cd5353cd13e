-- ===== src/Session.antt =====
-- A program in user mode and the interrupts on its way, in any order.
pub mod InOrder
pub mod Boot
pub mod Isolated
pub mod Tests
use drupe.Base.{◌==◌, if◌then◌else◌, ℕ, ◌≡◌, ◌≢◌, ◌⊎◌, some, List, [], ◌++◌}
use drupe.Boot.Idt.{Idt, gate_at}
use drupe.Interrupts.Syscalls.{sys_exit}
use drupe.Interrupts.Input.{own_input, read_back, typed}
use drupe.Arch.{Machine, runs, Scratch}
use drupe.Arch.Stubs.{serve}
use drupe.Arch.Stubs.Return.{arrival}

-- the gates of the timer, the keyboard and the system calls lead to the kernel's code
pub record IsGated (idt : Idt) : Type 0 where
  pub timer : (gate_at idt 32).selector ≡ 0x08
  pub keyboard : (gate_at idt 33).selector ≡ 0x08
  pub call : (gate_at idt 0x80).selector ≡ 0x08

-- The machine in user mode after any number of steps from `m0`, with what has been entered into stdin
-- and what system calls have delivered to the program, in order. A program changes the registers and
-- the memory as it likes, but not its code segment, nor the shell, which no part of the memory of the
-- model holds. It has not called `SYS_EXIT`, and has raised no exception.
pub data Session (exit_address stack_top : ℕ) (idt : Idt) (m0 : Machine)
    : Machine → List ℕ → List ℕ → Type 0 where
  begins : Session exit_address stack_top idt m0 m0 [] []
  computes :
      (m m' : Machine) (entered delivered : List ℕ)
      → Session exit_address stack_top idt m0 m entered delivered
      → m'.cpu.cs ≡ m.cpu.cs
      → m'.kernel.shell ≡ m.kernel.shell
      → Session exit_address stack_top idt m0 m' entered delivered
  interrupted :
      (m m' : Machine) (entered delivered : List ℕ) (port : ℕ → ℕ) (s : Scratch) (flags v : ℕ)
      → Session exit_address stack_top idt m0 m entered delivered
      → (v ≡ 32) ⊎ (v ≡ 33)
      → serve exit_address stack_top port s idt flags v [] m ≡ some (runs m')
      → Session exit_address stack_top idt m0 m'
          (entered ++ (if v == 33 then typed m.kernel (port 0x60) else []))
          delivered
  calls :
      (m m' : Machine) (entered delivered : List ℕ) (port : ℕ → ℕ) (s : Scratch) (flags : ℕ)
      → Session exit_address stack_top idt m0 m entered delivered
      → m.cpu.eax ≢ sys_exit
      → serve exit_address stack_top port s idt flags 0x80 [] m ≡ some (runs m')
      → Session exit_address stack_top idt m0 m'
          (entered ++ own_input m.kernel (arrival idt 0x80 0 m.cpu))
          (delivered ++ read_back (arrival idt 0x80 0 m.cpu) m'.kernel m'.cpu.eax)
