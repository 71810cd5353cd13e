-- ===== src/Interrupts.antt =====
-- source/system/interrupts: the frame of an interrupt, and what the handlers work on.
pub mod Say
pub mod Input
pub mod Syscalls
pub mod Handlers
pub mod Pic
pub mod Tests
use drupe.Base.{Bytes, ◌>>=◌, ℕ, Option, some, List}
use drupe.Shell.{Shell}
use drupe.Shell.Print.{Arg, sh_printf}

-- `interrupt_frame_t`
pub record Frame : Type 0 where
  pub gs : ℕ
  pub fs : ℕ
  pub es : ℕ
  pub ds : ℕ
  pub edi : ℕ
  pub esi : ℕ
  pub ebp : ℕ
  pub esp : ℕ
  pub ebx : ℕ
  pub edx : ℕ
  pub ecx : ℕ
  pub eax : ℕ
  pub int_no : ℕ
  pub err_code : ℕ
  pub eip : ℕ
  pub cs : ℕ
  pub eflags : ℕ
  pub useresp : ℕ
  pub ss : ℕ

-- `*g_kernel_shell`, and the memory, which the shell is no part of
pub record Kernel : Type 0 where
  pub shell : Shell
  pub memory : Bytes

-- `sh_printf` to `g_kernel_shell`
unfoldable pub say : Kernel → List ℕ → List Arg → Option Kernel
say k fmt args = sh_printf k.shell fmt args >>= λ sh. some (record k { shell = sh })
