-- ===== src/Usermode.antt =====
-- source/system/usermode: what the kernel holds once it runs, and the processes.
pub mod Processes
pub mod Setup
use drupe.Memory.Physical.{Pmm}
use drupe.Boot.Gdt.{Gdt}
use drupe.Boot.Idt.{Idt}
use drupe.Interrupts.{Kernel}
use drupe.Filesystem.{Fs}
use drupe.Usermode.Processes.{ProcessTable}

-- the static variables of the kernel's files, and `g_ext2_fs`
pub record System : Type 0 where
  pub kernel : Kernel
  pub gdt : Gdt
  pub idt : Idt
  pub pmm : Pmm
  pub procs : ProcessTable
  pub fs : Fs
