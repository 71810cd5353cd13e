-- ===== src/Usermode/Setup.antt =====
-- source/system/usermode/usermode.c: loading a program, and the switch to it.
pub mod Ends
pub mod Loads
pub mod Tests
use drupe.Base.{◌==◌, if◌then◌else◌, chars, ◌>>=◌, ℕ, bit_or, Option, none, some, List, [], ◌∷◌}
use drupe.Shell.Print.{str, word}
use drupe.Boot.Idt.{tss_set_kernel_stack}
use drupe.Interrupts.{say}
use drupe.Filesystem.{Inode}
use drupe.Filesystem.Mount.{ext2_read_inode}
use drupe.Filesystem.File.{ext2_read_file}
use drupe.Filesystem.Search.{put_line, ext2_find_file_inode_by_name}
use drupe.Usermode.{System}
use drupe.Usermode.Processes.{user_stack_top, process_at, proc_create}

abbrev pub user_code_base : ℕ
user_code_base = 0x400000

-- `um_setup_env` from the read of the program on
unfoldable pub load_program : Inode → System → Option System
load_program inode sys = do
  (memory, bytes_read) ←
      ext2_read_file sys.fs inode user_code_base inode.i_size_lo 0 sys.kernel.memory
  let k = record sys.kernel { memory = memory }
  if bytes_read == inode.i_size_lo
      then some (record sys { kernel = k })
      else (say k (chars "Failed to read complete program (read %d of %d bytes)\r\n")
            (word bytes_read ∷ word inode.i_size_lo ∷ [])
          >>= λ k'. some (record sys { kernel = k' }))

-- the two branches of the test for the program's inode
unfoldable pub open_program : List ℕ → Option Inode → System → Option System
unfolding load_program
open_program program_name none sys =
    say sys.kernel (chars "Failed to find program: %s\r\n") (str (some program_name) ∷ []) >>= λ k.
    some (record sys { kernel = k })
open_program program_name (some inode) sys = load_program inode sys

-- the inode of a number, `some none` for the number 0 or where it cannot be read
abbrev pub inode_of : System → ℕ → Option (Option Inode)
inode_of sys inode_num =
    if inode_num == 0 then some none else ext2_read_inode sys.fs inode_num sys.kernel.memory

-- `um_setup_env` for a new process
unfoldable pub prepare : List ℕ → System → ℕ → Option System
unfolding open_program
prepare program_name sys pid = do
  (k, inode_num) ← ext2_find_file_inode_by_name sys.fs program_name sys.kernel
  let sys' = record sys {
    kernel = k;
    idt = tss_set_kernel_stack sys.idt (process_at sys.procs pid).kernel_stack_top;
  }
  inode ← inode_of sys' inode_num
  open_program program_name inode sys'

-- The new state; the function gives no result, also where it fails.
unfoldable pub um_setup_env : List ℕ → System → Option System
unfolding prepare
um_setup_env program_name sys =
    let (created, procs, pmm) = proc_create sys.procs sys.pmm in
    let sys' = record sys { procs = procs; pmm = pmm } in
    elim created [
      | none ↦
          some (record sys' { kernel = put_line sys.kernel (chars "Failed to create process\r\n") })
      | some pid ↦ prepare program_name sys' pid
    ]

-- what `um_switch` leaves in the processor's registers
pub record UserEntry : Type 0 where
  pub ss : ℕ
  pub esp : ℕ
  pub eflags : ℕ
  pub cs : ℕ
  pub eip : ℕ
  pub ds : ℕ
  pub es : ℕ
  pub fs : ℕ
  pub gs : ℕ

-- from the flags that `pushf` saves
unfoldable pub um_switch : ℕ → UserEntry
um_switch eflags = record {
  ss = 0x23;
  esp = user_stack_top;
  eflags = bit_or eflags 0x200;
  cs = 0x1B;
  eip = user_code_base;
  ds = 0x23;
  es = 0x23;
  fs = 0x23;
  gs = 0x23;
}
