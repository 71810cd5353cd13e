-- ===== src/Interrupts/Syscalls.antt =====
-- source/system/interrupts/syscalls.c: the system calls.
pub mod Safety
pub mod Transfer
use drupe.Base.{
  ltb, leb, ◌==◌, if◌then◌else◌, chars, length, signed32, Bytes, ◌>>=◌, ℕ, ◌+◌, ◌-◌, ◌^◌, bit_and,
  Bool, not, ◌&&◌, Option, some, List, [], ◌∷◌,
}
use drupe.Stream.{stream_read}
use drupe.Shell.{sh_puts, sh_write_stream}
use drupe.Shell.Print.{word}
use drupe.Interrupts.{Frame, Kernel, say}

abbrev pub sys_exit : ℕ
sys_exit = 0x01

abbrev pub sys_read : ℕ
sys_read = 0x03

abbrev pub sys_write : ℕ
sys_write = 0x04

abbrev pub sys_getpid : ℕ
sys_getpid = 0x14

-- `(uint32_t) -1`
abbrev pub minus_one : ℕ
minus_one = 2 ^ 32 - 1

-- `arg1 >= 0x400000 && arg1 < 0x900000`
abbrev pub in_user_memory : ℕ → Bool
in_user_memory arg1 = leb 0x400000 arg1 && ltb arg1 0x900000

-- the bytes of a list at an address and behind it
abbrev pub store_bytes : List ℕ → ℕ → Bytes → Bytes
store_bytes [] a m = m
store_bytes (c ∷ cs) a m = store_bytes cs (a + 1) (λ i. if i == a then c else m i)

-- `case SYS_WRITE`
unfoldable pub syscall_write : Kernel → Frame → Option (Kernel × Frame)
syscall_write k frame =
    let wrote =
      (sh_write_stream k.shell (signed32 frame.ebx) (λ i. k.memory (frame.ecx + i))
        (signed32 frame.edx)).0 in
    if frame.ecx == 0
    then some (k, record frame { eax = minus_one })
    else (if in_user_memory frame.ecx
        then some (record k { shell = wrote }, record frame { eax = frame.edx })
        else (say k (chars "Invalid string pointer: 0x%x\r\n") (word frame.ecx ∷ []) >>= λ k'.
            some (k', record frame { eax = minus_one })))

-- `case SYS_READ`
unfoldable pub syscall_read : Kernel → Frame → Option (Kernel × Frame)
syscall_read k frame =
    let (stdin', out) = stream_read k.shell.stdin (signed32 frame.edx) in
    if frame.ecx == 0
    then some (k, record frame { eax = minus_one })
    else (if in_user_memory frame.ecx
        then some (
          record k {
            shell = record k.shell { stdin = stdin' };
            memory = store_bytes out frame.ecx k.memory;
          },
          record frame { eax = length out },
        )
        else (say k (chars "Invalid buffer pointer: 0x%x\r\n") (word frame.ecx ∷ []) >>= λ k'.
            some (k', record frame { eax = minus_one })))

-- what has been done before the loop, which halts for ever; `g_kernel_shell` is not null
unfoldable pub exit_to_kernel : Kernel → Kernel
exit_to_kernel k = record k { shell = sh_puts k.shell (chars "Idling...\r\n") }

-- `exit_address` is the address of `exit_to_kernel`, and `stack_top` what `kernel_stack_top` holds.
module _ (exit_address stack_top : ℕ) where
  -- what `case SYS_EXIT` makes of the frame
  unfoldable pub exit_frame : Frame → Frame
  exit_frame frame = record frame {
    eax = 0;
    cs = 0x08;
    ss = 0x10;
    eip = exit_address;
    useresp = stack_top;
    ds = 0x10;
    es = 0x10;
    fs = 0x10;
    gs = 0x10;
  }

  -- `case SYS_EXIT`
  unfoldable pub syscall_exit : Kernel → Frame → Option (Kernel × Frame)
  syscall_exit k frame = say k (chars "Exited with code %d\r\n") (word frame.ebx ∷ []) >>= λ k'.
      some (k', exit_frame frame)

  -- The `switch`. `g_kernel_shell` is not null.
  unfoldable pub dispatch : Kernel → Frame → Option (Kernel × Frame)
  dispatch k frame =
      if frame.eax == sys_write
      then syscall_write k frame
      else (if frame.eax == sys_exit
          then syscall_exit k frame
          else (if frame.eax == sys_getpid
              then some (k, record frame { eax = 1 })
              else (if frame.eax == sys_read
                  then syscall_read k frame
                  else (say k (chars "Unknown system call: %d\r\n") (word frame.eax ∷ []) >>= λ k'.
                      some (k', record frame { eax = minus_one })))))

  -- The new state and the frame to return to; `none` where `sh_printf` has no defined behaviour.
  unfoldable pub handle_syscall : Kernel → Frame → Option (Kernel × Frame)
  handle_syscall k frame =
      let told = sh_puts k.shell (chars "System call from kernel mode - ignoring\r\n") in
      if not (bit_and frame.cs 0x3 == 3)
      then some (record k { shell = told }, frame)
      else dispatch k frame
