-- ===== src/Interrupts/Handlers.antt =====
-- source/system/interrupts/interrupts.c: what the assembly stubs call.
pub mod Outcomes
use Prim.Native.String.{String}
use drupe.Base.{
  ltb, leb, ◌==◌, if◌then◌else◌, chars, get_elem?, get_or, replicate, sub32, ◌>>=◌, pos, ℕ, bit_and,
  not, ◌&&◌, Option, some, List, [], ◌∷◌, ◌++◌,
}
use drupe.Shell.{sh_puts, sh_write_stream, stdin_idx}
use drupe.Shell.Print.{str, word}
use drupe.Interrupts.{Frame, Kernel, say}
use drupe.Interrupts.Syscalls.{handle_syscall}

abbrev pub exception_messages : List String
exception_messages =
    "Division By Zero" ∷ "Debug" ∷ "Non Maskable Interrupt" ∷ "Breakpoint"
    ∷ "Into Detected Overflow" ∷ "Out of Bounds" ∷ "Invalid Opcode" ∷ "No Coprocessor"
    ∷ "Double Fault" ∷ "Coprocessor Segment Overrun" ∷ "Bad TSS" ∷ "Segment Not Present"
    ∷ "Stack Fault" ∷ "General Protection Fault" ∷ "Page Fault" ∷ "Unknown Interrupt"
    ∷ "Coprocessor Fault" ∷ []

-- What a handler does at its end: it returns to the stub with the frame, or it halts for ever.
pub data Outcome : Type 0 where
  resume : Kernel → Frame → Outcome
  halt : Kernel → Outcome

-- The branch for the first 17 vectors. A string behind the table is not read.
unfoldable pub report_exception : Kernel → Frame → Option Kernel
report_exception k frame = do
  message ← get_elem? exception_messages frame.int_no
  k1 ←
      say k (chars "EXCEPTION: %s (0x%x)\r\n") (str (some (chars message)) ∷ word frame.int_no ∷ [])
  k2 ← say k1 (chars "Error Code: 0x%x\r\n") (word frame.err_code ∷ [])
  k3 ← say k2 (chars "EIP: 0x%x, CS: 0x%x\r\n") (word frame.eip ∷ word frame.cs ∷ [])
  some (
      if bit_and frame.cs 0x3 == 3
      then record k3 { shell = sh_puts k3.shell (chars "Exception occurred in user mode!\r\n") }
      else k3)

-- the end of `interrupt_handler`
unfoldable pub finish : ℕ → Kernel × Frame → Outcome
finish int_no (k, frame) = if ltb int_no 32 && not (int_no == 3) then halt k else resume k frame

-- `exit_address` and `stack_top` are those of `handle_syscall`.
module _ (exit_address stack_top : ℕ) where
  -- `g_kernel_shell` is not null.
  unfoldable pub interrupt_handler : Kernel → Frame → Option Outcome
  interrupt_handler k frame =
      let told =
        if ltb frame.int_no 17
        then (report_exception k frame >>= λ k'. some (k', frame))
        else (if frame.int_no == 0x80
            then handle_syscall exit_address stack_top k frame
            else (say k (chars "Unknown interrupt: 0x%x\r\n") (word frame.int_no ∷ []) >>= λ k'.
                some (k', frame))) in
      told >>= λ r. some (finish r.1.int_no r)

-- the keymap up to its last key; all entries behind are 0
abbrev pub keymap : List ℕ
keymap =
    0 ∷ 27 ∷ chars "1234567890-="
    ++ 8 ∷ 9 ∷ chars "qwertyuiop[]"
    ++ 10 ∷ 0 ∷ chars "asdfghjkl;'`"
    ++ 0 ∷ 92 ∷ chars "zxcvbnm,."
    ++ 47 ∷ 0 ∷ 42 ∷ 0 ∷ 32 ∷ replicate 16 0
    ++ 45 ∷ 0 ∷ 0 ∷ 0 ∷ 43 ∷ []

unfoldable pub scancode_to_ascii : ℕ → ℕ
scancode_to_ascii scancode = if leb 128 scancode then 0 else get_or keymap scancode 0

-- `case 33`, with the scancode that the keyboard's port gives
unfoldable pub key_pressed : Kernel → ℕ → Kernel
key_pressed k scancode =
    let ascii = scancode_to_ascii scancode in
    let wrote = (sh_write_stream k.shell (pos stdin_idx) (λ i. ascii) (pos 1)).0 in
    if ltb scancode 128 && not (ascii == 0) then record k { shell = wrote } else k

-- the writes to ports that end an interrupt, each a port and a byte, in order
unfoldable pub end_of_interrupt : ℕ → List (ℕ × ℕ)
end_of_interrupt int_no =
    if leb 40 int_no then (0xA0, 0x20) ∷ (0x20, 0x20) ∷ [] else (0x20, 0x20) ∷ []

-- `port p` is what a read of port `p` gives. The new state, and the writes to ports.
unfoldable pub irq_handler : (ℕ → ℕ) → Kernel → Frame → Option (Kernel × List (ℕ × ℕ))
irq_handler port k frame =
    let told =
      if frame.int_no == 32
      then some k
      else (if frame.int_no == 33
          then some (key_pressed k (port 0x60))
          else say k (chars "Hardware interrupt: IRQ%d (INT 0x%x)\r\n")
              (word (sub32 frame.int_no 32) ∷ word frame.int_no ∷ [])) in
    told >>= λ k'. some (k', end_of_interrupt frame.int_no)

-- `port p` is what a read of port `p` gives.
unfoldable pub keyboard_test : (ℕ → ℕ) → Kernel → Option Kernel
keyboard_test port k = do
  k2 ←
      say (record k { shell = sh_puts k.shell (chars "Testing keyboard controller...\r\n") })
        (chars "Keyboard controller status: 0x%x\r\n") (word (port 0x64) ∷ [])
  k3 ←
      (if bit_and (port 0x64) 0x01 == 0
        then some k2
        else say k2 (chars "Data in keyboard buffer: 0x%x\r\n") (word (port 0x60) ∷ []))
  some (record k3 { shell = sh_puts k3.shell (chars "Press any key to test interrupts...\r\n") })
