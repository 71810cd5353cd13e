-- ===== src/Interrupts/Input/Reports.antt =====
-- What a write from a program does, and what it is told.
use native.Mathlib.Decide.{dec_lt}
use drupe.Base.{
  ◌==◌, if◌then◌else◌, tabulate, ℤ, signed32, rounds, ℕ, ◌+◌, ◌-◌, ◌<◌, min, ◌≡◌, refl, sym, ap,
  ◌⊎◌, inl, inr, false, Option, some, [], ◌++◌, arith,
}
use drupe.Stream.Inv.{IsValid}
use drupe.Stream.Queue.{contents}
use drupe.Shell.{sh_write_stream}
use drupe.Interrupts.{Frame, Kernel}
use drupe.Interrupts.Syscalls.{sys_write, syscall_write, dispatch, handle_syscall}
use drupe.Interrupts.Syscalls.Transfer.{IsCall, sh_write_stream_nowhere}
use drupe.Interrupts.Input.{sh_write_stream-Feeds}

-- The whole length is reported, whatever becomes of the bytes. For stdin they are as many as there is
-- room for, at most; a stream that does not exist gets none.
pub record HasWritten (k : Kernel) (frame : Frame) (r : Option (Kernel × Frame)) : Type 0 where
  pub k' : Kernel
  pub result : r ≡ some (k', record frame { eax = frame.edx })
  pub memory : k'.memory ≡ k.memory
  pub valid : IsValid k'.shell.stdin
  pub input :
      contents k'.shell.stdin
      ≡ contents k.shell.stdin
        ++ (if frame.ebx == 0
            then tabulate
                (min (rounds (signed32 frame.edx)) (1024 - k.shell.stdin.count))
                0
                (λ i. k.memory (frame.ecx + i))
            else [])
  pub stream : (frame.ebx < 3) ⊎ (k' ≡ k)

written_to :
    (k : Kernel) (w : ℕ) (buf : ℕ → ℕ) (len : ℤ)
    → (w < 3) ⊎ (record k { shell = (sh_write_stream k.shell (signed32 w) buf len).0 } ≡ k)
written_to k w buf len = elim (dec_lt w 3) [
  | yes known ↦ inl known
  | no other ↦
      inr
        (ap (λ p. record k { shell = p }) (sh_write_stream_nowhere k.shell w buf len (omega arith)))
]

-- A write from user mode to the kernel, from an accepted address and with a valid stdin, returns with
-- the whole length that was asked for, as if all of it had been written. Of the bytes at the address
-- the first ones that fit go to the end of stdin if it is stream 0, none goes there otherwise, and
-- with the number of no stream nothing changes at all. The memory is as it was.
pub handle_syscall-HasWritten :
    (exit_address stack_top : ℕ) (k : Kernel) (frame : Frame)
    → IsValid k.shell.stdin
    → IsCall sys_write frame
    → HasWritten k frame (handle_syscall exit_address stack_top k frame)
unfolding handle_syscall dispatch syscall_write
handle_syscall-HasWritten exit_address stack_top k frame v call =
    let buf = λ (i : ℕ). k.memory (frame.ecx + i) in
    let fed = sh_write_stream-Feeds k.shell frame.ebx buf (signed32 frame.edx) v in
    let some_buffer : (frame.ecx == 0) ≡ false = ground (arith, call.accepted) in
    let user = call.user in
    rw (user, call.eax, some_buffer, call.accepted)
      (record {
        k' = _;
        result = refl;
        memory = refl;
        valid = fed.valid;
        input = sym fed.order;
        stream = written_to k frame.ebx buf (signed32 frame.edx);
      })
