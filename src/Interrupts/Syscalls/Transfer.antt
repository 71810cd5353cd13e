-- ===== src/Interrupts/Syscalls/Transfer.antt =====
-- What the calls that read and write hand over, and what they report.
use drupe.Base.{
  ltb, leb, ◌==◌, if◌then◌else◌, Bool-cases, length, get_or, ℤ, signed32, rounds, Bytes, ℕ, zero,
  suc, ◌+◌, ◌^◌, ◌≤◌, ◌<◌, bit_and, ◌≡◌, refl, ap, ◌∙◌, inl, inr, true, false, Option, some, List,
  [], ◌∷◌, ◌++◌, arith,
}
use drupe.Stream.{stream_read}
use drupe.Stream.Queue.{stream_read-HasRead, contents}
use drupe.Interrupts.{Frame, Kernel}
use drupe.Interrupts.Syscalls.{
  sys_read, in_user_memory, store_bytes, syscall_read, dispatch, handle_syscall,
}
use drupe.Interrupts.Syscalls.Safety.{store_bytes-Outside}
use drupe.Shell.{Shell, sh_write_stream}

-- a call from user mode, with an accepted address
pub record IsCall (number : ℕ) (frame : Frame) : Type 0 where
  pub eax : frame.eax ≡ number
  pub user : bit_and frame.cs 0x3 ≡ 3
  pub accepted : in_user_memory frame.ecx ≡ true

pub store_bytes-inside :
    (cs : List ℕ) (a : ℕ) (m : Bytes) (i : ℕ)
    → i < length cs
    → store_bytes cs a m (a + i) ≡ get_or cs i 0
store_bytes-inside [] a m i h = absurd (omega arith)
store_bytes-inside (c ∷ cs) a m zero h =
    ap (store_bytes cs (a + 1) (λ j. if j == a then c else m j)) {x = a + 0} {y = a} (omega arith)
    ∙ store_bytes-Outside cs (a + 1) (λ j. if j == a then c else m j) a (inl (omega arith))
    ∙ ground arith
store_bytes-inside (c ∷ cs) a m (suc i) h =
    ap (store_bytes cs (a + 1) (λ j. if j == a then c else m j)) {x = a + suc i} {y = a + 1 + i}
      (omega arith)
    ∙ store_bytes-inside cs (a + 1) (λ j. if j == a then c else m j) i (omega arith)

-- what a read makes of the kernel and the frame
pub record HasTaken (k : Kernel) (frame : Frame) (r : Option (Kernel × Frame)) : Type 0 where
  pub k' : Kernel
  pub frame' : Frame
  pub out : List ℕ
  pub result : r ≡ some (k', frame')
  pub prefix : contents k.shell.stdin ≡ out ++ contents k'.shell.stdin
  pub stored : (i : ℕ) → i < length out → k'.memory (frame.ecx + i) ≡ get_or out i 0
  pub reported : frame'.eax ≡ length out
  pub limit : length out ≤ rounds (signed32 frame.edx)

-- A read from user mode to an accepted address takes a first part of stdin, stores it from that
-- address on, returns its length, and takes no more than was asked for.
pub handle_syscall-HasTaken :
    (exit_address stack_top : ℕ) (k : Kernel) (frame : Frame)
    → IsCall sys_read frame
    → HasTaken k frame (handle_syscall exit_address stack_top k frame)
handle_syscall-HasTaken exit_address stack_top k frame call =
    let r = stream_read k.shell.stdin (signed32 frame.edx) in
    let h = stream_read-HasRead k.shell.stdin (signed32 frame.edx) in
    let some_buffer : (frame.ecx == 0) ≡ false = ground (arith, call.accepted) in
    record {
      k' = record k {
        shell = record k.shell { stdin = r.0 };
        memory = store_bytes r.1 frame.ecx k.memory;
      };
      frame' = record frame { eax = length r.1 };
      out = r.1;
      result =
          unfold handle_syscall dispatch syscall_read in
          rw (call.user, call.eax, some_buffer, call.accepted) refl;
      prefix = h.prefix;
      stored = λ i lt. store_bytes-inside r.1 frame.ecx k.memory i lt;
      reported = refl;
      limit = h.limit;
    }

pub sh_write_stream_nowhere :
    (sh : Shell) (w : ℕ) (buf : ℕ → ℕ) (len : ℤ)
    → 3 ≤ w
    → (sh_write_stream sh (signed32 w) buf len).0 ≡ sh
unfolding sh_write_stream
sh_write_stream_nowhere sh w buf len h = elim (Bool-cases (ltb w (2 ^ 31))) [
  | inl low ↦ rw low (let over : leb 3 w ≡ true = ground arith in rw over refl)
  | inr high ↦ rw high refl
]
