-- ===== src/Interrupts/Handlers/Outcomes.antt =====
-- Which interrupts end in a halt, and what a key does.
use Prim.Native.String.{String}
use drupe.Base.{
  ltb, ◌==◌, if◌then◌else◌, ltb→lt, Bool-cases, chars, length, get_elem?, ℕ, zero, suc, ◌≤◌, ◌<◌,
  bit_and, ◌≡◌, refl, ◌≢◌, inl, inr, true, not, ◌&&◌, some, List, [], ◌∷◌, arith,
}
use drupe.Shell.Print.Format.{formatted, converted}
use drupe.Interrupts.{Frame, Kernel}
use drupe.Interrupts.Say.{say-some, told}
use drupe.Shell.Print.{str, word}
use drupe.Shell.Print.Format.{formatted, converted}
use drupe.Interrupts.Syscalls.Safety.{handle_syscall-Handled}
use drupe.Interrupts.Handlers.{
  exception_messages, report_exception, scancode_to_ascii, resume, halt, finish, interrupt_handler,
}

get_elem?-some :
    (ms : List String) (i : ℕ) → i < length ms → (m : String) × (get_elem? ms i ≡ some m)
get_elem?-some [] i h = absurd (omega arith)
get_elem?-some (m ∷ ms) zero h = (m, refl)
get_elem?-some (m ∷ ms) (suc i) h = get_elem?-some ms i (omega arith)

report_exception-some :
    (k : Kernel) (frame : Frame)
    → frame.int_no < 17
    → (k' : Kernel) × (report_exception k frame ≡ some k')
unfolding report_exception formatted converted
report_exception-some k frame h =
    let m = get_elem?-some exception_messages frame.int_no h in
    let k1 =
      say-some k (chars "EXCEPTION: %s (0x%x)\r\n")
        (str (some (chars m.0)) ∷ word frame.int_no ∷ []) _ refl in
    let k2 = say-some k1.0 (chars "Error Code: 0x%x\r\n") (word frame.err_code ∷ []) _ refl in
    let k3 =
      say-some k2.0 (chars "EIP: 0x%x, CS: 0x%x\r\n") (word frame.eip ∷ word frame.cs ∷ []) _
        refl in
    (
      if bit_and frame.cs 0x3 == 3
          then told k3.0 (chars "Exception occurred in user mode!\r\n")
          else k3.0,
      rw (m.1, k1.1, k2.1, k3.1) refl,
    )

-- With at most 1024 bytes in stdin the handler ends for every vector. It halts for the vectors below 32 but the breakpoint, 3, and
-- returns to the interrupted code for all others.
pub interrupt_handler-ends :
    (exit_address stack_top : ℕ) (k : Kernel) (frame : Frame)
    → k.shell.stdin.count ≤ 1024
    → (k' : Kernel) × (frame' : Frame) × (interrupt_handler exit_address stack_top k frame
        ≡ some
            (if ltb frame.int_no 32 && not (frame.int_no == 3) then halt k' else resume k' frame'))
unfolding interrupt_handler finish formatted converted
interrupt_handler-ends exit_address stack_top k frame few =
    elim (Bool-cases (ltb frame.int_no 17)) [
      | inl exception ↦
          let r = report_exception-some k frame (ltb→lt frame.int_no 17 exception) in
          (r.0, frame, rw (exception, r.1) refl)
      | inr other ↦ elim (Bool-cases (frame.int_no == 0x80)) [
        | inl call ↦
            let r = handle_syscall-Handled exit_address stack_top k frame few in
            (r.k', r.frame', rw (other, call, r.result, r.vector) refl)
        | inr unknown ↦
            let r =
              say-some k (chars "Unknown interrupt: 0x%x\r\n") (word frame.int_no ∷ []) _ refl in
            (r.0, frame, rw (other, unknown, r.1) refl)
      ]
    ]

pub key_code : (scancode : ℕ) → scancode_to_ascii scancode ≢ 0 → ltb scancode 128 ≡ true
unfolding scancode_to_ascii
key_code scancode key = ground arith
