-- ===== src/Interrupts/Syscalls/Safety.antt =====
-- What a system call may change.
use drupe.Base.{
  ◌==◌, if◌then◌else◌, ==_iff, Bool-cases, chars, length, signed32, Bytes, ◌>>=◌, ℕ, ◌+◌, ◌≤◌, ◌<◌,
  bit_and, ◌≡◌, refl, ap, ◌∙◌, ◌⊎◌, inl, inr, false, Option, some, List, [], ◌∷◌, ◌++◌, arith,
}
use drupe.Stream.{stream_read}
use drupe.Stream.Queue.{stream_read-HasRead}
use drupe.Interrupts.Say.{told, say-formatted}
use drupe.Shell.Print.{Arg, word}
use drupe.Shell.Print.Format.{formatted, converted, numeral}
use drupe.Interrupts.{Frame, Kernel, say}
use drupe.Interrupts.Syscalls.{
  sys_exit, store_bytes, sys_read, sys_write, sys_getpid, minus_one, in_user_memory, syscall_write,
  syscall_read, exit_frame, syscall_exit, dispatch, handle_syscall,
}

abbrev pub Outside : ℕ → ℕ → ℕ → Type 0
Outside a n i = (i < a) ⊎ (a + n ≤ i)

pub store_bytes-Outside :
    (cs : List ℕ) (a : ℕ) (m : Bytes) (i : ℕ) → Outside a (length cs) i → store_bytes cs a m i ≡ m i
store_bytes-Outside [] a m i h = refl
store_bytes-Outside (c ∷ cs) a m i h =
    let rest = store_bytes-Outside cs (a + 1) (λ i. if i == a then c else m i) i in
    let other : (i == a) ≡ false = elim h [
      | inl before ↦ ground arith
      | inr behind ↦ ground arith
    ] in
    rest (elim h [ inl before ↦ inl (omega arith) | inr behind ↦ inr (omega arith) ])
    ∙ rw other refl

-- What a call makes of the kernel and the frame. `cs` and `eip` say where the processor goes on, and
-- with which privilege.
pub record Handled (exit_address : ℕ) (k : Kernel) (frame : Frame) (r : Option (Kernel × Frame))
    : Type 0 where
  pub k' : Kernel
  pub frame' : Frame
  pub result : r ≡ some (k', frame')
  pub kept : (a : ℕ) → Outside 0x400000 (0x500000 + 1023) a → k'.memory a ≡ k.memory a
  pub vector : frame'.int_no ≡ frame.int_no
  pub goes_on :
      ((frame'.cs ≡ frame.cs) × (frame'.eip ≡ frame.eip))
      ⊎ ((frame.eax ≡ sys_exit)
          × (bit_and frame.cs 0x3 ≡ 3)
          × (frame'.cs ≡ 0x08)
          × (frame'.eip ≡ exit_address))

-- a message, and then the frame with `eax` set
said :
    (exit_address : ℕ) (k : Kernel) (frame : Frame) (eax : ℕ) (fmt : List ℕ) (args : List Arg)
    (text : List ℕ)
    → formatted fmt args ≡ some text
    → Handled exit_address k frame (say k fmt args >>= λ k'. some (k', record frame { eax = eax }))
said exit_address k frame eax fmt args text h = record {
  k' = told k text;
  frame' = record frame { eax = eax };
  result =
      ap (λ o. o >>= λ k'. some (k', record frame { eax = eax })) (say-formatted k fmt args text h);
  kept = λ a out. refl;
  vector = refl;
  goes_on = inl (refl, refl);
}

-- no message, the memory as it was
settled :
    (exit_address : ℕ) (k k' : Kernel) (frame : Frame) (eax : ℕ)
    → k'.memory ≡ k.memory
    → Handled exit_address k frame (some (k', record frame { eax = eax }))
settled exit_address k k' frame eax h = record {
  k' = k';
  frame' = record frame { eax = eax };
  result = refl;
  kept = λ a out. ap (λ (m : Bytes). m a) h;
  vector = refl;
  goes_on = inl (refl, refl);
}

syscall_write-Handled :
    (exit_address : ℕ) (k : Kernel) (frame : Frame)
    → Handled exit_address k frame (syscall_write k frame)
unfolding syscall_write formatted converted
syscall_write-Handled exit_address k frame = elim (Bool-cases (frame.ecx == 0)) [
  | inl null ↦ rw null (settled exit_address k k frame minus_one refl)
  | inr some_text ↦ rw some_text (elim (Bool-cases (in_user_memory frame.ecx)) [
    | inl user ↦ rw user (settled exit_address k _ frame frame.edx refl)
    | inr other ↦ rw other (said exit_address k frame minus_one _ _ _ refl)
  ])
]

syscall_read-Handled :
    (exit_address : ℕ) (k : Kernel) (frame : Frame)
    → k.shell.stdin.count ≤ 1024
    → Handled exit_address k frame (syscall_read k frame)
unfolding syscall_read formatted converted
syscall_read-Handled exit_address k frame few = elim (Bool-cases (frame.ecx == 0)) [
  | inl null ↦ rw null (settled exit_address k k frame minus_one refl)
  | inr some_buffer ↦ rw some_buffer (elim (Bool-cases (in_user_memory frame.ecx)) [
    | inl user ↦
        let r = stream_read k.shell.stdin (signed32 frame.edx) in
        let h = stream_read-HasRead k.shell.stdin (signed32 frame.edx) in
        rw user (record {
          k' = record k {
            shell = record k.shell { stdin = r.0 };
            memory = store_bytes r.1 frame.ecx k.memory;
          };
          frame' = record frame { eax = length r.1 };
          result = refl;
          kept = λ a out. store_bytes-Outside r.1 frame.ecx k.memory a (elim out [
            | inl before ↦ inl (ground arith)
            | inr behind ↦ inr (ground (arith, h.amount))
          ]);
          vector = refl;
          goes_on = inl (refl, refl);
        })
    | inr other ↦ rw other (said exit_address k frame minus_one _ _ _ refl)
  ])
]

syscall_exit-Handled :
    (exit_address stack_top : ℕ) (k : Kernel) (frame : Frame)
    → frame.eax ≡ sys_exit
    → bit_and frame.cs 0x3 ≡ 3
    → Handled exit_address k frame (syscall_exit exit_address stack_top k frame)
unfolding syscall_exit exit_frame formatted converted
syscall_exit-Handled exit_address stack_top k frame h user = record {
  k' = told k (chars "Exited with code " ++ numeral frame.ebx 10 ++ chars "\r\n");
  frame' = exit_frame exit_address stack_top frame;
  result =
      ap (λ o. o >>= λ k'. some (k', exit_frame exit_address stack_top frame))
        (say-formatted k (chars "Exited with code %d\r\n") (word frame.ebx ∷ []) _ refl);
  kept = λ a out. refl;
  vector = refl;
  goes_on = inr (h, user, refl, refl);
}

dispatch-Handled :
    (exit_address stack_top : ℕ) (k : Kernel) (frame : Frame)
    → k.shell.stdin.count ≤ 1024
    → bit_and frame.cs 0x3 ≡ 3
    → Handled exit_address k frame (dispatch exit_address stack_top k frame)
unfolding dispatch formatted converted
dispatch-Handled exit_address stack_top k frame few user =
    elim (Bool-cases (frame.eax == sys_write)) [
      | inl w ↦ rw w (syscall_write-Handled exit_address k frame)
      | inr w ↦ rw w (elim (Bool-cases (frame.eax == sys_exit)) [
        | inl e ↦ rw e (
            syscall_exit-Handled exit_address stack_top k frame ((==_iff frame.eax sys_exit).0 e)
              user)
        | inr e ↦ rw e (elim (Bool-cases (frame.eax == sys_getpid)) [
          | inl g ↦ rw g (settled exit_address k k frame 1 refl)
          | inr g ↦ rw g (elim (Bool-cases (frame.eax == sys_read)) [
            | inl r ↦ rw r (syscall_read-Handled exit_address k frame few)
            | inr r ↦ rw r (said exit_address k frame minus_one _ _ _ refl)
          ])
        ])
      ])
    ]

pub handle_syscall-Handled :
    (exit_address stack_top : ℕ) (k : Kernel) (frame : Frame)
    → k.shell.stdin.count ≤ 1024
    → Handled exit_address k frame (handle_syscall exit_address stack_top k frame)
unfolding handle_syscall
handle_syscall-Handled exit_address stack_top k frame few =
    elim (Bool-cases (bit_and frame.cs 0x3 == 3)) [
      | inl user ↦ rw user (
          dispatch-Handled exit_address stack_top k frame few
            ((==_iff (bit_and frame.cs 0x3) 3).0 user))
      | inr kernel ↦ rw kernel (record {
        k' = told k (chars "System call from kernel mode - ignoring\r\n");
        frame' = frame;
        result = refl;
        kept = λ a out. refl;
        vector = refl;
        goes_on = inl (refl, refl);
      })
    ]
