-- ===== src/Interrupts/Input/Calls.antt =====
-- What each system call does to stdin, and what it gives to the program.
use drupe.Base.{
  ◌==◌, ==_iff, Bool-cases, length, get_or, tabulate, signed32, Bytes, ◌>>=◌, ℕ, suc, ◌+◌, ◌<◌,
  bit_and, ◌≡◌, refl, sym, ap, ap₂, ◌∙◌, inl, inr, Bool, true, false, ◌&&◌, Option, some, List, [],
  ◌∷◌, ◌++◌, arith,
}
use mathlib.Core.List.{append-nil}
use drupe.Stream.{stream_read}
use drupe.Stream.Inv.{IsValid, stream_read-IsValid}
use drupe.Stream.Queue.{contents, stream_read-HasRead}
use drupe.Shell.Print.{Arg}
use drupe.Shell.Print.Format.{formatted, converted}
use drupe.Interrupts.{Frame, Kernel, say}
use drupe.Shell.Render.{sh_puts-stdin}
use drupe.Interrupts.Say.{told, say-formatted}
use drupe.Interrupts.Syscalls.{
  sys_exit, sys_read, sys_write, sys_getpid, exit_frame, syscall_exit, minus_one, in_user_memory,
  store_bytes, syscall_write, syscall_read, dispatch, handle_syscall,
}
use drupe.Interrupts.Syscalls.Transfer.{store_bytes-inside}
use drupe.Interrupts.Input.{Feeds, Feeds-same, own_input, read_back, sh_write_stream-Feeds}

-- what a call makes of the kernel and the frame, and of stdin
pub record Served (k : Kernel) (frame : Frame) (r : Option (Kernel × Frame)) : Type 0 where
  pub k' : Kernel
  pub frame' : Frame
  pub result : r ≡ some (k', frame')
  pub feeds : Feeds k.shell k'.shell (own_input k frame) (read_back frame k' frame'.eax)

-- whether a call writes to stdin, and whether it reads
abbrev enters : Frame → Bool
enters frame = frame.eax == sys_write && in_user_memory frame.ecx && frame.ebx == 0

abbrev reads : Frame → Bool
reads frame = frame.eax == sys_read && in_user_memory frame.ecx

settled-Served :
    (k k' : Kernel) (frame frame' : Frame)
    → IsValid k.shell.stdin
    → k'.shell.stdin ≡ k.shell.stdin
    → enters frame ≡ false
    → reads frame ≡ false
    → Served k frame (some (k', frame'))
settled-Served k k' frame frame' v same quiet unread = record {
  k' = k';
  frame' = frame';
  result = refl;
  feeds = rw (quiet, unread) (Feeds-same k.shell k'.shell v same);
}

told-Served :
    (k : Kernel) (frame frame' : Frame) (fmt : List ℕ) (args : List Arg) (text : List ℕ)
    → IsValid k.shell.stdin
    → formatted fmt args ≡ some text
    → enters frame ≡ false
    → reads frame ≡ false
    → Served k frame (say k fmt args >>= λ k'. some (k', frame'))
told-Served k frame frame' fmt args text v h quiet unread =
    rw (say-formatted k fmt args text h)
      (settled-Served k (told k text) frame frame' v (sh_puts-stdin k.shell text) quiet unread)

syscall_write-Served :
    (k : Kernel) (frame : Frame)
    → IsValid k.shell.stdin
    → frame.eax ≡ sys_write
    → Served k frame (syscall_write k frame)
unfolding syscall_write formatted converted
syscall_write-Served k frame v number =
    let unread : reads frame ≡ false = ground arith in
    elim (Bool-cases (frame.ecx == 0)) [
      | inl null ↦
          let quiet : enters frame ≡ false = ground arith in
          rw null (settled-Served k k frame (record frame { eax = minus_one }) v refl quiet unread)
      | inr buffer ↦ elim (Bool-cases (in_user_memory frame.ecx)) [
        | inl accepted ↦
            let mine : (frame.eax == sys_write) ≡ true = ground arith in
            rw (buffer, accepted)
              (record {
                k' = _;
                frame' = _;
                result = refl;
                feeds =
                    rw (unread, mine, accepted)
                      (sh_write_stream-Feeds k.shell frame.ebx (λ i. k.memory (frame.ecx + i))
                        (signed32 frame.edx) v);
              })
        | inr outside ↦
            let quiet : enters frame ≡ false = ground arith in
            rw (buffer, outside)
              (told-Served k frame (record frame { eax = minus_one }) _ _ _ v refl quiet unread)
      ]
    ]

tabulate-get_or :
    (cs : List ℕ) (i : ℕ) (f : ℕ → ℕ)
    → ((j : ℕ) → j < length cs → f (i + j) ≡ get_or cs j 0)
    → tabulate (length cs) i f ≡ cs
tabulate-get_or [] i f h = refl
tabulate-get_or (c ∷ cs) i f h =
    let here : i + 0 ≡ i = omega arith in
    let head : f i ≡ c = ap f (sym here) ∙ h 0 (omega arith) in
    let rest = tabulate-get_or cs (i + 1) f (λ j below.
      let next : i + 1 + j ≡ i + suc j = omega arith in ap f next ∙ h (suc j) (omega arith)) in
    ap₂ (λ x xs. x ∷ xs) head rest

-- what has been stored, read from memory again
stored_back :
    (cs : List ℕ) (a : ℕ) (m : Bytes)
    → tabulate (length cs) 0 (λ i. store_bytes cs a m (a + i)) ≡ cs
stored_back cs a m =
    tabulate-get_or cs 0 (λ i. store_bytes cs a m (a + i))
      (λ j below.
        let at : a + (0 + j) ≡ a + j = omega arith in
        ap (store_bytes cs a m) at ∙ store_bytes-inside cs a m j below)

syscall_read-Served :
    (exit_address stack_top : ℕ) (k : Kernel) (frame : Frame)
    → IsValid k.shell.stdin
    → frame.eax ≡ sys_read
    → bit_and frame.cs 0x3 ≡ 3
    → Served k frame (syscall_read k frame)
unfolding syscall_read formatted converted
syscall_read-Served exit_address stack_top k frame v number user =
    let quiet : enters frame ≡ false = ground arith in
    elim (Bool-cases (frame.ecx == 0)) [
      | inl null ↦
          let unread : reads frame ≡ false = ground arith in
          rw null (settled-Served k k frame (record frame { eax = minus_one }) v refl quiet unread)
      | inr buffer ↦ elim (Bool-cases (in_user_memory frame.ecx)) [
        | inl accepted ↦
            let mine : (frame.eax == sys_read) ≡ true = ground arith in
            let out = (stream_read k.shell.stdin (signed32 frame.edx)).1 in
            let h = stream_read-HasRead k.shell.stdin (signed32 frame.edx) in
            rw (buffer, accepted)
              (record {
                k' = _;
                frame' = _;
                result = refl;
                feeds =
                    rw (quiet, mine, accepted)
                      (record {
                        valid = stream_read-IsValid (signed32 frame.edx) v;
                        order =
                            append-nil (contents k.shell.stdin)
                            ∙ h.prefix
                            ∙ ap
                                (λ xs.
                                  xs ++ contents (stream_read k.shell.stdin (signed32 frame.edx)).0)
                                (sym (stored_back out frame.ecx k.memory));
                      });
              })
        | inr outside ↦
            let unread : reads frame ≡ false = ground arith in
            rw (buffer, outside)
              (told-Served k frame (record frame { eax = minus_one }) _ _ _ v refl quiet unread)
      ]
    ]

-- Every system call from user mode returns. What it reads has left stdin in order, and what it writes
-- to stdin itself stands there behind what was there.
pub handle_syscall-Served :
    (exit_address stack_top : ℕ) (k : Kernel) (frame : Frame)
    → IsValid k.shell.stdin
    → bit_and frame.cs 0x3 ≡ 3
    → Served k frame (handle_syscall exit_address stack_top k frame)
unfolding handle_syscall dispatch syscall_exit formatted converted
handle_syscall-Served exit_address stack_top k frame v user =
    rw user (elim (Bool-cases (frame.eax == sys_write)) [
      | inl w ↦ rw w (syscall_write-Served k frame v ((==_iff frame.eax sys_write).0 w))
      | inr w ↦
          let quiet : enters frame ≡ false = rw w refl in
          rw w (elim (Bool-cases (frame.eax == sys_read)) [
            | inl r ↦
                let number : frame.eax ≡ sys_read = (==_iff frame.eax sys_read).0 r in
                let not_exit : (frame.eax == sys_exit) ≡ false = ground arith in
                let not_pid : (frame.eax == sys_getpid) ≡ false = ground arith in
                rw (not_exit, not_pid, r)
                  (syscall_read-Served exit_address stack_top k frame v number user)
            | inr r ↦
                let unread : reads frame ≡ false = rw r refl in
                elim (Bool-cases (frame.eax == sys_exit)) [
                  | inl x ↦ rw x (
                      told-Served k frame (exit_frame exit_address stack_top frame) _ _ _ v refl
                        quiet unread)
                  | inr x ↦ rw x (elim (Bool-cases (frame.eax == sys_getpid)) [
                    | inl g ↦
                        rw g
                          (settled-Served k k frame (record frame { eax = 1 }) v refl quiet unread)
                    | inr g ↦
                        rw (g, r)
                          (told-Served k frame (record frame { eax = minus_one }) _ _ _ v refl quiet
                            unread)
                  ])
                ]
          ])
    ])
