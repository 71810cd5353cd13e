-- ===== src/Interrupts/Tests.antt =====
-- The theorems on interrupts at a concrete kernel, and single keys.
use drupe.Base.{replicate, ℕ, ◌≡◌, refl, ◌∷◌, arith}
use drupe.Stream.{Stream}
use drupe.Stream.Inv.{IsValid}
use drupe.Shell.Display.{blank}
use drupe.Interrupts.{Frame, Kernel}
use drupe.Interrupts.Syscalls.{handle_syscall}
use drupe.Interrupts.Syscalls.Transfer.{HasTaken, handle_syscall-HasTaken}
use drupe.Interrupts.Input.Reports.{HasWritten, handle_syscall-HasWritten}
use drupe.Interrupts.Handlers.{scancode_to_ascii}

abbrev fresh : Stream
fresh = record { bytes = replicate 1024 0; head = 0; tail = 0; count = 0 }

-- "hi" has been typed.
abbrev pub typed : Stream
typed = record { bytes = 104 ∷ 105 ∷ replicate 1022 0; head = 2; tail = 0; count = 2 }

abbrev pub kernel : Kernel
kernel = record {
  shell = record {
    screen = record {
      memory = replicate 2000 (blank 0x07);
      size = 2000;
      cursor = 0;
      width = 80;
      height = 25;
      color = 0x07;
    };
    stdin = typed;
    stdout = fresh;
    stderr = fresh;
  };
  memory = λ a. 0;
}

-- A frame from user mode with the vector, and with the number and the arguments of a system call.
abbrev from_user : ℕ → ℕ → ℕ → ℕ → ℕ → Frame
from_user int_no eax ebx ecx edx = record {
  gs = 0x23;
  fs = 0x23;
  es = 0x23;
  ds = 0x23;
  edi = 0;
  esi = 0;
  ebp = 0;
  esp = 0;
  ebx = ebx;
  edx = edx;
  ecx = ecx;
  eax = eax;
  int_no = int_no;
  err_code = 0;
  eip = 0x400010;
  cs = 0x1B;
  eflags = 0x202;
  useresp = 0x7FFFF0;
  ss = 0x23;
}

pub typed-IsValid : IsValid typed
typed-IsValid = record {
  sized = refl;
  head_in = omega arith;
  tail_in = omega arith;
  count_in = omega arith;
  linked = refl;
}

-- The address is the last one that is accepted.
handle_syscall-HasTaken_example :
    HasTaken kernel
      (from_user 0x80 3 0 0x8FFFFF 64)
      (handle_syscall 0x101000 0x10C000 kernel (from_user 0x80 3 0 0x8FFFFF 64))
handle_syscall-HasTaken_example =
    handle_syscall-HasTaken 0x101000 0x10C000 kernel (from_user 0x80 3 0 0x8FFFFF 64)
      (record { eax = refl; user = refl; accepted = refl })

-- five bytes for a stream that does not exist
handle_syscall-HasWritten_example :
    HasWritten kernel
      (from_user 0x80 4 3 0x400000 5)
      (handle_syscall 0x101000 0x10C000 kernel (from_user 0x80 4 3 0x400000 5))
handle_syscall-HasWritten_example =
    handle_syscall-HasWritten 0x101000 0x10C000 kernel (from_user 0x80 4 3 0x400000 5) typed-IsValid
      (record { eax = refl; user = refl; accepted = refl })

-- the keys A, space, and the plus and minus of the number block
keys :
    (scancode_to_ascii 30 ≡ 97)
    × (scancode_to_ascii 57 ≡ 32)
    × (scancode_to_ascii 78 ≡ 43)
    × (scancode_to_ascii 74 ≡ 45)
    × (scancode_to_ascii 53 ≡ 47)
unfolding scancode_to_ascii
keys = (refl, refl, refl, refl, refl)
