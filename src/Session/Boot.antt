-- ===== src/Session/Boot.antt =====
-- The sessions of a program that `kernel_entry` enters.
use drupe.Base.{
  length, ℕ, ◌≡◌, refl, sym, ap, subst, ◌∙◌, ◌≢◌, ◌⊎◌, Option, none, some, List, [], ◌++◌, arith,
}
use drupe.Stream.Inv.{IsValid}
use drupe.Stream.Queue.{contents}
use drupe.Shell.Display.{Cell}
use drupe.Shell.{emptied}
use drupe.Boot.Gdt.{GdtEntry}
use drupe.Boot.Idt.{Idt, gate_at, make_gate}
use drupe.Boot.Idt.Setup.{installed}
use drupe.Interrupts.Pic.{pic_init}
use drupe.Interrupts.Syscalls.{sys_exit}
use drupe.Filesystem.Dir.Ends.{IsBytes}
use drupe.Filesystem.Search.Ends.{IsSound}
use drupe.Usermode.{System}
use drupe.Usermode.Setup.{UserEntry, um_switch}
use drupe.Usermode.Setup.Ends.{IsOpen}
use drupe.Entry.{fatal, idle, Ending, user, kernel_entry}
use drupe.Entry.Mount.{first_fs}
use drupe.Entry.Reach.{IsStarted, IsMountable}
use drupe.Entry.Boots.{kernel_entry-Enters}
use drupe.Arch.{Cpu, Machine, Run, runs, Scratch}
use drupe.Arch.Stubs.{serve}
use drupe.Session.{IsGated, Session}
use drupe.Session.InOrder.{Session-InOrder, Session-returns}

-- The machine as `um_switch` leaves it, with whatever `cpu` has in the other registers.
abbrev pub machine_of : Cpu → System → List (ℕ × ℕ) → UserEntry → Machine
machine_of cpu sys ports entry = record {
  cpu = record cpu {
    ss = entry.ss;
    esp = entry.esp;
    eflags = entry.eflags;
    cs = entry.cs;
    eip = entry.eip;
    ds = entry.ds;
    es = entry.es;
    fs = entry.fs;
    gs = entry.gs;
  };
  stack = [];
  kernel = sys.kernel;
  ports = ports;
}

installed-IsGated :
    (isr : ℕ → ℕ) (idt : Idt) → ((v : ℕ) → gate_at idt v ≡ installed isr v) → IsGated idt
unfolding make_gate
installed-IsGated isr idt h = record {
  timer = ap (λ e. e.selector) (h 32);
  keyboard = ap (λ e. e.selector) (h 33);
  call = ap (λ e. e.selector) (h 0x80);
}

emptied-IsValid : (bytes : List ℕ) → length bytes ≡ 1024 → IsValid (emptied bytes)
emptied-IsValid bytes sized = record {
  sized = sized;
  head_in = omega arith;
  tail_in = omega arith;
  count_in = omega arith;
  linked = refl;
}

-- The arguments of an end in user mode, if it is one.
abbrev user_of :
    System × (List (ℕ × ℕ)) × UserEntry → Option Ending → System × (List (ℕ × ℕ)) × UserEntry
user_of other none = other
user_of other (some (fatal sys)) = other
user_of other (some (idle sys ports)) = other
user_of other (some (user sys ports entry)) = (sys, ports, entry)

-- What holds in a state of a session: what has been entered is what has been delivered and what is in
-- stdin, in order, and an interrupt `r` returns to the program where it was.
pub record Serves (m : Machine) (entered delivered : List ℕ) (r : Option Run) : Type 0 where
  pub in_order : entered ≡ delivered ++ contents m.kernel.shell.stdin
  pub next : Machine
  pub returns : r ≡ some (runs next)
  pub code : next.cpu.cs ≡ 0x1B
  pub eip : next.cpu.eip ≡ m.cpu.eip

open-Serves :
    (isr : ℕ → ℕ) (bytes : List ℕ) (exit_address stack_top eflags : ℕ) (cpu : Cpu) (sys : System)
    (ports : List (ℕ × ℕ)) (m : Machine) (entered delivered : List ℕ) (port : ℕ → ℕ) (s : Scratch)
    (flags v : ℕ)
    → length bytes ≡ 1024
    → IsOpen isr bytes sys
    → Session exit_address stack_top sys.idt
        (machine_of cpu sys ports (um_switch eflags))
        m
        entered
        delivered
    → ((v ≡ 32) ⊎ (v ≡ 33)) ⊎ ((v ≡ 0x80) × (m.cpu.eax ≢ sys_exit))
    → Serves m entered delivered (serve exit_address stack_top port s sys.idt flags v [] m)
unfolding um_switch
open-Serves isr bytes exit_address stack_top eflags cpu sys ports m entered delivered port s flags v
      sized h t which =
    let gates = installed-IsGated isr sys.idt h.gates in
    let m0 = machine_of cpu sys ports (um_switch eflags) in
    let valid : IsValid sys.kernel.shell.stdin =
      subst IsValid (sym h.input) (emptied-IsValid bytes sized) in
    let order =
      Session-InOrder exit_address stack_top sys.idt gates m0 refl valid m entered delivered t in
    let (next, returns, code, eip) =
      Session-returns exit_address stack_top sys.idt gates m0 refl valid m entered delivered port s
        flags v t which in
    record {
      in_order = ap (λ st. contents st ++ entered) (sym h.input) ∙ order.order;
      next = next;
      returns = returns;
      code = code;
      eip = eip;
    }

module _ (load : List GdtEntry → List GdtEntry) (isr : ℕ → ℕ)
    (stack_top image eflags fuel exit_address : ℕ) where
  -- From power on: with a boot loader that tells a size of the memory that has room for the image's
  -- table of groups and that the map covers, stubs with addresses, an image that can be mounted and
  -- read without a division by 0, a memory of bytes and a stdin of 1024, in every state of a session
  -- of the program that `kernel_entry` enters: the bytes that keys and the program have entered into
  -- stdin are those that its system calls have delivered, in order, and then those still in stdin,
  -- and each key, tick and system call but an exit returns to the program.
  pub kernel_entry-Serves :
      (magic addr total : ℕ) (vga : List Cell) (sys sys' : System) (cpu : Cpu)
      (ports : List (ℕ × ℕ)) (entry : UserEntry) (m : Machine) (entered delivered : List ℕ)
      (port : ℕ → ℕ) (s : Scratch) (flags v : ℕ)
      → IsStarted load isr fuel magic addr total sys.kernel.memory
      → IsMountable image total sys.kernel.memory
      → IsSound (first_fs sys.kernel.memory image)
      → IsBytes sys.kernel.memory
      → length sys.kernel.shell.stdin.bytes ≡ 1024
      → kernel_entry load isr stack_top image eflags fuel magic addr vga sys
        ≡ some (user sys' ports entry)
      → Session exit_address stack_top sys'.idt
          (machine_of cpu sys' ports entry)
          m
          entered
          delivered
      → ((v ≡ 32) ⊎ (v ≡ 33)) ⊎ ((v ≡ 0x80) × (m.cpu.eax ≢ sys_exit))
      → Serves m entered delivered (serve exit_address stack_top port s sys'.idt flags v [] m)
  kernel_entry-Serves magic addr total vga sys sys' cpu ports entry m entered delivered port s flags
        v started mountable sound bytes sized enters t which =
      let h =
        kernel_entry-Enters load isr stack_top image eflags fuel magic addr total vga sys started
          mountable sound bytes in
      let same : (h.sys', pic_init, um_switch eflags) ≡ (sys', ports, entry) =
        ap (user_of (sys', ports, entry)) (sym h.result ∙ enters) in
      let is_open : IsOpen isr sys.kernel.shell.stdin.bytes sys' =
        subst (IsOpen isr sys.kernel.shell.stdin.bytes) (ap (λ p. p.0) same) h.is_open in
      let t' : Session exit_address stack_top sys'.idt
          (machine_of cpu sys' ports (um_switch eflags)) m entered delivered =
        subst
          (λ e.
            Session exit_address stack_top sys'.idt (machine_of cpu sys' ports e) m entered
              delivered)
          (sym (ap (λ p. p.2) same)) t in
      open-Serves isr sys.kernel.shell.stdin.bytes exit_address stack_top eflags cpu sys' ports m
        entered delivered port s flags v sized is_open t' which
