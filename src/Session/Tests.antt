-- ===== src/Session/Tests.antt =====
-- The theorems on sessions: a key in a concrete one, and the first state behind a concrete boot.
use drupe.Base.{◌==◌, if◌then◌else◌, ◌≡◌, refl, inl, inr, some, [], ◌∷◌, arith}
use drupe.Boot.Gdt.Tests.{mark_code}
use drupe.Boot.Idt.Tests.{stubs}
use drupe.Interrupts.Handlers.{key_pressed, irq_handler, end_of_interrupt}
use drupe.Interrupts.Input.{typed}
use drupe.Interrupts.Pic.{pic_init}
use drupe.Interrupts.Tests.{kernel, typed-IsValid}
use drupe.Filesystem.Tests.{image, machine-IsBytes}
use drupe.Usermode.Setup.{um_switch}
use drupe.Usermode.Setup.Tests.{system}
use drupe.Entry.{kernel_entry}
use drupe.Entry.Mount.{first_fs}
use drupe.Entry.Boots.{Enters, kernel_entry-Enters}
use drupe.Entry.Tests.{machine-IsStarted, machine-IsMountable, first-IsSound}
use drupe.Arch.{Machine, runs}
use drupe.Arch.Stubs.{serve}
use drupe.Arch.Stubs.Layout.{registers_of}
use drupe.Arch.Stubs.Return.{arrival, serve-returns}
use drupe.Arch.Stubs.Tests.{
  idt, keyboard_gate, timer_gate, call_gate, machine, program_cpu, scratch,
}
use drupe.Session.{IsGated, Session, begins, computes, interrupted}
use drupe.Session.Isolated.{Session-isolates}
use drupe.Session.InOrder.{InOrder, Session-InOrder}
use drupe.Session.Boot.{Serves, machine_of, kernel_entry-Serves}

idt-IsGated : IsGated idt
idt-IsGated = record { timer = timer_gate; keyboard = keyboard_gate; call = call_gate }

-- The key A has been pressed.
abbrev after_key : Machine
after_key = record {
  cpu = registers_of (arrival idt 33 0 (program_cpu 7 8));
  stack = [];
  kernel = key_pressed kernel 0x1E;
  ports = (0x20, 0x20) ∷ [];
}

pressed :
    serve 0x101000 0x10C000 (λ p. 0x1E) scratch idt 2 33 [] (machine 7 8) ≡ some (runs after_key)
unfolding irq_handler end_of_interrupt
pressed =
    serve-returns 0x101000 0x10C000 (λ p. 0x1E) scratch idt 2 33 0 (machine 7 8)
      (key_pressed kernel 0x1E) (arrival idt 33 0 (program_cpu 7 8)) ((0x20, 0x20) ∷ []) refl refl
      keyboard_gate refl refl

after_key-Session : Session 0x101000 0x10C000 idt (machine 7 8) after_key (typed kernel 0x1E) []
after_key-Session =
    interrupted (machine 7 8) after_key [] [] (λ p. 0x1E) scratch 2 33 begins (inr refl) pressed

Session-InOrder_example : InOrder (machine 7 8) after_key (typed kernel 0x1E) []
Session-InOrder_example =
    Session-InOrder 0x101000 0x10C000 idt idt-IsGated (machine 7 8) refl typed-IsValid after_key
      (typed kernel 0x1E) [] after_key-Session

-- and the program has written a byte of its memory
abbrev after_write : Machine
after_write = record after_key {
  kernel = record (key_pressed kernel 0x1E) {
    memory = λ a. if a == 0x400200 then 1 else (key_pressed kernel 0x1E).memory a;
  };
}

Session-isolates_example : after_write.kernel.memory 0x100000 ≡ 0
Session-isolates_example =
    Session-isolates 0x101000 0x10C000 idt idt-IsGated (machine 7 8) refl typed-IsValid after_write
      (typed kernel 0x1E) [] 0x100000
      (computes after_key after_write (typed kernel 0x1E) []
        (interrupted (machine 7 8) after_key [] [] (λ p. 0x1E) scratch 2 33 begins (inr refl)
          pressed)
        refl refl)
      (tt, λ a out. ground (arith, out)) (inl (omega arith))

booted :
    Enters 2 stubs system.kernel.shell.stdin.bytes
      (first_fs system.kernel.memory image)
      (kernel_entry mark_code stubs 0x10B000 image 2 4 0x36d76289 0x1000 [] system)
booted =
    kernel_entry-Enters mark_code stubs 0x10B000 image 2 4 0x36d76289 0x1000 0x4000000 [] system
      machine-IsStarted machine-IsMountable first-IsSound machine-IsBytes

-- the machine in front of the program's first instruction
abbrev first_machine : Machine
first_machine = machine_of (program_cpu 0 0) booted.sys' pic_init (um_switch 2)

kernel_entry-Serves_example :
    Serves first_machine [] []
      (serve 0x101000 0x10B000 (λ p. 0x1E) scratch booted.sys'.idt 2 33 [] first_machine)
kernel_entry-Serves_example =
    kernel_entry-Serves mark_code stubs 0x10B000 image 2 4 0x101000 0x36d76289 0x1000 0x4000000 []
      system booted.sys' (program_cpu 0 0) pic_init (um_switch 2) first_machine [] [] (λ p. 0x1E)
      scratch 2 33 machine-IsStarted machine-IsMountable first-IsSound machine-IsBytes refl
      booted.result begins (inl (inr refl))
