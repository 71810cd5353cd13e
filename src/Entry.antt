-- ===== src/Entry.antt =====
-- source/kernel.c: `kernel_entry`, which puts the parts together.
pub mod Mount
pub mod Reach
pub mod Boots
pub mod Tests
use drupe.Base.{
  if◌then◌else◌, chars, u32, u64, ◌>>=◌, ℕ, ◌+◌, ◌-◌, ◌*◌, ◌/◌, ◌^◌, Bool, not, ◌&&◌, Option, some,
  List, [], ◌∷◌,
}
use drupe.Memory.Physical.{mem_phys_init}
use drupe.Shell.{sh_init, vga_width, vga_height}
use drupe.Shell.Display.{Cell}
use drupe.Shell.Print.{word}
use drupe.Boot.Gdt.{GdtEntry, gdt_setup, gdt_verify_integrity}
use drupe.Boot.Idt.{idt_setup, idt_verify_integrity, tss_set_kernel_stack}
use drupe.Boot.Multiboot.{mb2_get_memory}
use drupe.Interrupts.{say}
use drupe.Interrupts.Pic.{pic_init}
use drupe.Filesystem.Mount.{ext2_mount}
use drupe.Filesystem.Search.{put_line}
use drupe.Usermode.{System}
use drupe.Usermode.Setup.{um_setup_env, UserEntry, um_switch}

-- How `kernel_entry` ends: it halts after a fatal message, it idles for ever, or it enters user mode.
-- The list holds the writes to ports, in order.
pub data Ending : Type 0 where
  fatal : System → Ending
  idle : System → List (ℕ × ℕ) → Ending
  user : System → List (ℕ × ℕ) → UserEntry → Ending

-- What the code takes from elsewhere: `load` and `isr` are those of `gdt_setup` and `idt_setup`,
-- `stack_top` is the address behind `kernel_stack`, `image` that of the disk image, `eflags` are the
-- flags at the switch, and `fuel` bounds the walk over the boot loader's tags.
module _ (load : List GdtEntry → List GdtEntry) (isr : ℕ → ℕ)
    (stack_top image eflags fuel : ℕ) where
  -- the end, with the file system mounted
  unfoldable pub run_program : System → Option Ending
  run_program sys = do
    k ←
        say sys.kernel (chars "EXT2 filesystem mounted successfully! Block size: %d bytes\r\n")
          (word sys.fs.block_size ∷ [])
    sys' ← um_setup_env (chars "example.bin") (record sys { kernel = k })
    some (user sys' pic_init (um_switch eflags))

  -- from the size of the memory on
  unfoldable pub mount_and_run : System → ℕ → Option Ending
  unfolding run_program
  mount_and_run sys total_memory_bytes = do
    k ←
        say sys.kernel (chars "Booted with %d MB of Memory.\r\n")
          (word (u32 (total_memory_bytes / (1024 * 1024))) ∷ [])
    let pmm_total_size = u32 (u64 (total_memory_bytes + (2 ^ 64 - 0x100000)))
    r ← ext2_mount sys.fs image (mem_phys_init 0x100000 pmm_total_size) k.memory
    let sys' = record sys { kernel = record k { memory = r.memory }; pmm = r.pmm; fs = r.fs }
    if r.ok
        then run_program sys'
        else some (
            idle
              (record sys' {
                kernel =
                    put_line sys'.kernel
                      (chars "Failed to mount EXT2 filesystem from embedded image.\r\n");
              })
              pic_init)

  -- from the check of the tables on; a `&&` of the tests for each table
  unfoldable pub start : ℕ → ℕ → System → Bool → Bool → Option Ending
  unfolding mount_and_run
  start magic addr sys gdt_ok idt_ok =
      if not gdt_ok
      then some (
          fatal (record sys {
            kernel = put_line sys.kernel (chars "FATAL: Failed to initialize GDT!\r\n");
          }))
      else (if not idt_ok
          then some (
              fatal (record sys {
                kernel = put_line sys.kernel (chars "FATAL: Failed to initialize IDT!\r\n");
              }))
          else (mb2_get_memory fuel sys.kernel.memory magic addr >>= λ total.
              mount_and_run (record sys { idt = tss_set_kernel_stack sys.idt stack_top }) total))

  -- `sys` is the state of the static variables, with the contents of `ksh` before `sh_init`. A failed
  -- first table leaves the second one as it is.
  unfoldable pub kernel_entry : ℕ → ℕ → List Cell → System → Option Ending
  unfolding start
  kernel_entry magic addr vga sys =
      sh_init sys.kernel.shell vga vga_width (vga_width * vga_height) >>= λ ksh.
      let (gdt, gdt_done) = gdt_setup load sys.gdt in
      let gdt_ok = gdt_done && gdt_verify_integrity gdt in
      let (idt, gdt', idt_done) = idt_setup isr sys.idt gdt in
      let k = record sys.kernel { shell = ksh } in
      let sys' =
        if gdt_ok
        then record sys { kernel = k; gdt = gdt'; idt = idt }
        else record sys { kernel = k; gdt = gdt } in
      start magic addr sys' gdt_ok (idt_done && idt_verify_integrity idt)
