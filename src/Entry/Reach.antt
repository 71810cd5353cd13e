-- ===== src/Entry/Reach.antt =====
-- The path of `kernel_entry` to the mount, and from there to the program.
use drupe.Base.{
  chars, u32, u64, Bytes, ℕ, ◌+◌, ◌-◌, ◌*◌, ◌/◌, ◌^◌, ◌≤◌, ◌<◌, ◌≡◌, refl, sym, ap, subst, ◌∙◌, ◌≢◌,
  true, some, List, [], ◌∷◌, arith,
}
use drupe.Memory.Physical.{pmm_sectors, pmm_sector_size}
use drupe.Shell.{Shell, sh_init, vga_width, vga_height}
use drupe.Shell.Display.{Cell}
use drupe.Shell.Print.{word}
use drupe.Shell.Print.Format.{formatted, converted}
use drupe.Boot.Gdt.{GdtEntry, gdt_setup, gdt_verify_integrity}
use drupe.Boot.Gdt.Setup.{IsLoad, gdt_setup_lem, gdt_verify_integrity-Intact}
use drupe.Boot.Idt.{idt_setup, idt_verify_integrity, tss_set_kernel_stack}
use drupe.Usermode.Setup.Ends.{IsOpen}
use drupe.Shell.{emptied}
use drupe.Boot.Idt.Setup.{gate_at-idt_setup, idt_verify_integrity-idt_setup}
use drupe.Boot.Multiboot.{mb2_get_memory}
use drupe.Interrupts.Say.{say-Keeps}
use drupe.Filesystem.{Fs, ext2_super_magic}
use drupe.Filesystem.Mount.Groups.{superblock_of, table_size}
use drupe.Usermode.{System}
use drupe.Entry.{run_program, mount_and_run, start, kernel_entry}
use drupe.Entry.Mount.{first_fs, first_memory, ext2_mount-MountsFirst}

-- a boot loader that tells the size of the memory, and stubs that have an address
pub record IsStarted (load : List GdtEntry → List GdtEntry) (isr : ℕ → ℕ)
    (fuel magic addr total : ℕ) (m : Bytes) : Type 0 where
  pub loads : IsLoad load
  pub zeroth_small : isr 0 < 2 ^ 32
  pub thirteenth_small : isr 13 < 2 ^ 32
  pub zeroth : isr 0 ≢ 0
  pub thirteenth : isr 13 ≢ 0
  pub tells : mb2_get_memory fuel m magic addr ≡ some total

-- an image that can be mounted, in a memory with room for its table, and no larger than the map covers
pub record IsMountable (image total : ℕ) (m : Bytes) : Type 0 where
  pub super_magic : (superblock_of m image).s_magic ≡ ext2_super_magic
  pub shift : (superblock_of m image).s_log_block_size < 32
  pub some_blocks : 0 < (superblock_of m image).s_blocks_per_group
  pub room : 0x100000 + table_size m image + pmm_sector_size ≤ total
  pub covered : total ≤ 0x100000 + pmm_sectors * pmm_sector_size

-- What a later state has of an earlier one, with the memory `m`.
pub record IsLater (fs : Fs) (m : Bytes) (sys sys' : System) : Type 0 where
  pub fs_is : sys'.fs ≡ fs
  pub memory : sys'.kernel.memory ≡ m
  pub procs : sys'.procs ≡ sys.procs

sh_init-some :
    (old : Shell) (vga : List Cell)
    → (sh : Shell) × (sh_init old vga vga_width (vga_width * vga_height) ≡ some sh)
      × (sh.stdin ≡ emptied old.stdin.bytes)
unfolding sh_init
sh_init-some old vga = (_, refl, refl)

module _ (load : List GdtEntry → List GdtEntry) (isr : ℕ → ℕ)
    (stack_top image eflags fuel : ℕ) where
  mount_and_run-reaches :
      (total : ℕ) (sys0 sys : System)
      → IsMountable image total sys.kernel.memory
      → (sys' : System) × (mount_and_run load isr stack_top image eflags fuel sys total
          ≡ run_program load isr stack_top image eflags fuel sys')
        × IsLater (first_fs sys.kernel.memory image) (first_memory sys.kernel.memory image) sys sys'
        × (IsOpen isr sys0.kernel.shell.stdin.bytes sys
            → IsOpen isr sys0.kernel.shell.stdin.bytes sys')
  unfolding mount_and_run formatted converted
  mount_and_run-reaches total sys0 sys b =
      let (k, said, same) =
        say-Keeps sys.kernel (chars "Booted with %d MB of Memory.\r\n")
          (word (u32 (total / (1024 * 1024))) ∷ []) _ refl in
      let size = u32 (u64 (total + (2 ^ 64 - 0x100000))) in
      let rest : size ≡ total - 0x100000 = omega (arith, b.room, b.covered) in
      let (r, mounts, first) =
        ext2_mount-MountsFirst sys.fs image size sys.kernel.memory b.super_magic b.shift
          b.some_blocks (omega (arith, b.room)) (omega (arith, b.covered)) in
      (
        record sys { kernel = record k { memory = r.memory }; pmm = r.pmm; fs = r.fs },
        rw (said, same.memory, mounts, first.succeeds) refl,
        record { fs_is = first.fs_is; memory = first.memory; procs = refl },
        λ h. record { input = same.input ∙ h.input; gates = h.gates },
      )

  pub kernel_entry-mounts :
      (magic addr total : ℕ) (vga : List Cell) (sys : System)
      → IsStarted load isr fuel magic addr total sys.kernel.memory
      → (sys' : System) × (kernel_entry load isr stack_top image eflags fuel magic addr vga sys
          ≡ mount_and_run load isr stack_top image eflags fuel sys' total)
        × IsLater sys.fs sys.kernel.memory sys sys'
        × IsOpen isr sys.kernel.shell.stdin.bytes sys'
  unfolding kernel_entry start idt_setup tss_set_kernel_stack
  kernel_entry-mounts magic addr total vga sys b =
      let (sh, inited, input) = sh_init-some sys.kernel.shell vga in
      let gdt = (gdt_setup load sys.gdt).0 in
      let gdt_set = gdt_setup_lem load sys.gdt b.loads in
      let gdt_ok : gdt_verify_integrity gdt ≡ true =
        (gdt_verify_integrity-Intact gdt).1 gdt_set.1 in
      let idt = (idt_setup isr sys.idt gdt).0 in
      let idt_ok : idt_verify_integrity idt ≡ true =
        idt_verify_integrity-idt_setup isr sys.idt gdt b.zeroth_small b.thirteenth_small b.zeroth
          b.thirteenth in
      (
        record sys {
          kernel = record sys.kernel { shell = sh };
          gdt = (idt_setup isr sys.idt gdt).1;
          idt = tss_set_kernel_stack idt stack_top;
        },
        rw (inited, gdt_set.0, gdt_ok, idt_ok, b.tells) refl,
        record { fs_is = refl; memory = refl; procs = refl },
        record { input = input; gates = gate_at-idt_setup isr sys.idt gdt },
      )

  pub kernel_entry-reaches :
      (magic addr total : ℕ) (vga : List Cell) (sys : System)
      → IsStarted load isr fuel magic addr total sys.kernel.memory
      → IsMountable image total sys.kernel.memory
      → (sys' : System) × (kernel_entry load isr stack_top image eflags fuel magic addr vga sys
          ≡ run_program load isr stack_top image eflags fuel sys')
        × IsLater (first_fs sys.kernel.memory image) (first_memory sys.kernel.memory image) sys sys'
        × IsOpen isr sys.kernel.shell.stdin.bytes sys'
  kernel_entry-reaches magic addr total vga sys b mountable =
      let (sys1, e1, l1, open1) = kernel_entry-mounts magic addr total vga sys b in
      let (sys2, e2, l2, stays) =
        mount_and_run-reaches total sys sys1
          (subst (IsMountable image total) (sym l1.memory) mountable) in
      (
        sys2,
        e1 ∙ e2,
        record {
          fs_is = l2.fs_is ∙ ap (λ m. first_fs m image) l1.memory;
          memory = l2.memory ∙ ap (λ m. first_memory m image) l1.memory;
          procs = l2.procs ∙ l1.procs;
        },
        stays open1,
      )
