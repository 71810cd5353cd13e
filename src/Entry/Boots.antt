-- ===== src/Entry/Boots.antt =====
-- How `kernel_entry` ends: in the program, in user mode without one, or idle.
use drupe.Base.{
  ◌==◌, chars, replicate, u32, u64, Bytes, ℕ, zero, suc, ◌+◌, ◌-◌, ◌*◌, ◌/◌, ◌^◌, ◌<◌, ◌≡◌, refl,
  sym, ap, ap₂, subst, ◌∙◌, ◌≢◌, false, Option, some, List, [], ◌∷◌, arith,
}
use drupe.Memory.Physical.{pmm_sectors, mem_phys_init}
use drupe.Shell.Display.{Cell}
use drupe.Shell.Print.{word}
use drupe.Shell.Print.Format.{formatted, converted}
use drupe.Boot.Gdt.{GdtEntry}
use drupe.Interrupts.{Kernel}
use drupe.Interrupts.Say.{say-Keeps}
use drupe.Interrupts.Pic.{pic_init}
use drupe.Filesystem.{Fs, Inode, ext2_super_magic}
use drupe.Filesystem.Copy.{write, memcpy_from, kpmemcpy}
use drupe.Filesystem.Dir.Ends.{IsBytes}
use drupe.Filesystem.File.Slice.{sliced}
use drupe.Filesystem.Mount.{ext2_mount}
use drupe.Filesystem.Mount.Groups.{superblock_of, table_address, table_size}
use drupe.Filesystem.Search.{put_line}
use drupe.Filesystem.Search.Compare.{IsText, c_string-IsText}
use drupe.Filesystem.Search.Ends.{IsSound}
use drupe.Usermode.{System}
use drupe.Usermode.Processes.{find_slot, proc_create, started}
use drupe.Usermode.Setup.{um_setup_env, user_code_base, um_switch}
use drupe.Usermode.Setup.Ends.{IsOpen, Ends-IsOpen, um_setup_env-Ends}
use drupe.Usermode.Setup.Loads.{IsInstalled, um_setup_env-Loaded}
use drupe.Entry.{Ending, idle, user, run_program, mount_and_run, kernel_entry}
use drupe.Entry.Mount.{first_fs, first_memory}
use drupe.Entry.Reach.{IsStarted, IsMountable, IsLater, kernel_entry-reaches, kernel_entry-mounts}

-- the name of the program
abbrev pub program : List ℕ
program = chars "example.bin"

program-IsText : IsText program
program-IsText = c_string-IsText program

proc_create-slot :
    (sys : System) (pid : ℕ)
    → find_slot sys.procs.table 0 ≡ some pid
    → (proc_create sys.procs sys.pmm).0 ≡ some pid
unfolding proc_create
proc_create-slot sys pid slot = rw slot refl

-- the memory with the file at the program's address
abbrev pub Runs : ℕ → Fs → Bytes → Inode → Option Ending → Type 0
Runs eflags fs m inode r =
    (sys' : System) × (r ≡ some (user sys' pic_init (um_switch eflags)))
    × ((a : ℕ) → sys'.kernel.memory a ≡ sliced fs inode m user_code_base 0 inode.i_size_lo a)

-- User mode, with the file system, an empty stdin on its storage, and the gates of `idt_setup`.
pub record Enters (eflags : ℕ) (isr : ℕ → ℕ) (bytes : List ℕ) (fs : Fs) (r : Option Ending)
    : Type 0 where
  pub sys' : System
  pub result : r ≡ some (user sys' pic_init (um_switch eflags))
  pub fs_is : sys'.fs ≡ fs
  pub is_open : IsOpen isr bytes sys'

write-IsBytes : (m : Bytes) (a v : ℕ) → IsBytes m → v < 256 → IsBytes (write m a v)
write-IsBytes m a v bytes small i = ground (arith, bytes i)

memcpy_from-IsBytes :
    (left i dst src : ℕ) (m : Bytes) → IsBytes m → IsBytes (memcpy_from left i dst src m)
unfolding memcpy_from
memcpy_from-IsBytes zero i dst src m bytes = bytes
memcpy_from-IsBytes (suc left) i dst src m bytes =
    memcpy_from-IsBytes left (i + 1) dst src (write m (dst + i) (m (src + i)))
      (write-IsBytes m (dst + i) (m (src + i)) bytes (bytes (src + i)))

kpmemcpy-IsBytes : (dst src size : ℕ) (m : Bytes) → IsBytes m → IsBytes (kpmemcpy dst src size m)
unfolding kpmemcpy
kpmemcpy-IsBytes dst src size m bytes = memcpy_from-IsBytes size 0 dst src m bytes

module _ (load : List GdtEntry → List GdtEntry) (isr : ℕ → ℕ)
    (stack_top image eflags fuel : ℕ) where
  run_program-Runs :
      (fs : Fs) (m : Bytes) (sys0 sys : System) (pid : ℕ) (inode : Inode)
      → IsLater fs m sys0 sys
      → find_slot sys0.procs.table 0 ≡ some pid
      → IsInstalled fs m program inode
      → Runs eflags fs m inode (run_program load isr stack_top image eflags fuel sys)
  unfolding run_program formatted converted
  run_program-Runs fs m sys0 sys pid inode later slot i =
      let (k, said, same) =
        say-Keeps sys.kernel
          (chars "EXT2 filesystem mounted successfully! Block size: %d bytes\r\n")
          (word sys.fs.block_size ∷ []) _ refl in
      let sys' : System = record sys { kernel = k } in
      let memory : k.memory ≡ m = same.memory ∙ later.memory in
      let installed : IsInstalled sys.fs k.memory program inode =
        subst (λ f. IsInstalled f k.memory program inode) (sym later.fs_is)
          (subst (λ m. IsInstalled fs m program inode) (sym memory) i) in
      let free = ap (λ p. find_slot p.table 0) later.procs ∙ slot in
      let (r, e, h) =
        um_setup_env-Loaded program sys' inode pid program-IsText (proc_create-slot sys' pid free)
          installed in
      (
        r,
        rw (said, e) refl,
        λ a.
            h a
            ∙ ap₂ (λ f m. sliced f inode m user_code_base 0 inode.i_size_lo a) later.fs_is memory,
      )

  -- When the boot loader tells a size of the memory that has room for the image's table of groups
  -- and that the map covers, the stubs have addresses and the image can be mounted, with a free
  -- slot in the table of processes and a program "example.bin" that the root directory lists, that
  -- its first twelve blocks hold and that has no block where it is loaded to, `kernel_entry` enters
  -- user mode: the whole file stands at 4 MB, and no other byte of the memory has changed since the
  -- mount.
  pub kernel_entry-Runs :
      (magic addr total : ℕ) (vga : List Cell) (sys : System) (pid : ℕ) (inode : Inode)
      → IsStarted load isr fuel magic addr total sys.kernel.memory
      → IsMountable image total sys.kernel.memory
      → find_slot sys.procs.table 0 ≡ some pid
      → IsInstalled
          (first_fs sys.kernel.memory image)
          (first_memory sys.kernel.memory image)
          program
          inode
      → Runs eflags
          (first_fs sys.kernel.memory image)
          (first_memory sys.kernel.memory image)
          inode
          (kernel_entry load isr stack_top image eflags fuel magic addr vga sys)
  kernel_entry-Runs magic addr total vga sys pid inode started mountable slot i =
      let (sys', e, later, ready) =
        kernel_entry-reaches load isr stack_top image eflags fuel magic addr total vga sys started
          mountable in
      let (r, ends, h) =
        run_program-Runs (first_fs sys.kernel.memory image) (first_memory sys.kernel.memory image)
          sys sys' pid inode later slot i in
      (r, e ∙ ends, h)

  run_program-user :
      (fs : Fs) (m : Bytes) (sys0 sys : System)
      → IsLater fs m sys0 sys
      → IsSound fs
      → IsBytes m
      → IsOpen isr sys0.kernel.shell.stdin.bytes sys
      → Enters eflags isr sys0.kernel.shell.stdin.bytes fs
          (run_program load isr stack_top image eflags fuel sys)
  unfolding run_program formatted converted
  run_program-user fs m sys0 sys later sound bytes ready =
      let (k, said, same) =
        say-Keeps sys.kernel
          (chars "EXT2 filesystem mounted successfully! Block size: %d bytes\r\n")
          (word sys.fs.block_size ∷ []) _ refl in
      let sys1 : System = record sys { kernel = k } in
      let h =
        um_setup_env-Ends program sys1 (subst IsSound (sym later.fs_is) sound)
          (subst IsBytes (sym (same.memory ∙ later.memory)) bytes) in
      record {
        sys' = h.sys';
        result = rw (said, h.result) refl;
        fs_is = h.fs_is ∙ later.fs_is;
        is_open =
            Ends-IsOpen isr sys0.kernel.shell.stdin.bytes sys1 (um_setup_env program sys1)
              (record { input = same.input ∙ ready.input; gates = ready.gates }) h;
      }

  -- When the boot loader tells a size of the memory that has room for the image's table of groups
  -- and that the map covers, the stubs have addresses and the image can be mounted and read without
  -- a division by 0, on a memory of bytes, `kernel_entry` ends in user mode, with the table of
  -- groups at 1 MB, the gates of `idt_setup` and an empty stdin, whether or not a process and a
  -- program have been found.
  pub kernel_entry-Enters :
      (magic addr total : ℕ) (vga : List Cell) (sys : System)
      → IsStarted load isr fuel magic addr total sys.kernel.memory
      → IsMountable image total sys.kernel.memory
      → IsSound (first_fs sys.kernel.memory image)
      → IsBytes sys.kernel.memory
      → Enters eflags isr sys.kernel.shell.stdin.bytes
          (first_fs sys.kernel.memory image)
          (kernel_entry load isr stack_top image eflags fuel magic addr vga sys)
  kernel_entry-Enters magic addr total vga sys started mountable sound bytes =
      let (sys', e, later, ready) =
        kernel_entry-reaches load isr stack_top image eflags fuel magic addr total vga sys started
          mountable in
      let h =
        run_program-user (first_fs sys.kernel.memory image) (first_memory sys.kernel.memory image)
          sys sys' later sound
          (kpmemcpy-IsBytes 0x100000 (table_address sys.kernel.memory image)
            (table_size sys.kernel.memory image) sys.kernel.memory bytes)
          ready in
      record { sys' = h.sys'; result = e ∙ h.result; fs_is = h.fs_is; is_open = h.is_open }

  -- When the boot loader tells the size of the memory, the stubs have addresses and the image has
  -- another magic number, `kernel_entry` idles, with all sectors free and the memory as it was.
  pub kernel_entry-idles :
      (magic addr total : ℕ) (vga : List Cell) (sys : System)
      → IsStarted load isr fuel magic addr total sys.kernel.memory
      → (superblock_of sys.kernel.memory image).s_magic ≢ ext2_super_magic
      → (sys' : System) × (kernel_entry load isr stack_top image eflags fuel magic addr vga sys
          ≡ some (idle sys' pic_init))
        × (sys'.pmm.map ≡ replicate (pmm_sectors / 8) 0xFF)
        × (sys'.kernel.memory ≡ sys.kernel.memory)
  unfolding mount_and_run ext2_mount formatted converted mem_phys_init
  kernel_entry-idles magic addr total vga sys started other =
      let (sys1, e, later, ready) =
        kernel_entry-mounts load isr stack_top image eflags fuel magic addr total vga sys started in
      let (k, said, same) =
        say-Keeps sys1.kernel (chars "Booted with %d MB of Memory.\r\n")
          (word (u32 (total / (1024 * 1024))) ∷ []) _ refl in
      let memory : k.memory ≡ sys.kernel.memory = same.memory ∙ later.memory in
      let wrong : ((superblock_of sys.kernel.memory image).s_magic == ext2_super_magic) ≡ false =
        ground (arith, other) in
      let pmm = mem_phys_init 0x100000 (u32 (u64 (total + (2 ^ 64 - 0x100000)))) in
      let fs : Fs = record sys1.fs { image = image; sb = superblock_of sys.kernel.memory image } in
      let unmounted : Kernel = record k { memory = sys.kernel.memory } in
      (
        record sys1 {
          kernel =
              put_line unmounted (chars "Failed to mount EXT2 filesystem from embedded image.\r\n");
          pmm = pmm;
          fs = fs;
        },
        e ∙ rw (said, memory, wrong) refl,
        refl,
        refl,
      )
