-- ===== src/Entry/Tests.antt =====
-- The theorems on `kernel_entry` with a concrete boot loader and image.
use drupe.Base.{chars, replicate, get_u16, get_u32, get_u64, ◌≡◌, refl, inr, some, [], arith}
use drupe.Boot.Gdt.Tests.{mark_code, mark_code-IsLoad}
use drupe.Boot.Idt.Tests.{stubs}
use drupe.Boot.Multiboot.{find_mmap, mb2_get_memory}
use drupe.Filesystem.{superblock_at, inode_at}
use drupe.Filesystem.Copy.{memcpy_from, kpmemcpy}
use drupe.Filesystem.Mount.{inode_offset, ext2_read_inode}
use drupe.Filesystem.Dir.{name_of}
use drupe.Filesystem.Search.Ends.{IsSound}
use drupe.Filesystem.Tests.{
  image, machine, machine-IsBytes, root, program, listing, program-IsApart,
}
use drupe.Interrupts.Pic.{pic_init}
use drupe.Usermode.{System}
use drupe.Usermode.Processes.{find_slot}
use drupe.Usermode.Setup.Tests.{system, listed}
use drupe.Usermode.Setup.Loads.{IsInstalled}
use drupe.Entry.{kernel_entry, idle}
use drupe.Entry.Mount.{first_fs, first_memory}
use drupe.Entry.Reach.{IsStarted, IsMountable}
use drupe.Entry.Boots.{Runs, kernel_entry-Runs, Enters, kernel_entry-Enters, kernel_entry-idles}

pub machine-IsStarted : IsStarted mark_code stubs 4 0x36d76289 0x1000 0x4000000 machine
unfolding mb2_get_memory find_mmap get_u32 get_u64
machine-IsStarted = record {
  loads = mark_code-IsLoad;
  zeroth_small = omega arith;
  thirteenth_small = omega arith;
  zeroth = λ e. absurd (omega arith);
  thirteenth = λ e. absurd (omega arith);
  tells = refl;
}

pub machine-IsMountable : IsMountable image 0x4000000 machine
unfolding superblock_at get_u16 get_u32
machine-IsMountable = record {
  super_magic = refl;
  shift = omega arith;
  some_blocks = omega arith;
  room = omega arith;
  covered = omega arith;
}

first-IsInstalled :
    IsInstalled (first_fs machine image) (first_memory machine image) (chars "example.bin") program
unfolding kpmemcpy memcpy_from ext2_read_inode inode_offset inode_at superblock_at get_u16 get_u32
    name_of
first-IsInstalled = record {
  root = root;
  entries = listing;
  number = 11;
  root_read = refl;
  holds =
      (inr ((λ e. absurd (omega arith)), (refl, refl, refl, omega arith, omega arith, refl)), refl);
  first = listed;
  some_number = λ e. absurd (omega arith);
  inode_read = refl;
  large = omega arith;
  some_size = omega arith;
  direct = omega arith;
  fits = omega arith;
  apart = λ b direct entry. program-IsApart 0x400000 6 b (omega arith);
}

kernel_entry-Runs_example :
    Runs 2
      (first_fs machine image)
      (first_memory machine image)
      program
      (kernel_entry mark_code stubs 0x10B000 image 2 4 0x36d76289 0x1000 [] system)
unfolding find_slot
kernel_entry-Runs_example =
    kernel_entry-Runs mark_code stubs 0x10B000 image 2 4 0x36d76289 0x1000 0x4000000 [] system 0
      program machine-IsStarted machine-IsMountable refl first-IsInstalled

pub first-IsSound : IsSound (first_fs machine image)
unfolding superblock_at get_u32
first-IsSound = record { large = omega arith; small = omega arith; inodes = omega arith }

kernel_entry-Enters_example :
    Enters 2 stubs
      (replicate 1024 0)
      (first_fs machine image)
      (kernel_entry mark_code stubs 0x10B000 image 2 4 0x36d76289 0x1000 [] system)
kernel_entry-Enters_example =
    kernel_entry-Enters mark_code stubs 0x10B000 image 2 4 0x36d76289 0x1000 0x4000000 [] system
      machine-IsStarted machine-IsMountable first-IsSound machine-IsBytes

-- an image address where there is none
kernel_entry-idles_example :
    (sys' : System) × (kernel_entry mark_code stubs 0x10B000 0x3000000 2 4 0x36d76289 0x1000 []
        system
      ≡ some (idle sys' pic_init))
    × (sys'.pmm.map ≡ replicate 8192 0xFF)
    × (sys'.kernel.memory ≡ machine)
unfolding superblock_at get_u16
kernel_entry-idles_example =
    kernel_entry-idles mark_code stubs 0x10B000 0x3000000 2 4 0x36d76289 0x1000 0x4000000 [] system
      machine-IsStarted (λ e. absurd (omega arith))
