-- ===== src/Usermode/Setup/Tests.antt =====
-- The theorems on the setup of a program, on the file system of a concrete image.
use drupe.Base.{chars, replicate, ◌≡◌, refl, none, some, [], arith}
use drupe.Boot.Idt.Tests.{cold, cold_gdt}
use drupe.Filesystem.Dir.Listing.{concat}
use drupe.Filesystem.Search.Compare.{c_string-IsText}
use drupe.Filesystem.Search.Match.{FirstMatch, matched}
use drupe.Filesystem.Tests.{
  machine, fs, root, program, listing, kernel, root_read, program_read, root-Holds, program-IsApart,
}
use drupe.Usermode.{System}
use drupe.Usermode.Processes.{zero_process, proc_create, find_slot, start_in}
use drupe.Usermode.Setup.{um_setup_env}
use drupe.Usermode.Setup.Loads.{IsInstalled, Loaded, um_setup_env-Loaded}

-- no process runs, and 16 MB from 1 MB on are free
abbrev pub system : System
system = record {
  kernel = kernel;
  gdt = cold_gdt;
  idt = cold;
  pmm = record { map = replicate 8192 0xFF; start = 0x100000; sectors = 2048 };
  procs = record { table = replicate 64 zero_process; current = none };
  fs = fs;
}

pub listed : FirstMatch (chars "example.bin") (concat listing) 11
listed =
    matched [] [] (record { inode = 11; name = chars "example.bin"; rec_len = 1024 }) refl tt
      (λ e. absurd (omega arith)) refl refl

fs-IsInstalled : IsInstalled fs machine (chars "example.bin") program
fs-IsInstalled = record {
  root = root;
  entries = listing;
  number = 11;
  root_read = root_read;
  holds = root-Holds;
  first = listed;
  some_number = λ e. absurd (omega arith);
  inode_read = program_read;
  large = omega arith;
  some_size = omega arith;
  direct = omega arith;
  fits = omega arith;
  apart = λ b direct entry. program-IsApart 0x400000 6 b (omega arith);
}

slot : (proc_create system.procs system.pmm).0 ≡ some 0
unfolding proc_create find_slot start_in
slot = refl

um_setup_env-Loaded_example : Loaded system program (um_setup_env (chars "example.bin") system)
um_setup_env-Loaded_example =
    um_setup_env-Loaded (chars "example.bin") system program 0
      (c_string-IsText (chars "example.bin")) slot fs-IsInstalled
