-- ===== src/Usermode/Setup/Ends.antt =====
-- `um_setup_env` ends, whether or not there is a program to load.
use drupe.Base.{
  leb, ◌==◌, Bool-cases, Option-cases, chars, u32, Bytes, ℕ, ◌+◌, ◌-◌, ◌/◌, ◌%◌, ◌<◌, ◌≡◌, refl,
  ◌∙◌, inl, inr, false, ◌||◌, Option, none, some, List, [], ◌∷◌, arith,
}
use drupe.Shell.Print.{str, word}
use drupe.Shell.Print.Format.{formatted, converted}
use drupe.Boot.Idt.{gate_at, tss_set_kernel_stack}
use drupe.Interrupts.{Kernel}
use drupe.Interrupts.Say.{say-Keeps}
use drupe.Shell.{emptied}
use drupe.Shell.Render.{sh_puts-stdin}
use drupe.Boot.Idt.Setup.{installed}
use drupe.Filesystem.{Fs, Inode}
use drupe.Filesystem.Dir.Ends.{IsBytes}
use drupe.Filesystem.File.{limited, read_blocks, ext2_read_file}
use drupe.Filesystem.Search.{put_line}
use drupe.Filesystem.Search.Ends.{IsSound, ext2_read_inode-ends, ext2_find_file_inode_by_name-ends}
use drupe.Usermode.{System}
use drupe.Usermode.Processes.{process_at, proc_create}
use drupe.Usermode.Setup.{
  user_code_base, load_program, open_program, inode_of, prepare, um_setup_env,
}

-- stdin is empty, on the storage `bytes`, and every gate is as `idt_setup` installs it
pub record IsOpen (isr : ℕ → ℕ) (bytes : List ℕ) (sys : System) : Type 0 where
  pub input : sys.kernel.shell.stdin ≡ emptied bytes
  pub gates : (v : ℕ) → gate_at sys.idt v ≡ installed isr v

-- a new state, on the same file system, and with gates and stdin as they were
pub record Ends (sys : System) (o : Option System) : Type 0 where
  pub sys' : System
  pub result : o ≡ some sys'
  pub fs_is : sys'.fs ≡ sys.fs
  pub input : sys'.kernel.shell.stdin ≡ sys.kernel.shell.stdin
  pub gates : (v : ℕ) → gate_at sys'.idt v ≡ gate_at sys.idt v

pub Ends-IsOpen :
    (isr : ℕ → ℕ) (bytes : List ℕ) (sys : System) (o : Option System)
    → IsOpen isr bytes sys
    → (h : Ends sys o) → IsOpen isr bytes h.sys'
Ends-IsOpen isr bytes sys o open_sys h = record {
  input = h.input ∙ open_sys.input;
  gates = λ v. h.gates v ∙ open_sys.gates v;
}

ext2_read_file-ends :
    (fs : Fs) (inode : Inode) (out_buf buf_len offset : ℕ) (m : Bytes)
    → 0 < fs.block_size
    → (r : Bytes × ℕ) × (ext2_read_file fs inode out_buf buf_len offset m ≡ some r)
unfolding ext2_read_file
ext2_read_file-ends fs inode out_buf buf_len offset m some_block =
    let defined : (fs.block_size == 0) ≡ false = ground arith in
    elim (Bool-cases (out_buf == 0 || leb inode.i_size_lo offset)) [
      | inl nothing ↦ ((m, 0), rw nothing refl)
      | inr some_part ↦ (
        read_blocks fs inode out_buf (limited inode buf_len offset) (offset / fs.block_size)
            (offset % fs.block_size) (12 - offset / fs.block_size)
            (u32 (offset + limited inode buf_len offset + fs.block_size - 1) / fs.block_size)
            (offset / fs.block_size) 0 m,
        rw (some_part, defined) refl,
      )
    ]

load_program-Ends :
    (sys : System) (inode : Inode) → 0 < sys.fs.block_size → Ends sys (load_program inode sys)
unfolding load_program formatted converted
load_program-Ends sys inode some_block =
    let (r, e) =
      ext2_read_file-ends sys.fs inode user_code_base inode.i_size_lo 0 sys.kernel.memory
        some_block in
    let k : Kernel = record sys.kernel { memory = r.0 } in
    let (k1, said, same) =
      say-Keeps k (chars "Failed to read complete program (read %d of %d bytes)\r\n")
        (word r.1 ∷ word inode.i_size_lo ∷ []) _ refl in
    elim (Bool-cases (r.1 == inode.i_size_lo)) [
      | inl whole ↦ record {
        sys' = record sys { kernel = k };
        result = rw (e, whole) refl;
        fs_is = refl;
        input = refl;
        gates = λ v. refl;
      }
      | inr part ↦ record {
        sys' = record sys { kernel = k1 };
        result = rw (e, part, said) refl;
        fs_is = refl;
        input = same.input;
        gates = λ v. refl;
      }
    ]

open_program-Ends :
    (name : List ℕ) (o : Option Inode) (sys : System)
    → 0 < sys.fs.block_size
    → Ends sys (open_program name o sys)
unfolding open_program formatted converted
open_program-Ends name none sys some_block =
    let (k1, said, same) =
      say-Keeps sys.kernel (chars "Failed to find program: %s\r\n") (str (some name) ∷ []) _ refl in
    record {
      sys' = record sys { kernel = k1 };
      result = rw said refl;
      fs_is = refl;
      input = same.input;
      gates = λ v. refl;
    }
open_program-Ends name (some inode) sys some_block = load_program-Ends sys inode some_block

inode_of-ends :
    (sys : System) (inode_num : ℕ)
    → IsSound sys.fs
    → (o : Option Inode) × (inode_of sys inode_num ≡ some o)
inode_of-ends sys inode_num v = elim (Bool-cases (inode_num == 0)) [
  | inl nought ↦ (none, rw nought refl)
  | inr some_no ↦
      let (o, e, h) = ext2_read_inode-ends sys.fs inode_num sys.kernel.memory v in (o, rw some_no e)
]

prepare-Ends :
    (name : List ℕ) (sys : System) (pid : ℕ)
    → IsSound sys.fs
    → IsBytes sys.kernel.memory
    → Ends sys (prepare name sys pid)
unfolding prepare tss_set_kernel_stack
prepare-Ends name sys pid v bytes =
    let (k, n, found, same) = ext2_find_file_inode_by_name-ends sys.fs name sys.kernel v bytes in
    let next : System = record sys {
      kernel = k;
      idt = tss_set_kernel_stack sys.idt (process_at sys.procs pid).kernel_stack_top;
    } in
    let (o, read) = inode_of-ends next n v in
    let h = open_program-Ends name o next (omega (arith, v.large)) in
    record {
      sys' = h.sys';
      result = rw (found, read) h.result;
      fs_is = h.fs_is;
      input = h.input ∙ same.input;
      gates = h.gates;
    }

-- On a file system without a division by 0 and a memory of bytes, `um_setup_env` ends with the
-- same file system, the same gates and the same stdin, whatever the root directory, the inodes and the table of processes hold.
pub um_setup_env-Ends :
    (name : List ℕ) (sys : System)
    → IsSound sys.fs
    → IsBytes sys.kernel.memory
    → Ends sys (um_setup_env name sys)
unfolding um_setup_env
um_setup_env-Ends name sys v bytes =
    let created = (proc_create sys.procs sys.pmm).0 in
    let sys' : System = record sys {
      procs = (proc_create sys.procs sys.pmm).1;
      pmm = (proc_create sys.procs sys.pmm).2;
    } in
    elim (Option-cases created) [
      | inl full ↦ record {
        sys' = record sys' { kernel = put_line sys.kernel (chars "Failed to create process\r\n") };
        result = rw (full, um_setup_env) refl;
        fs_is = refl;
        input = sh_puts-stdin sys.kernel.shell (chars "Failed to create process\r\n");
        gates = λ v. refl;
      }
      | inr (pid, slot) ↦
          let h = prepare-Ends name sys' pid v bytes in
          record {
            sys' = h.sys';
            result = rw (slot, um_setup_env) h.result;
            fs_is = h.fs_is;
            input = h.input;
            gates = h.gates;
          }
    ]
