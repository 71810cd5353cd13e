-- ===== src/Usermode/Setup/Loads.antt =====
-- `um_setup_env` loads the program that the root directory names.
use drupe.Base.{
  ◌==◌, ==_iff, take, Bytes, ℕ, ◌+◌, ◌*◌, ◌/◌, ◌^◌, ◌≤◌, ◌<◌, ◌≡◌, refl, ap, ◌∙◌, ◌≢◌, true, false,
  Option, some, List, arith,
}
use drupe.Boot.Idt.{tss_set_kernel_stack}
use drupe.Filesystem.{Fs, Inode, ext2_root_ino}
use drupe.Filesystem.Mount.{ext2_read_inode}
use drupe.Filesystem.Dir.Listing.{Entry, Holds, concat}
use drupe.Filesystem.File.Slice.{IsApart, sliced}
use drupe.Filesystem.File.Read.{ext2_read_file-IsRead}
use drupe.Filesystem.Search.Compare.{IsText}
use drupe.Filesystem.Search.Match.{FirstMatch, ext2_find_file_inode_by_name-Finds}
use drupe.Filesystem.Search.Unique.{FirstMatch-unique}
use drupe.Usermode.{System}
use drupe.Usermode.Processes.{process_at, proc_create}
use drupe.Usermode.Setup.{
  user_code_base, load_program, open_program, inode_of, prepare, um_setup_env,
}

-- The root directory lists a program under a name, and the program fits: its blocks stand nowhere in
-- the memory that it is loaded to, and the first twelve hold it.
pub record IsInstalled (fs : Fs) (m : Bytes) (name : List ℕ) (inode : Inode) : Type 0 where
  pub root : Inode
  pub entries : List (List Entry)
  pub number : ℕ
  pub root_read : ext2_read_inode fs ext2_root_ino m ≡ some (some root)
  pub holds : Holds fs m (take (root.i_blocks / (fs.block_size / 512)) root.i_block) entries
  pub first : FirstMatch name (concat entries) number
  pub some_number : number ≢ 0
  pub inode_read : ext2_read_inode fs number m ≡ some (some inode)
  pub large : 512 ≤ fs.block_size
  pub some_size : 0 < inode.i_size_lo
  pub direct : inode.i_size_lo ≤ 12 * fs.block_size
  pub fits : inode.i_size_lo + fs.block_size ≤ 2 ^ 32
  pub apart : IsApart fs inode user_code_base inode.i_size_lo

-- the memory with the file from the user's base on
abbrev pub Loaded : System → Inode → Option System → Type 0
Loaded sys inode r =
    (sys' : System) × (r ≡ some sys')
    × ((a : ℕ)
        → sys'.kernel.memory a
          ≡ sliced sys.fs inode sys.kernel.memory user_code_base 0 inode.i_size_lo a)

load_program-Loaded :
    (sys : System) (inode : Inode)
    → 0 < inode.i_size_lo
    → 512 ≤ sys.fs.block_size
    → inode.i_size_lo ≤ 12 * sys.fs.block_size
    → inode.i_size_lo + sys.fs.block_size ≤ 2 ^ 32
    → IsApart sys.fs inode user_code_base inode.i_size_lo
    → Loaded sys inode (load_program inode sys)
unfolding load_program
load_program-Loaded sys inode some_size large direct fits apart =
    let (r, e, h) =
      ext2_read_file-IsRead sys.fs inode user_code_base inode.i_size_lo 0 sys.kernel.memory apart
        (λ z. omega arith) some_size (omega arith) (omega arith) in
    let all : r.1 ≡ inode.i_size_lo = omega (arith, h.amount, direct) in
    let whole : (r.1 == inode.i_size_lo) ≡ true = (==_iff r.1 inode.i_size_lo).1 all in
    (
      record sys { kernel = record sys.kernel { memory = r.0 } },
      rw (e, whole) refl,
      λ a. h.memory a ∙ ap (λ n. sliced sys.fs inode sys.kernel.memory user_code_base 0 n a) all,
    )

prepare-Loaded :
    (name : List ℕ) (sys : System) (pid : ℕ) (inode : Inode)
    → IsText name
    → IsInstalled sys.fs sys.kernel.memory name inode
    → Loaded sys inode (prepare name sys pid)
unfolding prepare open_program
prepare-Loaded name sys pid inode text i =
    let f =
      ext2_find_file_inode_by_name-Finds sys.fs name i.root sys.kernel i.entries i.root_read i.large
        (omega (arith, i.some_size, i.fits)) i.holds text in
    let n : f.inode ≡ i.number =
      FirstMatch-unique name (concat i.entries) f.inode i.number f.first i.first in
    let some_number : (i.number == 0) ≡ false = ground (arith, i.some_number) in
    let next : System = record sys {
      kernel = f.k';
      idt = tss_set_kernel_stack sys.idt (process_at sys.procs pid).kernel_stack_top;
    } in
    let found : inode_of next f.inode ≡ some (some inode) =
      rw (n, some_number, f.memory) i.inode_read in
    let (sys', e, h) = load_program-Loaded next inode i.some_size i.large i.direct i.fits i.apart in
    (
      sys',
      rw (f.result, found) e,
      λ a. h a ∙ ap (λ m. sliced sys.fs inode m user_code_base 0 inode.i_size_lo a) f.memory,
    )

-- With a free slot in the table of processes, and a program that the root directory lists under a
-- name without a zero, that its first twelve blocks hold and that has no block where it is loaded
-- to, `um_setup_env` ends with the whole program at 4 MB, and no other byte of the memory has
-- changed.
pub um_setup_env-Loaded :
    (name : List ℕ) (sys : System) (inode : Inode) (pid : ℕ)
    → IsText name
    → (proc_create sys.procs sys.pmm).0 ≡ some pid
    → IsInstalled sys.fs sys.kernel.memory name inode
    → Loaded sys inode (um_setup_env name sys)
unfolding um_setup_env
um_setup_env-Loaded name sys inode pid text slot i =
    let sys' : System = record sys {
      procs = (proc_create sys.procs sys.pmm).1;
      pmm = (proc_create sys.procs sys.pmm).2;
    } in
    let (r, e, h) = prepare-Loaded name sys' pid inode text i in (r, rw (slot, um_setup_env) e, h)
