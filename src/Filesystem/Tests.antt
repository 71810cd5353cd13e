-- ===== src/Filesystem/Tests.antt =====
-- The theorems on the file system at a concrete image.
use drupe.Base.{
  ltb, ◌==◌, if◌then◌else◌, chars, get_or, replicate, u32, Bytes, get_u16, get_u32, ◌>>=◌, ℕ, zero,
  suc, ◌+◌, ◌-◌, ◌*◌, ◌≤◌, min, ◌≡◌, refl, inr, Bool, true, ◌&&◌, some, List, [], ◌∷◌, ◌++◌, arith,
}
use drupe.Memory.Physical.{Pmm, mem_phys_init}
use drupe.Memory.Physical.Bitmap.{IsValid, mem_phys_init-IsValid}
use drupe.Shell.Display.{blank}
use drupe.Interrupts.{Kernel}
use drupe.Filesystem.{Fs, Inode, inode_at, superblock_at, ext2_root_ino}
use drupe.Filesystem.File.{ext2_read_file}
use drupe.Filesystem.File.Read.{IsRead, ext2_read_file-IsRead}
use drupe.Filesystem.Dir.{name_of, ext2_read_dir}
use drupe.Filesystem.Dir.Listing.{Entry, Holds, concat, walk, ext2_read_dir-eq-walk}
use drupe.Filesystem.Dir.Ends.{IsBytes, ext2_read_dir-ends}
use drupe.Filesystem.Mount.{inode_offset, Mounted, ext2_mount, ext2_read_inode}
use drupe.Filesystem.Mount.Inodes.{ext2_read_inode-at}
use drupe.Filesystem.Mount.Groups.{superblock_of, Mounts, ext2_mount-Mounts}
use drupe.Filesystem.Search.{print_dir_cb, ext2_find_file_inode_by_name}
use drupe.Filesystem.Search.Compare.{c_string-IsText}
use drupe.Interrupts.Say.{Keeps}
use drupe.Filesystem.Search.Ends.{print_dir_cb-Keeps}
use drupe.Filesystem.Copy.Laws.{Apart}
use drupe.Filesystem.Search.Match.{Finds, ext2_find_file_inode_by_name-Finds}

-- the bytes of a memory that are not 0, by address
abbrev from_cells : List (ℕ × ℕ) → Bytes
from_cells [] a = 0
from_cells ((k, v) ∷ cells) a = if a == k then v else from_cells cells a

abbrev small_cells : List (ℕ × ℕ) → Bool
small_cells [] = true
small_cells ((k, v) ∷ cells) = ltb v 256 && small_cells cells

from_cells-IsBytes : (cells : List (ℕ × ℕ)) → small_cells cells ≡ true → IsBytes (from_cells cells)
from_cells-IsBytes [] h a = omega arith
from_cells-IsBytes ((k, v) ∷ cells) h a =
    let rest : small_cells cells ≡ true = ground arith in
    ground (arith, from_cells-IsBytes cells rest a)

-- a text from an address on
abbrev placed : ℕ → List ℕ → List (ℕ × ℕ)
placed a [] = []
placed a (c ∷ cs) = (a, c) ∷ placed (a + 1) cs

-- the address of the image
abbrev pub image : ℕ
image = 0x2000000

-- The tags of the boot loader at 4096, a memory map with 64 MB that are available. The image, of
-- blocks of 1024 bytes: the superblock at 1024, the table of groups at 2048, the inode table in block
-- 5, the root directory in block 10, and a program of six bytes in block 12.
abbrev cells : List (ℕ × ℕ)
cells =
    (0x1008, 6)
      ∷ (0x100C, 40)
      ∷ (0x1010, 24)
      ∷ (0x1023, 4)
      ∷ (0x1028, 1)
      ∷ (image + 1028, 64)
      ∷ (image + 1057, 0x20)
      ∷ (image + 1064, 32)
      ∷ (image + 1080, 0x53)
      ∷ (image + 1081, 0xEF)
      ∷ (image + 2056, 5)
      ∷ (image + 5276, 2)
      ∷ (image + 5288, 10)
      ∷ (image + 6404, 6)
      ∷ (image + 6440, 12)
      ∷ (image + 10240, 11)
      ∷ (image + 10245, 4)
      ∷ (image + 10246, 11)
      ∷ placed (image + 10248) (chars "example.bin")
    ++ placed (image + 12288) (0xB8 ∷ 1 ∷ 0xCD ∷ 0x80 ∷ 0xEB ∷ 0xFE ∷ [])

abbrev pub machine : Bytes
machine = from_cells cells

pub machine-IsBytes : IsBytes machine
machine-IsBytes = from_cells-IsBytes cells refl

-- the file system once its table of groups has been loaded to 1 MB
abbrev pub fs : Fs
fs = record {
  sb = superblock_of machine image;
  block_size = 1024;
  bgdt = image + 2048;
  image = image;
}

-- the inodes with the size, the number of sectors and the first block; no other field is set
abbrev pub inode_with : ℕ → ℕ → ℕ → Inode
inode_with size sectors block = record {
  i_mode = 0;
  i_uid = 0;
  i_size_lo = size;
  i_atime = 0;
  i_ctime = 0;
  i_mtime = 0;
  i_dtime = 0;
  i_gid = 0;
  i_links_count = 0;
  i_blocks = sectors;
  i_flags = 0;
  i_osd1 = 0;
  i_block = block ∷ replicate 11 0;
  i_single = 0;
  i_double = 0;
  i_triple = 0;
  i_generation = 0;
  i_file_acl = 0;
  i_dir_acl = 0;
  i_faddr = 0;
}

abbrev pub root : Inode
root = inode_with 0 2 10

abbrev pub program : Inode
program = inode_with 6 0 12

abbrev pub listing : List (List Entry)
listing = (record { inode = 11; name = chars "example.bin"; rec_len = 1024 } ∷ []) ∷ []

abbrev pub kernel : Kernel
kernel = record {
  shell = record {
    screen = record {
      memory = replicate 4 (blank 0x07);
      size = 4;
      cursor = 0;
      width = 2;
      height = 2;
      color = 0x07;
    };
    stdin = record { bytes = replicate 1024 0; head = 0; tail = 0; count = 0 };
    stdout = record { bytes = replicate 1024 0; head = 0; tail = 0; count = 0 };
    stderr = record { bytes = replicate 1024 0; head = 0; tail = 0; count = 0 };
  };
  memory = machine;
}

pub root_read : ext2_read_inode fs ext2_root_ino machine ≡ some (some root)
unfolding ext2_read_inode inode_offset inode_at superblock_at get_u16 get_u32
root_read = refl

pub program_read : ext2_read_inode fs 11 machine ≡ some (some program)
unfolding ext2_read_inode inode_offset inode_at superblock_at get_u16 get_u32
program_read = refl

pub root-Holds : Holds fs machine (10 ∷ []) listing
unfolding get_u16 get_u32 name_of
root-Holds =
    (inr ((λ e. absurd (omega arith)), (refl, refl, refl, omega arith, omega arith, refl)), refl)

no_block : (n b : ℕ) → get_or {A = ℕ} (replicate n 0) b 0 ≡ 0
no_block zero b = refl
no_block (suc n) zero = refl
no_block (suc n) (suc b) = no_block n b

-- The blocks of the program stand behind the memory of the user.
pub program-IsApart :
    (output n b : ℕ)
    → output + n ≤ image
    → Apart (u32 (image + u32 (get_or program.i_block b 0 * 1024))) 1024 output n
program-IsApart output n zero h = inr (omega arith)
program-IsApart output n (suc b) h = let empty = no_block 11 b in rw empty (inr (omega arith))

ext2_read_file-IsRead_example :
    (r : Bytes × ℕ) × (ext2_read_file fs program 0x400000 100 2 machine ≡ some r)
    × IsRead fs program machine 0x400000 (min 100 (6 - 2)) 2 r
ext2_read_file-IsRead_example =
    ext2_read_file-IsRead fs program 0x400000 100 2 machine
      (λ b direct entry. program-IsApart 0x400000 100 b (omega arith)) (λ e. absurd (omega arith))
      (omega arith) (omega arith) (omega arith)

ext2_read_dir-ends_example :
    (k : Kernel) × (ext2_read_dir print_dir_cb machine fs root kernel ≡ some k) × Keeps kernel k
ext2_read_dir-ends_example =
    ext2_read_dir-ends print_dir_cb (Keeps kernel) (print_dir_cb-Keeps kernel) machine
      machine-IsBytes fs root kernel (omega arith) (omega arith)
      (record { memory = refl; input = refl })

ext2_find_file_inode_by_name-Finds_example :
    Finds kernel
      (chars "example.bin")
      (concat listing)
      (ext2_find_file_inode_by_name fs (chars "example.bin") kernel)
ext2_find_file_inode_by_name-Finds_example =
    ext2_find_file_inode_by_name-Finds fs (chars "example.bin") root kernel listing root_read
      (omega arith) (omega arith) root-Holds (c_string-IsText (chars "example.bin"))

ext2_read_inode-at_example :
    ext2_read_inode fs 11 machine ≡ some (some (inode_at machine (image + 6400)))
unfolding superblock_at get_u32
ext2_read_inode-at_example =
    ext2_read_inode-at fs machine 0 10 8 5 refl (omega arith) refl (omega arith) (omega arith)

-- 16 MB from 1 MB on, which no block of the image lies in
abbrev free : Pmm
free = record { map = replicate 8192 0xFF; start = 0x100000; sectors = 2048 }

free-IsValid : IsValid free
unfolding mem_phys_init
free-IsValid = mem_phys_init-IsValid 0x100000 0x1000000

ext2_mount-Mounts_example :
    (r : Mounted) × (ext2_mount fs image free machine ≡ some r) × Mounts image 32 free machine r
unfolding superblock_at get_u16 get_u32
ext2_mount-Mounts_example =
    ext2_mount-Mounts fs image 1 free machine free-IsValid (omega arith) (omega arith) (omega arith)
      (inr (omega arith)) refl (omega arith) (omega arith)
      (record {
        enough = omega arith;
        fewest = omega arith;
        no_wrap = omega arith;
        small = omega arith;
      })

ext2_read_dir-eq-walk_example :
    ext2_read_dir print_dir_cb machine fs root kernel
    ≡ (walk print_dir_cb (concat listing) kernel >>= λ r. some r.0)
ext2_read_dir-eq-walk_example =
    ext2_read_dir-eq-walk print_dir_cb listing fs root machine kernel (omega arith) (omega arith)
      root-Holds
