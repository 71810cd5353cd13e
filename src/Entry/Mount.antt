-- ===== src/Entry/Mount.antt =====
-- The first file system is mounted while every sector is still free.
use drupe.Base.{
  leb, ◌==◌, ==_iff, u32, Bytes, ℕ, zero, suc, ◌+◌, ◌*◌, ◌/◌, ◌≤◌, ◌<◌, ◌≡◌, refl, ap, true, false,
  ◌||◌, Option, none, some, arith,
}
use drupe.Memory.Physical.{Pmm, pmm_sectors, pmm_sector_size, mem_phys_init}
use drupe.Memory.Physical.Bitmap.{mem_phys_init-IsValid, mem_phys_init-free}
use drupe.Memory.Physical.Run.{Returns, no_run, took}
use drupe.Filesystem.{Fs, ext2_super_magic}
use drupe.Filesystem.Copy.{kpmalloc, kpmemcpy}
use drupe.Filesystem.Copy.Alloc.{IsLeast, kpmalloc-Returns}
use drupe.Filesystem.Mount.{Mounted, load_groups, ext2_mount}
use drupe.Filesystem.Mount.Groups.{
  gd_offset_lem, sized, superblock_of, block_size_of, table_size, table_address,
}

-- the file system that is mounted at boot, with its table of groups at 1 MB
abbrev pub first_fs : Bytes → ℕ → Fs
first_fs m image = record {
  sb = superblock_of m image;
  block_size = block_size_of m image;
  bgdt = 0x100000;
  image = image;
}

-- and the memory with the table
abbrev pub first_memory : Bytes → ℕ → Bytes
first_memory m image = kpmemcpy 0x100000 (table_address m image) (table_size m image) m

pub record MountsFirst (image : ℕ) (m : Bytes) (r : Mounted) : Type 0 where
  pub succeeds : r.ok ≡ true
  pub fs_is : r.fs ≡ first_fs m image
  pub memory : r.memory ≡ first_memory m image

first_sectors :
    (size num : ℕ) (o : Option (ℕ × Pmm))
    → 0 < num
    → num ≤ size / pmm_sector_size
    → num ≤ pmm_sectors
    → Returns (mem_phys_init 0x100000 size) num 0 o
    → (p : Pmm) × (o ≡ some (0x100000, p))
unfolding mem_phys_init
first_sectors size num none some_num fits covered h = absurd h
first_sectors size num (some r) some_num fits covered (no_run e none_free) = absurd (
    none_free 0 (omega arith) (omega arith)
      (λ j q. mem_phys_init-free 0x100000 size (0 + j) (omega arith)))
first_sectors size num (some (a, p)) some_num fits covered (took zero low t first) =
    (p, ap (λ a. some (a, p)) t.address)
first_sectors size num (some r) some_num fits covered (took (suc i) low t first) = absurd (
    first 0 (omega arith) (omega arith)
      (λ j q. mem_phys_init-free 0x100000 size (0 + j) (omega arith)))

-- the fewest sectors for the table are no more than there are
few :
    (num size table : ℕ)
    → IsLeast 1 table num
    → table + pmm_sector_size ≤ size
    → num ≤ size / pmm_sector_size
few num size table least room = least.least (size / pmm_sector_size) (omega arith) (omega arith)

sectors-covered :
    (size : ℕ)
    → size ≤ pmm_sectors * pmm_sector_size
    → (mem_phys_init 0x100000 size).sectors ≤ pmm_sectors
unfolding mem_phys_init
sectors-covered size covered = omega arith

-- With the right magic number, a shift below 32, some blocks for each group, and memory and map enough
-- for the table of groups, the mount at boot succeeds, with the table copied to 1 MB.
pub ext2_mount-MountsFirst :
    (fs : Fs) (image size : ℕ) (m : Bytes)
    → (superblock_of m image).s_magic ≡ ext2_super_magic
    → (superblock_of m image).s_log_block_size < 32
    → 0 < (superblock_of m image).s_blocks_per_group
    → table_size m image + pmm_sector_size ≤ size
    → size ≤ pmm_sectors * pmm_sector_size
    → (r : Mounted) × (ext2_mount fs image (mem_phys_init 0x100000 size) m ≡ some r)
      × MountsFirst image m r
unfolding ext2_mount load_groups
ext2_mount-MountsFirst fs image size m magic shift some_blocks room covered =
    let sb = superblock_of m image in
    let magical : (sb.s_magic == ext2_super_magic) ≡ true =
      (==_iff sb.s_magic ext2_super_magic).1 magic in
    let defined : (leb 32 sb.s_log_block_size || sb.s_blocks_per_group == 0) ≡ false =
      ground arith in
    let p = mem_phys_init 0x100000 size in
    let (num, least, asked, returns) =
      kpmalloc-Returns p (table_size m image) (mem_phys_init-IsValid 0x100000 size)
        (sectors-covered size covered) (omega arith) in
    let (p', taken) =
      first_sectors size num (kpmalloc p (table_size m image)) (omega (arith, least.from))
        (omega (arith, few num size (table_size m image) least room))
        (omega (arith, few num size (table_size m image) least room)) returns in
    (
      load_groups (sized fs image m) (table_size m image) m (0x100000, p'),
      rw (magical, defined, taken) refl,
      record {
        succeeds = refl;
        fs_is = refl;
        memory =
            ap (λ o. kpmemcpy 0x100000 (u32 (image + o)) (table_size m image) m)
              (gd_offset_lem (block_size_of m image) (omega arith));
      },
    )
