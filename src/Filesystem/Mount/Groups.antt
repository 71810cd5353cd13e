-- ===== src/Filesystem/Mount/Groups.antt =====
-- What `ext2_mount` makes of an image with the right magic number.
use drupe.Base.{
  leb, ◌==◌, if◌then◌else◌, ==_iff, Bool-cases, u32, sub32, ◌<<<◌, Bytes, ◌>>=◌, ℕ, suc, ◌+◌, ◌-◌,
  ◌*◌, ◌/◌, ◌^◌, ◌≤◌, ◌<◌, ◌≡◌, refl, sym, subst, ◌∙◌, inl, inr, true, false, ◌||◌, Option, none,
  some, arith,
}
use native.Mathlib.Nat.{le-div_iff_mul-le, div-lt_iff_lt-mul}
use drupe.Memory.Physical.{Pmm, pmm_sectors, pmm_sector_size}
use drupe.Memory.Physical.Bitmap.{IsValid}
use drupe.Memory.Physical.Run.{Returns, IsRun, TakesRun, RunAlloc, no_run, took}
use drupe.Filesystem.{
  Superblock, superblock_at, Fs, ext2_super_magic, ext2_super_offset, group_desc_size,
}
use drupe.Filesystem.Copy.{kpmalloc}
use drupe.Filesystem.Copy.Laws.{Apart, in_range, kpmemcpy_lem}
use drupe.Filesystem.Copy.Alloc.{IsLeast, kpmalloc-Returns}
use drupe.Filesystem.Mount.{Mounted, group_count, gd_offset, load_groups, ext2_mount}

-- the superblock of an image, the size of its table of groups, and where the table stands: in block 2
-- where blocks have 1 KiB, else in block 1
abbrev pub superblock_of : Bytes → ℕ → Superblock
superblock_of m image = superblock_at m (u32 (image + ext2_super_offset))

abbrev pub block_size_of : Bytes → ℕ → ℕ
block_size_of m image = u32 (1024 <<< (superblock_of m image).s_log_block_size)

abbrev pub table_size : Bytes → ℕ → ℕ
table_size m image = u32 (group_count (superblock_of m image) * group_desc_size)

abbrev pub table_address : Bytes → ℕ → ℕ
table_address m image =
    u32 (image + (if block_size_of m image == 1024 then 2048 else block_size_of m image))

pub gd_offset_lem :
    (block_size : ℕ)
    → block_size < 2 ^ 32
    → gd_offset block_size ≡ (if block_size == 1024 then 2048 else block_size)
gd_offset_lem block_size small = elim (Bool-cases (block_size == 1024)) [
  | inl one ↦ rw one (ground arith)
  | inr other ↦ rw other (omega arith)
]

-- as many groups as hold all blocks, the last one perhaps not full, with a descriptor of 32 bytes
-- for each and no sum that wraps
pub record HasGroups (sb : Superblock) (groups : ℕ) : Type 0 where
  pub enough : sb.s_blocks_count ≤ groups * sb.s_blocks_per_group
  pub fewest : groups * sb.s_blocks_per_group < sb.s_blocks_count + sb.s_blocks_per_group
  pub no_wrap : sb.s_blocks_count + sb.s_blocks_per_group ≤ 2 ^ 32
  pub small : 32 * groups + pmm_sector_size < 2 ^ 32

-- Either no room for the table of `size` bytes, and the allocator and the memory are as they were, or
-- a copy of the table in sectors that were free.
pub data Mounts (image size : ℕ) (p : Pmm) (m : Bytes) (r : Mounted) : Type 0 where
  no_room :
      (num : ℕ)
      → IsLeast 1 size num
      → ((i : ℕ) → i + num ≤ p.sectors → ¬ IsRun p.map i num)
      → r.ok ≡ false
      → r.pmm ≡ p
      → r.memory ≡ m
      → r.fs.bgdt ≡ 0
      → Mounts image size p m r
  mounted :
      (num i : ℕ)
      → IsLeast 1 size num
      → TakesRun p num i (r.fs.bgdt, r.pmm)
      → r.ok ≡ true
      → r.fs.sb ≡ superblock_of m image
      → r.fs.block_size ≡ block_size_of m image
      → r.fs.image ≡ image
      → ((a : ℕ)
          → r.memory a ≡ (
              if in_range r.fs.bgdt size a
              then m (table_address m image + (a - r.fs.bgdt))
              else m a))
      → Mounts image size p m r

-- The code rounds up: the quotient is the number of groups.
group_count-HasGroups :
    (sb : Superblock) (groups : ℕ)
    → 0 < sb.s_blocks_per_group
    → HasGroups sb groups
    → group_count sb ≡ groups
group_count-HasGroups sb groups some_blocks h =
    let per = sb.s_blocks_per_group in
    let total = sb.s_blocks_count + (per - 1) in
    let sum : u32 (sb.s_blocks_count + sub32 per 1) ≡ total = omega (arith, h.no_wrap) in
    let low : groups ≤ total / per = (le-div_iff_mul-le some_blocks).1 (omega (arith, h.fewest)) in
    let next : suc groups * per ≡ groups * per + per = omega arith in
    let high : total / per < suc groups =
      (div-lt_iff_lt-mul some_blocks).1 (omega (arith, h.enough, next)) in
    rw sum (omega arith)

table_size-HasGroups :
    (m : Bytes) (image groups : ℕ)
    → 0 < (superblock_of m image).s_blocks_per_group
    → HasGroups (superblock_of m image) groups
    → table_size m image ≡ 32 * groups
table_size-HasGroups m image groups some_blocks h =
    let count = group_count-HasGroups (superblock_of m image) groups some_blocks h in
    rw count (omega (arith, h.small))

-- the file system as it is when the table is loaded
abbrev pub sized : Fs → ℕ → Bytes → Fs
sized fs image m = record fs {
  image = image;
  sb = superblock_of m image;
  block_size = block_size_of m image;
}

load_groups-Mounts :
    (fs : Fs) (image num : ℕ) (p : Pmm) (m : Bytes) (r : ℕ × Pmm)
    → 0 < p.start
    → p.start + p.sectors * pmm_sector_size ≤ 2 ^ 32
    → Apart (table_address m image) (table_size m image) p.start (p.sectors * pmm_sector_size)
    → IsLeast 1 (table_size m image) num
    → RunAlloc p num 0 r
    → Mounts image
        (table_size m image)
        p
        m
        (load_groups (sized fs image m) (table_size m image) m r)
unfolding load_groups
load_groups-Mounts fs image num p m r some_start fits apart least (no_run e none_free) =
    subst
      (λ r.
        Mounts image (table_size m image) p m
          (load_groups (sized fs image m) (table_size m image) m r))
      (sym e) (no_room num least (λ i. none_free i (omega arith)) refl refl refl refl)
load_groups-Mounts fs image num p m (bgdt, p') some_start fits apart least (took i low t first) =
    let at : bgdt ≡ p.start + pmm_sector_size * i =
      t.address ∙ omega (arith, t.within, least.from) in
    let some_table : (bgdt == 0) ≡ false = ground arith in
    rw (some_table, gd_offset_lem (block_size_of m image) (omega arith))
      (mounted num i least t refl refl refl refl (λ a.
        kpmemcpy_lem bgdt (table_address m image) (table_size m image) m a (elim apart [
          | inl before ↦ inl (omega arith)
          | inr behind ↦ inr (omega (arith, t.within, least.enough))
        ])))

-- `ext2_mount` behind `kpmalloc`
granted :
    (fs : Fs) (image num : ℕ) (p : Pmm) (m : Bytes) (o : Option (ℕ × Pmm))
    → 0 < p.start
    → p.start + p.sectors * pmm_sector_size ≤ 2 ^ 32
    → Apart (table_address m image) (table_size m image) p.start (p.sectors * pmm_sector_size)
    → IsLeast 1 (table_size m image) num
    → Returns p num 0 o
    → (r : Mounted) × ((o >>= λ x. some (load_groups (sized fs image m) (table_size m image) m x))
        ≡ some r)
      × Mounts image (table_size m image) p m r
granted fs image num p m none some_start fits apart least h = absurd h
granted fs image num p m (some x) some_start fits apart least h = (
  load_groups (sized fs image m) (table_size m image) m x,
  refl,
  load_groups-Mounts fs image num p m x some_start fits apart least h,
)

-- With the right magic number, a shift below 32, some blocks for each group, as many groups as hold all
-- blocks, where nothing wraps and their descriptors of 32 bytes take less than 2 ^ 32 - 8192, and a
-- valid allocator within its map, not at address 0, whose memory does not wrap and has no part of
-- that table, `ext2_mount` ends. Where no run of free sectors holds the table it fails, with the
-- allocator and the memory as they were and no table; otherwise it succeeds, takes the fewest sectors
-- that do, copies the table of all the groups there, and changes no other byte of the memory.
pub ext2_mount-Mounts :
    (fs : Fs) (image groups : ℕ) (p : Pmm) (m : Bytes)
    → IsValid p
    → p.sectors ≤ pmm_sectors
    → 0 < p.start
    → p.start + p.sectors * pmm_sector_size ≤ 2 ^ 32
    → Apart (table_address m image) (32 * groups) p.start (p.sectors * pmm_sector_size)
    → (superblock_of m image).s_magic ≡ ext2_super_magic
    → (superblock_of m image).s_log_block_size < 32
    → 0 < (superblock_of m image).s_blocks_per_group
    → HasGroups (superblock_of m image) groups
    → (r : Mounted) × (ext2_mount fs image p m ≡ some r) × Mounts image (32 * groups) p m r
unfolding ext2_mount
ext2_mount-Mounts fs image groups p m v covered some_start fits apart magic shift some_blocks h =
    let sb = superblock_of m image in
    let size = table_size-HasGroups m image groups some_blocks h in
    let magical : (sb.s_magic == ext2_super_magic) ≡ true =
      (==_iff sb.s_magic ext2_super_magic).1 magic in
    let defined : (leb 32 sb.s_log_block_size || sb.s_blocks_per_group == 0) ≡ false =
      ground arith in
    let (num, least, asked, returns) =
      kpmalloc-Returns p (table_size m image) v covered (rw size h.small) in
    let apart' : Apart (table_address m image) (table_size m image) p.start
        (p.sectors * pmm_sector_size) =
      subst (λ n. Apart (table_address m image) n p.start (p.sectors * pmm_sector_size)) (sym size)
        apart in
    let g =
      granted fs image num p m (kpmalloc p (table_size m image)) some_start fits apart' least
        returns in
    (g.0, rw (magical, defined) g.1, subst (λ n. Mounts image n p m g.0) size g.2)
