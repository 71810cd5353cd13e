-- ===== src/Filesystem/Mount.antt =====
-- source/system/filesystem/ext2/ext2.c: `ext2_mount` and `ext2_read_inode`.
pub mod Inodes
pub mod Groups
use drupe.Base.{
  leb, ◌==◌, if◌then◌else◌, u32, sub32, ◌<<<◌, Bytes, ◌>>=◌, ℕ, ◌+◌, ◌-◌, ◌*◌, ◌/◌, ◌%◌, Bool, true,
  false, not, ◌||◌, Option, none, some,
}
use drupe.Memory.Physical.{Pmm}
use drupe.Filesystem.{
  Superblock, superblock_at, Inode, inode_at, inode_size, Fs, ext2_super_magic, ext2_super_offset,
  group_desc_size, bg_inode_table,
}
use drupe.Filesystem.Copy.{kpmalloc, kpmemcpy}

-- the result of `ext2_mount`, the file system, the allocator and the memory
pub record Mounted : Type 0 where
  pub ok : Bool
  pub fs : Fs
  pub pmm : Pmm
  pub memory : Bytes

-- `groups`
abbrev pub group_count : Superblock → ℕ
group_count sb = u32 (sb.s_blocks_count + sub32 sb.s_blocks_per_group 1) / sb.s_blocks_per_group

-- `gd_offset`
abbrev pub gd_offset : ℕ → ℕ
gd_offset block_size = u32 (block_size * (if block_size == 1024 then 2 else 1))

-- the end of `ext2_mount`, with what `kpmalloc` gives
unfoldable pub load_groups : Fs → ℕ → Bytes → ℕ × Pmm → Mounted
load_groups fs size m (bgdt, p) =
    let fs' = record fs { bgdt = bgdt } in
    if bgdt == 0 then record { ok = false; fs = fs'; pmm = p; memory = m } else record {
      ok = true;
      fs = fs';
      pmm = p;
      memory = kpmemcpy bgdt (u32 (fs.image + gd_offset fs.block_size)) size m;
    }

-- `none` for a shift by 32 or more, for the division by 0 groups, and where `kpmalloc` does not end or
-- reads beyond its map.
unfoldable pub ext2_mount : Fs → ℕ → Pmm → Bytes → Option Mounted
unfolding load_groups
ext2_mount fs image_data p m =
    let sb = superblock_at m (u32 (image_data + ext2_super_offset)) in
    let read = record fs { image = image_data; sb = sb } in
    let sized = record read { block_size = u32 (1024 <<< sb.s_log_block_size) } in
    let size = u32 (group_count sb * group_desc_size) in
    if not (sb.s_magic == ext2_super_magic)
    then some (record { ok = false; fs = read; pmm = p; memory = m })
    else (if leb 32 sb.s_log_block_size || sb.s_blocks_per_group == 0
        then none
        else (kpmalloc p size >>= λ r. some (load_groups sized size m r)))

-- `abs_offset`, for an index in the table of a group
unfoldable pub inode_offset : Fs → ℕ → ℕ → ℕ
inode_offset fs inode_table_block index =
    let inodes_per_block = fs.block_size / inode_size in
    u32 (
      u32 (inode_table_block + index / inodes_per_block) * fs.block_size
      + index % inodes_per_block * inode_size)

-- The inode, or `some none` for the result false; `none` for a division by 0.
unfoldable pub ext2_read_inode : Fs → ℕ → Bytes → Option (Option Inode)
unfolding inode_offset
ext2_read_inode fs inode_no m =
    let group = (inode_no - 1) / fs.sb.s_inodes_per_group in
    let index = (inode_no - 1) % fs.sb.s_inodes_per_group in
    let inode_table_block = bg_inode_table m (u32 (fs.bgdt + group * group_desc_size)) in
    if inode_no == 0
    then some none
    else (if fs.sb.s_inodes_per_group == 0 || fs.block_size / inode_size == 0
        then none
        else some (some (inode_at m (u32 (fs.image + inode_offset fs inode_table_block index)))))
