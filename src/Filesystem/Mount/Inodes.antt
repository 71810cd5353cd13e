-- ===== src/Filesystem/Mount/Inodes.antt =====
-- Where `ext2_read_inode` finds an inode.
use drupe.Base.{
  ◌==◌, u32, Bytes, ℕ, ◌+◌, ◌-◌, ◌*◌, ◌/◌, ◌%◌, ◌^◌, ◌<◌, ◌≡◌, refl, ap, ◌∙◌, false, some, arith,
}
use native.Mathlib.Nat.{div-add-mod, mul-div_cancel}
use drupe.Filesystem.{inode_at, inode_size, Fs, group_desc_size, bg_inode_table}
use drupe.Filesystem.File.Slice.{quotient}
use drupe.Filesystem.Mount.{inode_offset, ext2_read_inode}

-- The arithmetic by blocks comes to the same as a table without gaps, where an inode does not cross
-- the end of a block and nothing wraps.
inode_offset_lem :
    (fs : Fs) (table index per_block : ℕ)
    → fs.block_size ≡ per_block * inode_size
    → 0 < per_block
    → table * fs.block_size + index * inode_size < 2 ^ 32
    → inode_offset fs table index ≡ table * fs.block_size + index * inode_size
unfolding inode_offset
inode_offset_lem fs table index per_block sized some_inodes small =
    let q : ℕ = index / per_block in
    let r : ℕ = index % per_block in
    let per : fs.block_size / inode_size ≡ per_block =
      ap (λ (t : ℕ). t / inode_size) sized ∙ mul-div_cancel per_block (omega arith) in
    let whole : per_block * q + r ≡ index = div-add-mod index per_block in
    let rows : q * fs.block_size ≡ q * (per_block * inode_size) = ap (λ (t : ℕ). q * t) sized in
    let grown : (table + q) * fs.block_size ≡ (table + q) * (1 + (fs.block_size - 1)) =
      ap (λ (t : ℕ). (table + q) * t) (omega arith) in
    let linear : (table + q) * fs.block_size + r * inode_size
        ≡ table * fs.block_size + index * inode_size =
      omega (arith, rows, whole) in
    let near : u32 (table + q) ≡ table + q = omega (arith, grown, linear) in
    rw (per, near, linear) (omega arith)

-- Where the descriptor of a group names the block `table`, inode
-- `group * s_inodes_per_group + index + 1` stands `index` inodes behind the start of the inode
-- table of its group, where a block holds a whole number of inodes and nothing wraps.
pub ext2_read_inode-at :
    (fs : Fs) (m : Bytes) (group index per_block table : ℕ)
    → bg_inode_table m (u32 (fs.bgdt + group * group_desc_size)) ≡ table
    → index < fs.sb.s_inodes_per_group
    → fs.block_size ≡ per_block * inode_size
    → 0 < per_block
    → table * fs.block_size + index * inode_size < 2 ^ 32
    → ext2_read_inode fs (group * fs.sb.s_inodes_per_group + index + 1) m
      ≡ some (some (inode_at m (u32 (fs.image + (table * fs.block_size + index * inode_size)))))
unfolding ext2_read_inode
ext2_read_inode-at fs m group index per_block table at inside sized some_inodes small =
    let q = quotient group fs.sb.s_inodes_per_group index _ refl inside in
    let back : group * fs.sb.s_inodes_per_group + index + 1 - 1
        ≡ group * fs.sb.s_inodes_per_group + index =
      omega arith in
    let some_no : (group * fs.sb.s_inodes_per_group + index + 1 == 0) ≡ false = ground arith in
    let some_group : (fs.sb.s_inodes_per_group == 0) ≡ false = ground arith in
    let per : fs.block_size / inode_size ≡ per_block =
      ap (λ (t : ℕ). t / inode_size) sized ∙ mul-div_cancel per_block (omega arith) in
    let some_per : (fs.block_size / inode_size == 0) ≡ false = ground arith in
    rw
      (
        some_no,
        some_group,
        some_per,
        back,
        q.0,
        q.1,
        at,
        inode_offset_lem fs table index per_block sized some_inodes small,
      )
      refl
