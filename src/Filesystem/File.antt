-- ===== src/Filesystem/File.antt =====
-- source/system/filesystem/ext2/ext2.c: `ext2_read_file`.
pub mod Slice
pub mod Read
use drupe.Base.{
  ltb, leb, ◌==◌, if◌then◌else◌, get_or, u32, Bytes, ℕ, zero, suc, ◌+◌, ◌-◌, ◌*◌, ◌/◌, ◌%◌, ◌&&◌,
  ◌||◌, Option, none, some,
}
use drupe.Filesystem.{Inode, Fs}
use drupe.Filesystem.Copy.{kpmemset, kpmemcpy}

module _ (fs : Fs) (inode : Inode) (output buf_len start_block start_offset : ℕ) where
  -- `copy_offset`; a sparse block has it taken off by a test of its own
  abbrev pub copy_offset : ℕ → ℕ
  copy_offset b = if b == start_block then start_offset else 0

  -- `bytes_in_block`, which both kinds of block compute alike
  abbrev pub bytes_in_block : ℕ → ℕ → ℕ
  bytes_in_block b bytes_read =
      if ltb buf_len (u32 (bytes_read + (fs.block_size - copy_offset b)))
      then buf_len - bytes_read
      else fs.block_size - copy_offset b

  -- the address of a block of the image
  abbrev pub block_address : ℕ → ℕ
  block_address entry = u32 (fs.image + u32 (entry * fs.block_size))

  -- the body of the loop on the memory
  unfoldable pub read_block : ℕ → ℕ → Bytes → Bytes
  read_block b bytes_read m =
      let entry = get_or inode.i_block b 0 in
      if entry == 0
      then kpmemset (output + bytes_read) 0 (bytes_in_block b bytes_read) m
      else kpmemcpy (output + bytes_read) (block_address entry + copy_offset b)
          (bytes_in_block b bytes_read) m

  -- The loop from block `b` on, with `left` blocks before the twelfth: the memory, and `bytes_read`.
  unfoldable pub read_blocks : ℕ → ℕ → ℕ → ℕ → Bytes → Bytes × ℕ
  unfolding read_block
  read_blocks zero blocks_to_read b bytes_read m = (m, bytes_read)
  read_blocks (suc left) blocks_to_read b bytes_read m =
      let rest =
        read_blocks left blocks_to_read (b + 1) (u32 (bytes_read + bytes_in_block b bytes_read))
          (read_block b bytes_read m) in
      if ltb b blocks_to_read && ltb bytes_read buf_len then rest else (m, bytes_read)

-- `buf_len` after the limit to the file's size
abbrev pub limited : Inode → ℕ → ℕ → ℕ
limited inode buf_len offset =
    if ltb inode.i_size_lo (u32 (offset + buf_len)) then inode.i_size_lo - offset else buf_len

-- The memory and the number of bytes read; `none` for the division by a block size of 0. The inode is
-- not the null pointer.
unfoldable pub ext2_read_file : Fs → Inode → ℕ → ℕ → ℕ → Bytes → Option (Bytes × ℕ)
unfolding read_blocks
ext2_read_file fs inode out_buf buf_len offset m =
    let len = limited inode buf_len offset in
    let start_block = offset / fs.block_size in
    let blocks_to_read = u32 (offset + len + fs.block_size - 1) / fs.block_size in
    if out_buf == 0 || leb inode.i_size_lo offset
    then some (m, 0)
    else (if fs.block_size == 0
        then none
        else some (
            read_blocks fs inode out_buf len start_block (offset % fs.block_size) (12 - start_block)
              blocks_to_read start_block 0 m))
