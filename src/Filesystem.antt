-- ===== src/Filesystem.antt =====
-- source/system/filesystem/ext2/ext2.h: the structures of the file system, as they stand in memory.
pub mod Copy
pub mod File
pub mod Dir
pub mod Mount
pub mod Search
pub mod Tests
use drupe.Base.{tabulate, Bytes, get_u16, get_u32, ℕ, ◌+◌, ◌*◌, List}

abbrev pub ext2_super_magic : ℕ
ext2_super_magic = 0xEF53

abbrev pub ext2_super_offset : ℕ
ext2_super_offset = 1024

abbrev pub ext2_root_ino : ℕ
ext2_root_ino = 2

-- `ext2_superblock_t`
pub record Superblock : Type 0 where
  pub s_inodes_count : ℕ
  pub s_blocks_count : ℕ
  pub s_r_blocks_count : ℕ
  pub s_free_blocks_count : ℕ
  pub s_free_inodes_count : ℕ
  pub s_first_data_block : ℕ
  pub s_log_block_size : ℕ
  pub s_log_frag_size : ℕ
  pub s_blocks_per_group : ℕ
  pub s_frags_per_group : ℕ
  pub s_inodes_per_group : ℕ
  pub s_mtime : ℕ
  pub s_wtime : ℕ
  pub s_mnt_count : ℕ
  pub s_max_mnt_count : ℕ
  pub s_magic : ℕ
  pub s_state : ℕ
  pub s_errors : ℕ
  pub s_minor_rev_level : ℕ
  pub s_lastcheck : ℕ
  pub s_checkinterval : ℕ
  pub s_creator_os : ℕ
  pub s_rev_level : ℕ
  pub s_def_resuid : ℕ
  pub s_def_resgid : ℕ

-- the packed structure at an address
unfoldable pub superblock_at : Bytes → ℕ → Superblock
superblock_at m a = record {
  s_inodes_count = get_u32 m a;
  s_blocks_count = get_u32 m (a + 4);
  s_r_blocks_count = get_u32 m (a + 8);
  s_free_blocks_count = get_u32 m (a + 12);
  s_free_inodes_count = get_u32 m (a + 16);
  s_first_data_block = get_u32 m (a + 20);
  s_log_block_size = get_u32 m (a + 24);
  s_log_frag_size = get_u32 m (a + 28);
  s_blocks_per_group = get_u32 m (a + 32);
  s_frags_per_group = get_u32 m (a + 36);
  s_inodes_per_group = get_u32 m (a + 40);
  s_mtime = get_u32 m (a + 44);
  s_wtime = get_u32 m (a + 48);
  s_mnt_count = get_u16 m (a + 52);
  s_max_mnt_count = get_u16 m (a + 54);
  s_magic = get_u16 m (a + 56);
  s_state = get_u16 m (a + 58);
  s_errors = get_u16 m (a + 60);
  s_minor_rev_level = get_u16 m (a + 62);
  s_lastcheck = get_u32 m (a + 64);
  s_checkinterval = get_u32 m (a + 68);
  s_creator_os = get_u32 m (a + 72);
  s_rev_level = get_u32 m (a + 76);
  s_def_resuid = get_u16 m (a + 80);
  s_def_resgid = get_u16 m (a + 82);
}

-- `ext2_inode_t` without `i_osd2`, which nothing reads
pub record Inode : Type 0 where
  pub i_mode : ℕ
  pub i_uid : ℕ
  pub i_size_lo : ℕ
  pub i_atime : ℕ
  pub i_ctime : ℕ
  pub i_mtime : ℕ
  pub i_dtime : ℕ
  pub i_gid : ℕ
  pub i_links_count : ℕ
  pub i_blocks : ℕ
  pub i_flags : ℕ
  pub i_osd1 : ℕ
  pub i_block : List ℕ
  pub i_single : ℕ
  pub i_double : ℕ
  pub i_triple : ℕ
  pub i_generation : ℕ
  pub i_file_acl : ℕ
  pub i_dir_acl : ℕ
  pub i_faddr : ℕ

-- `sizeof(ext2_inode_t)`
abbrev pub inode_size : ℕ
inode_size = 128

unfoldable pub inode_at : Bytes → ℕ → Inode
inode_at m a = record {
  i_mode = get_u16 m a;
  i_uid = get_u16 m (a + 2);
  i_size_lo = get_u32 m (a + 4);
  i_atime = get_u32 m (a + 8);
  i_ctime = get_u32 m (a + 12);
  i_mtime = get_u32 m (a + 16);
  i_dtime = get_u32 m (a + 20);
  i_gid = get_u16 m (a + 24);
  i_links_count = get_u16 m (a + 26);
  i_blocks = get_u32 m (a + 28);
  i_flags = get_u32 m (a + 32);
  i_osd1 = get_u32 m (a + 36);
  i_block = tabulate 12 0 (λ i. get_u32 m (a + 40 + 4 * i));
  i_single = get_u32 m (a + 88);
  i_double = get_u32 m (a + 92);
  i_triple = get_u32 m (a + 96);
  i_generation = get_u32 m (a + 100);
  i_file_acl = get_u32 m (a + 104);
  i_dir_acl = get_u32 m (a + 108);
  i_faddr = get_u32 m (a + 112);
}

-- `sizeof(ext2_group_desc_t)`
abbrev pub group_desc_size : ℕ
group_desc_size = 32

-- `bg_inode_table` of the descriptor at an address
abbrev pub bg_inode_table : Bytes → ℕ → ℕ
bg_inode_table m a = get_u32 m (a + 8)

-- `ext2_fs_t`; `bgdt` and `image` are addresses.
pub record Fs : Type 0 where
  pub sb : Superblock
  pub block_size : ℕ
  pub bgdt : ℕ
  pub image : ℕ

-- fields of the `ext2_dir_entry_t` at an address
abbrev pub entry_inode : Bytes → ℕ → ℕ
entry_inode m de = get_u32 m de

abbrev pub entry_rec_len : Bytes → ℕ → ℕ
entry_rec_len m de = get_u16 m (de + 4)

abbrev pub entry_name_len : Bytes → ℕ → ℕ
entry_name_len m de = m (de + 6)

-- the address of its name
abbrev pub entry_name : ℕ → ℕ
entry_name de = de + 8
