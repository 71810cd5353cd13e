-- ===== src/Filesystem/Dir.antt =====
-- source/system/filesystem/ext2/ext2.c: `ext2_read_dir`.
pub mod Listing
pub mod Ends
use drupe.Base.{
  ltb, ◌==◌, if◌then◌else◌, take, tabulate, u32, Bytes, ◌>>=◌, ℕ, zero, suc, ◌+◌, ◌*◌, ◌/◌, Bool,
  true, false, Option, none, some, List, [], ◌∷◌,
}
use drupe.Filesystem.{Inode, Fs, entry_inode, entry_rec_len, entry_name_len, entry_name}

-- the string at the start of a zeroed buffer that bytes are copied to
abbrev pub c_string : List ℕ → List ℕ
c_string [] = []
c_string (c ∷ cs) = if c == 0 then [] else c ∷ c_string cs

-- `name`, which the callback gets
unfoldable pub name_of : Bytes → ℕ → List ℕ
name_of m de = c_string (tabulate (entry_name_len m de) 0 (λ i. m (entry_name de + i)))

-- What the walk goes on with, unless the callback has ended it, which the Boolean false says.
abbrev pub unless_ended {ℓ} :
    {S : Type ℓ} → Option (S × Bool) → (S → Option (S × Bool)) → Option (S × Bool)
unless_ended none next = none
unless_ended (some (s, true)) next = next s
unless_ended (some (s, false)) next = some (s, false)

-- `cb name inode s` is what the callback makes of its context `s`, and whether it returns true;
-- `none` where it has no defined behaviour. The memory is not changed by it.
module _ {ℓ} {S : Type ℓ} (cb : List ℕ → ℕ → S → Option (S × Bool)) (m : Bytes) where
  -- the call for an entry, if it is in use
  unfoldable pub visit : ℕ → S → Option (S × Bool)
  visit de s =
      if entry_inode m de == 0 then some (s, true) else cb (name_of m de) (entry_inode m de) s

  -- The loop over the entries of a block, on fuel; false if the callback has ended the walk.
  unfoldable pub read_entries : ℕ → ℕ → ℕ → ℕ → S → Option (S × Bool)
  unfolding visit
  read_entries zero block_size block offset s = none
  read_entries (suc fuel) block_size block offset s =
      let de : ℕ = block + offset in
      elim (ltb offset block_size) [
        | false ↦ some (s, true)
        | true ↦ unless_ended (visit de s) λ s'. elim (entry_rec_len m de == 0) [
          | true ↦ some (s', true)
          | false ↦ read_entries fuel block_size block (u32 (offset + entry_rec_len m de)) s'
        ]
      ]

  -- The loop over the blocks of the directory. Each entry takes a byte at least, so one round more
  -- than a block has bytes is enough.
  unfoldable pub read_dir_blocks : Fs → List ℕ → S → Option (S × Bool)
  unfolding read_entries
  read_dir_blocks fs [] s = some (s, true)
  read_dir_blocks fs (b ∷ bs) s = elim (b == 0) [
    | true ↦ read_dir_blocks fs bs s
    | false ↦
        unless_ended
          (read_entries (fs.block_size + 1) fs.block_size (u32 (fs.image + u32 (b * fs.block_size)))
            0 s)
          λ s'. read_dir_blocks fs bs s'
  ]

  -- The context after the walk; `none` also for the division by a number of sectors of 0. The array
  -- has 12 entries.
  unfoldable pub ext2_read_dir : Fs → Inode → S → Option S
  unfolding read_dir_blocks
  ext2_read_dir fs dir s =
      if fs.block_size / 512 == 0
      then none
      else (read_dir_blocks fs (take (dir.i_blocks / (fs.block_size / 512)) dir.i_block) s >>= λ r.
          some r.0)
