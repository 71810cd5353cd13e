-- ===== src/Filesystem/Search/Ends.antt =====
-- The search for a file ends, whatever the root directory holds.
use drupe.Base.{
  ◌==◌, ==_iff, Bool-cases, chars, u32, Bytes, ℕ, ◌+◌, ◌-◌, ◌*◌, ◌/◌, ◌%◌, ◌^◌, ◌≤◌, ◌<◌, ◌≡◌, refl,
  sym, subst, ◌≢◌, inl, inr, true, false, ◌||◌, Option, none, some, List, [], ◌∷◌, ◌++◌, arith,
}
use drupe.Shell.Print.{str, word}
use drupe.Shell.Print.Format.{formatted, converted}
use drupe.Interrupts.{Kernel}
use drupe.Interrupts.Say.{Keeps, told-Keeps, Keeps-trans, told, say-formatted}
use drupe.Filesystem.Mount.{inode_offset}
use drupe.Filesystem.{
  inode_at, bg_inode_table, group_desc_size, Fs, Inode, ext2_root_ino, inode_size,
}
use drupe.Filesystem.Mount.{ext2_read_inode}
use drupe.Filesystem.Dir.Ends.{IsBytes, EndsIn, ext2_read_dir-ends}
use drupe.Filesystem.Search.{
  test_strcmp, is_zero, FindContext, find_file_callback, print_dir_cb, put_line, search_root,
  ext2_find_file_inode_by_name,
}

-- a file system whose arithmetic has no division by 0
pub record IsSound (fs : Fs) : Type 0 where
  pub large : 512 ≤ fs.block_size
  pub small : fs.block_size < 2 ^ 31
  pub inodes : 0 < fs.sb.s_inodes_per_group

pub print_dir_cb-Keeps :
    (k0 : Kernel) (name : List ℕ) (inode : ℕ) (k : Kernel)
    → Keeps k0 k
    → EndsIn (Keeps k0) (print_dir_cb name inode k)
unfolding print_dir_cb formatted converted
print_dir_cb-Keeps k0 name inode k h =
    let line = chars " - " ++ name ++ chars "\r\n" in
    let said = say-formatted k (chars " - %s\r\n") (str (some name) ∷ word inode ∷ []) line refl in
    (told k line, true, rw said refl, Keeps-trans h (told-Keeps k line))

find_file_callback-keeps :
    (name : List ℕ) (inode : ℕ) (ffc : FindContext)
    → Unit {0}
    → EndsIn (λ c. Unit {0}) (find_file_callback name inode ffc)
unfolding find_file_callback
find_file_callback-keeps name inode ffc h =
    elim (Bool-cases (is_zero (test_strcmp name ffc.target_name))) [
      | inl same ↦ rw same (record ffc { found_inode = inode; found = true }, false, refl, tt)
      | inr other ↦ rw other (ffc, true, refl, tt)
    ]

pub ext2_read_inode-ends :
    (fs : Fs) (inode_no : ℕ) (m : Bytes)
    → IsSound fs
    → (o : Option Inode) × (ext2_read_inode fs inode_no m ≡ some o)
      × (inode_no ≢ 0 → (i : Inode) × (o ≡ some i))
unfolding ext2_read_inode
ext2_read_inode-ends fs inode_no m v = elim (Bool-cases (inode_no == 0)) [
  | inl nought ↦ (none, rw nought refl, λ some_no. absurd (some_no ((==_iff inode_no 0).0 nought)))
  | inr some_no ↦
      let defined : (fs.sb.s_inodes_per_group == 0 || fs.block_size / inode_size == 0) ≡ false =
        ground (arith, v.large, v.inodes) in
      let table =
        bg_inode_table m
          (u32 (fs.bgdt + (inode_no - 1) / fs.sb.s_inodes_per_group * group_desc_size)) in
      let i =
        inode_at m
          (u32 (fs.image + inode_offset fs table ((inode_no - 1) % fs.sb.s_inodes_per_group))) in
      (some i, rw (some_no, defined) refl, λ h. (i, refl))
]

search_root-ends :
    (fs : Fs) (filename : List ℕ) (root : Inode) (k : Kernel)
    → IsSound fs
    → IsBytes k.memory
    → (k' : Kernel) × (inode : ℕ) × (search_root fs filename root k ≡ some (k', inode)) × Keeps k k'
unfolding search_root formatted converted
search_root-ends fs filename root k v bytes =
    let (k1, e1, same) =
      ext2_read_dir-ends print_dir_cb (Keeps k) (print_dir_cb-Keeps k) k.memory bytes fs root
        (put_line k (chars "Disk Contents:\r\n")) v.large v.small
        (told-Keeps k (chars "Disk Contents:\r\n")) in
    let bytes1 : IsBytes k1.memory = subst IsBytes (sym same.memory) bytes in
    let (ctx, e2, unit) =
      ext2_read_dir-ends find_file_callback (λ c. Unit {0}) find_file_callback-keeps k1.memory
        bytes1 fs root (record { target_name = filename; found_inode = 0; found = false }) v.large
        v.small tt in
    elim (Bool-cases ctx.found) [
      | inl hit ↦ (k1, ctx.found_inode, rw (e1, e2, hit) refl, same)
      | inr miss ↦
          let line =
            chars "DEBUG: '" ++ filename ++ chars "' not found in root (tried exact match)\r\n" in
          let said =
            say-formatted k1 (chars "DEBUG: '%s' not found in root (tried exact match)\r\n")
              (str (some filename) ∷ []) line refl in
          (
            told k1 line,
            ctx.found_inode,
            rw (e1, e2, miss, said) refl,
            Keeps-trans same (told-Keeps k1 line),
          )
    ]

-- Where no division is by 0, the search ends on every memory of bytes, and changes none of
-- them, nor stdin.
pub ext2_find_file_inode_by_name-ends :
    (fs : Fs) (filename : List ℕ) (k : Kernel)
    → IsSound fs
    → IsBytes k.memory
    → (k' : Kernel) × (inode : ℕ) × (ext2_find_file_inode_by_name fs filename k ≡ some (k', inode))
      × Keeps k k'
unfolding ext2_find_file_inode_by_name
ext2_find_file_inode_by_name-ends fs filename k v bytes =
    let (o, e, h) = ext2_read_inode-ends fs ext2_root_ino k.memory v in
    let (root, is_root) = h (λ z. omega arith) in
    let (k', inode, found, same) = search_root-ends fs filename root k v bytes in
    (k', inode, rw (e, is_root) found, same)
