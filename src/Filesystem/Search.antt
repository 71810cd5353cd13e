-- ===== src/Filesystem/Search.antt =====
-- source/kernel.c: the search for a file by its name, in the root directory.
pub mod Compare
pub mod Match
pub mod Unique
pub mod Ends
use drupe.Base.{
  leb, ◌==◌, if◌then◌else◌, chars, ℤ, ◌>>=◌, pos, negsuc, ℕ, ◌-◌, Bool, true, false, Option, none,
  some, List, [], ◌∷◌,
}
use drupe.Shell.{sh_puts}
use drupe.Shell.Print.{str, word}
use drupe.Interrupts.{Kernel, say}
use drupe.Filesystem.{Fs, Inode, ext2_root_ino}
use drupe.Filesystem.Mount.{ext2_read_inode}
use drupe.Filesystem.Dir.{ext2_read_dir}

-- a - b for two bytes, as an `int`
abbrev pub difference : ℕ → ℕ → ℤ
difference a b = if leb b a then pos (a - b) else negsuc (b - a - 1)

-- Strings are the bytes before the terminating zero.
unfoldable pub test_strcmp : List ℕ → List ℕ → ℤ
test_strcmp [] [] = difference 0 0
test_strcmp [] (d ∷ ds) = difference 0 d
test_strcmp (c ∷ cs) [] = difference c 0
test_strcmp (c ∷ cs) (d ∷ ds) =
    let rest = test_strcmp cs ds in if c == d then rest else difference c d

-- `find_file_ctx_t`
pub record FindContext : Type 0 where
  pub target_name : List ℕ
  pub found_inode : ℕ
  pub found : Bool

-- whether a result of `test_strcmp` is 0
abbrev pub is_zero : ℤ → Bool
is_zero (pos n) = n == 0
is_zero (negsuc n) = false

unfoldable pub find_file_callback : List ℕ → ℕ → FindContext → Option (FindContext × Bool)
find_file_callback name inode ffc =
    if is_zero (test_strcmp name ffc.target_name)
    then some (record ffc { found_inode = inode; found = true }, false)
    else some (ffc, true)

unfoldable pub print_dir_cb : List ℕ → ℕ → Kernel → Option (Kernel × Bool)
print_dir_cb name inode k =
    say k (chars " - %s\r\n") (str (some name) ∷ word inode ∷ []) >>= λ k'. some (k', true)

-- `sh_puts` to `g_kernel_shell`
abbrev pub put_line : Kernel → List ℕ → Kernel
put_line k text = record k { shell = sh_puts k.shell text }

-- the search in the root directory, once its inode has been read
unfoldable pub search_root : Fs → List ℕ → Inode → Kernel → Option (Kernel × ℕ)
search_root fs filename root k = do
  k1 ← ext2_read_dir print_dir_cb k.memory fs root (put_line k (chars "Disk Contents:\r\n"))
  ctx ←
      ext2_read_dir find_file_callback k1.memory fs root
        (record { target_name = filename; found_inode = 0; found = false })
  k2 ←
      (if ctx.found
        then some k1
        else say k1 (chars "DEBUG: '%s' not found in root (tried exact match)\r\n")
            (str (some filename) ∷ []))
  some (k2, ctx.found_inode)

-- The inode's number, 0 for none, and what has been printed.
unfoldable pub ext2_find_file_inode_by_name : Fs → List ℕ → Kernel → Option (Kernel × ℕ)
unfolding search_root
ext2_find_file_inode_by_name fs filename k = ext2_read_inode fs ext2_root_ino k.memory >>= λ o.
    elim o [
      | none ↦ some (put_line k (chars "EXT2: Can't read root inode\r\n"), 0)
      | some root ↦ search_root fs filename root k
    ]
