-- ===== src/Filesystem/Search/Match.antt =====
-- `ext2_find_file_inode_by_name` finds the first entry with the name.
use drupe.Base.{
  ◌==◌, ==_iff, Bool-cases, chars, take, tabulate, Bytes, ◌>>=◌, ℕ, ◌+◌, ◌/◌, ◌^◌, ◌≤◌, ◌<◌, ◌≡◌,
  refl, ap, subst, ◌∙◌, ◌≢◌, ◌⊎◌, inl, inr, Bool, true, false, Option, some, List, [], ◌∷◌, ◌++◌,
  arith,
}
use drupe.Shell.Print.{str, word}
use drupe.Shell.Print.Format.{formatted, converted, after}
use drupe.Interrupts.{Kernel}
use drupe.Interrupts.Say.{told, say-formatted}
use drupe.Filesystem.{entry_name_len, entry_name, Fs, Inode, ext2_root_ino}
use drupe.Filesystem.Mount.{ext2_read_inode}
use drupe.Filesystem.Dir.{name_of, ext2_read_dir}
use drupe.Filesystem.Dir.Listing.{Entry, Listed, Holds, concat, walk, ext2_read_dir-eq-walk}
use drupe.Filesystem.Search.{
  test_strcmp, is_zero, FindContext, find_file_callback, print_dir_cb, put_line, search_root,
  ext2_find_file_inode_by_name,
}
use drupe.Filesystem.Search.Compare.{IsText, c_string-IsText, test_strcmp-eq}

-- all names are strings
abbrev AllText : List Entry → Type 0
AllText [] = Unit {0}
AllText (e ∷ es) = IsText e.name × AllText es

AllText-append : (xs ys : List Entry) → AllText xs → AllText ys → AllText (xs ++ ys)
AllText-append [] ys hx hy = hy
AllText-append (e ∷ xs) ys hx hy = (hx.0, AllText-append xs ys hx.1 hy)

name_of-IsText : (m : Bytes) (de : ℕ) → IsText (name_of m de)
unfolding name_of
name_of-IsText m de =
    c_string-IsText (tabulate (entry_name_len m de) 0 (λ i. m (entry_name de + i)))

Listed-AllText :
    (es : List Entry) (m : Bytes) (size block offset : ℕ)
    → Listed m size block offset es
    → AllText es
Listed-AllText [] m size block offset h = tt
Listed-AllText (e ∷ es) m size block offset h = (
  subst IsText h.1 (name_of-IsText m (block + offset)),
  Listed-AllText es m size block (offset + e.rec_len) h.5,
)

Holds-AllText :
    (fs : Fs) (m : Bytes) (bs : List ℕ) (xss : List (List Entry))
    → Holds fs m bs xss
    → AllText (concat xss)
Holds-AllText fs m [] xss h = rw h tt
Holds-AllText fs m (b ∷ bs) [] h = absurd h
Holds-AllText fs m (b ∷ bs) (xs ∷ xss) h =
    AllText-append xs (concat xss)
      (elim h.0 [
        | inl (hole, empty) ↦ rw empty tt
        | inr (entry, listed) ↦ Listed-AllText xs m fs.block_size _ 0 listed
      ])
      (Holds-AllText fs m bs xss h.1)

-- No entry in use has the name.
abbrev pub NoMatch : List ℕ → List Entry → Type 0
NoMatch target [] = Unit {0}
NoMatch target (e ∷ es) = ((e.inode ≡ 0) ⊎ (e.name ≢ target)) × NoMatch target es

-- The number of the first entry in use with the name, 0 if there is none.
pub data FirstMatch (target : List ℕ) (es : List Entry) (inode : ℕ) : Type 0 where
  matched :
      (before after : List Entry) (e : Entry)
      → es ≡ before ++ e ∷ after
      → NoMatch target before
      → e.inode ≢ 0
      → e.name ≡ target
      → inode ≡ e.inode
      → FirstMatch target es inode
  missing : NoMatch target es → inode ≡ 0 → FirstMatch target es inode

FirstMatch-skip :
    (target : List ℕ) (e : Entry) (es : List Entry) (inode : ℕ)
    → (e.inode ≡ 0) ⊎ (e.name ≢ target)
    → FirstMatch target es inode
    → FirstMatch target (e ∷ es) inode
FirstMatch-skip target e es inode other (matched before after f split none_before used named i) =
    matched (e ∷ before) after f (ap (λ xs. e ∷ xs) split) (other, none_before) used named i
FirstMatch-skip target e es inode other (missing none_there i) = missing (other, none_there) i

abbrev searching : List ℕ → FindContext
searching target = record { target_name = target; found_inode = 0; found = false }

-- what a walk with `find_file_callback` gives
record Searched (target : List ℕ) (es : List Entry) (r : Option (FindContext × Bool)) : Type 0 where
  ctx : FindContext
  more : Bool
  result : r ≡ some (ctx, more)
  first : FirstMatch target es ctx.found_inode

walk-Searched :
    (es : List Entry) (target : List ℕ)
    → AllText es
    → IsText target
    → Searched target es (walk find_file_callback es (searching target))
unfolding walk find_file_callback
walk-Searched [] target texts t = record {
  ctx = searching target;
  more = true;
  result = refl;
  first = missing tt refl;
}
walk-Searched (e ∷ es) target texts t =
    let rest = walk-Searched es target texts.1 t in
    let skip : (e.inode ≡ 0) ⊎ (e.name ≢ target) → FirstMatch target (e ∷ es) rest.ctx.found_inode =
      λ other. FirstMatch-skip target e es rest.ctx.found_inode other rest.first in
    elim (Bool-cases (e.inode == 0)) [
      | inl unused ↦ rw unused (record {
        ctx = rest.ctx;
        more = rest.more;
        result = rest.result;
        first = skip (inl ((==_iff e.inode 0).0 unused));
      })
      | inr used ↦ elim (Bool-cases (is_zero (test_strcmp e.name target))) [
        | inl same ↦
            rw (used, same)
              (record {
                ctx = record { target_name = target; found_inode = e.inode; found = true };
                more = false;
                result = refl;
                first =
                    matched [] es e refl tt (ground arith)
                      ((test_strcmp-eq e.name target texts.0 t).0 same) refl;
              })
        | inr other ↦
            rw (used, other)
              (record {
                ctx = rest.ctx;
                more = rest.more;
                result = rest.result;
                first =
                    skip (inr (λ e'. cc (other, (test_strcmp-eq e.name target texts.0 t).1 e')));
              })
      ]
    ]

walk-print :
    (es : List Entry) (k : Kernel)
    → (k' : Kernel) × (walk print_dir_cb es k ≡ some (k', true)) × (k'.memory ≡ k.memory)
unfolding walk print_dir_cb formatted converted
walk-print [] k = (k, refl, refl)
walk-print (e ∷ es) k = elim (Bool-cases (e.inode == 0)) [
  | inl unused ↦ let rest = walk-print es k in (rest.0, rw unused rest.1, rest.2)
  | inr used ↦
      let line = chars " - " ++ e.name ++ chars "\r\n" in
      let rest = walk-print es (told k line) in
      let said =
        say-formatted k (chars " - %s\r\n") (str (some e.name) ∷ word e.inode ∷ []) line refl in
      (rest.0, rw (used, said) rest.1, rest.2)
]

-- what the search makes of the kernel and gives
pub record Finds (k : Kernel) (filename : List ℕ) (es : List Entry) (r : Option (Kernel × ℕ))
    : Type 0 where
  pub k' : Kernel
  pub inode : ℕ
  pub result : r ≡ some (k', inode)
  pub first : FirstMatch filename es inode
  pub memory : k'.memory ≡ k.memory

search_root-Finds :
    (fs : Fs) (filename : List ℕ) (root : Inode) (k : Kernel) (xss : List (List Entry))
    → 512 ≤ fs.block_size
    → fs.block_size < 2 ^ 32
    → Holds fs k.memory (take (root.i_blocks / (fs.block_size / 512)) root.i_block) xss
    → IsText filename
    → Finds k filename (concat xss) (search_root fs filename root k)
unfolding search_root formatted converted
search_root-Finds fs filename root k xss large small h t =
    let es = concat xss in
    let k0 = put_line k (chars "Disk Contents:\r\n") in
    let shown = walk-print es k0 in
    let first : ext2_read_dir print_dir_cb k.memory fs root k0 ≡ some shown.0 =
      ext2_read_dir-eq-walk print_dir_cb xss fs root k.memory k0 large small h
      ∙ ap (λ o. o >>= λ r. some r.0) shown.1 in
    let found = walk-Searched es filename (Holds-AllText fs k.memory _ xss h) t in
    let second : ext2_read_dir find_file_callback shown.0.memory fs root (searching filename)
        ≡ some found.ctx =
      ap (λ m. ext2_read_dir find_file_callback m fs root (searching filename)) shown.2
      ∙ ext2_read_dir-eq-walk find_file_callback xss fs root k.memory (searching filename) large
          small h
      ∙ ap (λ o. o >>= λ r. some r.0) found.result in
    elim (Bool-cases found.ctx.found) [
      | inl hit ↦ record {
        k' = shown.0;
        inode = found.ctx.found_inode;
        result = rw (first, second, hit) refl;
        first = found.first;
        memory = shown.2;
      }
      | inr miss ↦
          let line =
            chars "DEBUG: '" ++ filename ++ chars "' not found in root (tried exact match)\r\n" in
          let said =
            say-formatted shown.0 (chars "DEBUG: '%s' not found in root (tried exact match)\r\n")
              (str (some filename) ∷ []) line refl in
          record {
            k' = told shown.0 line;
            inode = found.ctx.found_inode;
            result = rw (first, second, miss, said) refl;
            first = found.first;
            memory = shown.2;
          }
    ]

-- Where the root's inode can be read and its blocks, of 512 bytes at least and below 2 ^ 32, hold
-- entries that fill them, the search for a name without a zero ends. It gives the number of the
-- first entry in use with the name, 0 if there is none, and changes no byte of the memory.
pub ext2_find_file_inode_by_name-Finds :
    (fs : Fs) (filename : List ℕ) (root : Inode) (k : Kernel) (xss : List (List Entry))
    → ext2_read_inode fs ext2_root_ino k.memory ≡ some (some root)
    → 512 ≤ fs.block_size
    → fs.block_size < 2 ^ 32
    → Holds fs k.memory (take (root.i_blocks / (fs.block_size / 512)) root.i_block) xss
    → IsText filename
    → Finds k filename (concat xss) (ext2_find_file_inode_by_name fs filename k)
unfolding ext2_find_file_inode_by_name
ext2_find_file_inode_by_name-Finds fs filename root k xss read large small h t =
    rw read (search_root-Finds fs filename root k xss large small h t)
