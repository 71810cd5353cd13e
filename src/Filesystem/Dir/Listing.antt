-- ===== src/Filesystem/Dir/Listing.antt =====
-- `ext2_read_dir` hands the entries of a directory to its callback, in order.
use drupe.Base.{
  ltb, ◌==◌, if◌then◌else◌, take, u32, Bytes, ◌>>=◌, ℕ, zero, suc, ◌+◌, ◌*◌, ◌/◌, ◌^◌, ◌≤◌, ◌<◌,
  ◌≡◌, refl, sym, ap, ◌∙◌, ◌≢◌, ◌⊎◌, inl, inr, Bool, true, false, Option, none, some, List, [], ◌∷◌,
  ◌++◌, arith,
}
use drupe.Filesystem.{Inode, Fs, entry_inode, entry_rec_len}
use drupe.Filesystem.Dir.{
  name_of, visit, read_entries, read_dir_blocks, ext2_read_dir, unless_ended,
}

-- an entry of a directory; the inode 0 stands for one that is not in use
pub record Entry : Type 0 where
  pub inode : ℕ
  pub name : List ℕ
  pub rec_len : ℕ

-- The entries fill the block from an offset on.
abbrev pub Listed : Bytes → ℕ → ℕ → ℕ → List Entry → Type 0
Listed m size block offset [] = offset ≡ size
Listed m size block offset (e ∷ es) =
    (entry_inode m (block + offset) ≡ e.inode)
    × (name_of m (block + offset) ≡ e.name)
    × (entry_rec_len m (block + offset) ≡ e.rec_len)
    × (0 < e.rec_len)
    × (offset + e.rec_len ≤ size)
    × Listed m size block (offset + e.rec_len) es

-- what each block of a list holds, nothing for the block 0
abbrev pub Holds : Fs → Bytes → List ℕ → List (List Entry) → Type 0
Holds fs m [] xss = xss ≡ []
Holds fs m (b ∷ bs) [] = ⊥
Holds fs m (b ∷ bs) (xs ∷ xss) =
    ((b ≡ 0) × (xs ≡ [])
      ⊎ (b ≢ 0) × Listed m fs.block_size (u32 (fs.image + u32 (b * fs.block_size))) 0 xs)
    × Holds fs m bs xss

abbrev pub concat : List (List Entry) → List Entry
concat [] = []
concat (xs ∷ xss) = xs ++ concat xss

module _ {ℓ} {S : Type ℓ} (cb : List ℕ → ℕ → S → Option (S × Bool)) where
  -- The callback on the entries in use, in order, up to the first for which it returns false.
  unfoldable pub walk : List Entry → S → Option (S × Bool)
  walk [] s = some (s, true)
  walk (e ∷ es) s =
      unless_ended (if e.inode == 0 then some (s, true) else cb e.name e.inode s) λ s'. walk es s'

unless_ended_assoc {ℓ} :
    {S : Type ℓ} (o : Option (S × Bool)) (f g : S → Option (S × Bool))
    → unless_ended o (λ s. unless_ended (f s) g) ≡ unless_ended (unless_ended o f) g
unless_ended_assoc none f g = refl
unless_ended_assoc (some (s, true)) f g = refl
unless_ended_assoc (some (s, false)) f g = refl

unless_ended_ext {ℓ} :
    {S : Type ℓ} (o : Option (S × Bool)) (f g : S → Option (S × Bool))
    → ((s : S) → f s ≡ g s)
    → unless_ended o f ≡ unless_ended o g
unless_ended_ext none f g h = refl
unless_ended_ext (some (s, true)) f g h = h s
unless_ended_ext (some (s, false)) f g h = refl

module _ {ℓ} {S : Type ℓ} (cb : List ℕ → ℕ → S → Option (S × Bool)) where
  walk-append :
      (xs ys : List Entry) (s : S) → walk cb (xs ++ ys) s ≡ unless_ended (walk cb xs s) (walk cb ys)
  unfolding walk
  walk-append [] ys s = refl
  walk-append (e ∷ xs) ys s =
      let o = if e.inode == 0 then some (s, true) else cb e.name e.inode s in
      unless_ended_ext o (walk cb (xs ++ ys)) (λ s'. unless_ended (walk cb xs s') (walk cb ys))
        (walk-append xs ys)
      ∙ unless_ended_assoc o (walk cb xs) (walk cb ys)

  -- one entry of the loop
  read_entries-step :
      (m : Bytes) (fuel size block offset next : ℕ) (s : S)
      → ltb offset size ≡ true
      → (entry_rec_len m (block + offset) == 0) ≡ false
      → u32 (offset + entry_rec_len m (block + offset)) ≡ next
      → read_entries cb m (suc fuel) size block offset s
        ≡ unless_ended (visit cb m (block + offset) s) (read_entries cb m fuel size block next)
  unfolding read_entries
  read_entries-step m fuel size block offset next s inside goes e =
      rw (inside, read_entries)
        (unless_ended_ext (visit cb m (block + offset) s) _ (read_entries cb m fuel size block next)
          (λ s'. rw (goes, e) refl))

  visit-entry :
      (m : Bytes) (de : ℕ) (e : Entry) (s : S)
      → entry_inode m de ≡ e.inode
      → name_of m de ≡ e.name
      → visit cb m de s ≡ (if e.inode == 0 then some (s, true) else cb e.name e.inode s)
  unfolding visit
  visit-entry m de e s i n = rw (i, n) refl

  read_entries-eq-walk :
      (es : List Entry) (fuel : ℕ) (m : Bytes) (size block offset : ℕ) (s : S)
      → size < offset + fuel
      → size < 2 ^ 32
      → Listed m size block offset es
      → read_entries cb m fuel size block offset s ≡ walk cb es s
  unfolding walk
  read_entries-eq-walk [] zero m size block offset s enough small h = absurd (omega arith)
  read_entries-eq-walk [] (suc fuel) m size block offset s enough small h =
      let over : ltb offset size ≡ false = ground arith in
      unfold read_entries in rw (over, read_entries) refl
  read_entries-eq-walk (e ∷ es) zero m size block offset s enough small h =
      absurd (omega (arith, h.3, h.4))
  read_entries-eq-walk (e ∷ es) (suc fuel) m size block offset s enough small h =
      let inside : ltb offset size ≡ true = ground (arith, h.3, h.4) in
      let goes : (e.rec_len == 0) ≡ false = ground (arith, h.3) in
      let no_wrap : u32 (offset + e.rec_len) ≡ offset + e.rec_len = omega (arith, h.4) in
      let next : (s : S) → read_entries cb m fuel size block (offset + e.rec_len) s ≡ walk cb es s =
        λ s.
          read_entries-eq-walk es fuel m size block (offset + e.rec_len) s (omega (arith, h.3))
            small h.5 in
      read_entries-step m fuel size block offset (offset + e.rec_len) s inside (rw h.2 goes)
        (rw h.2 no_wrap)
      ∙ unless_ended_ext (visit cb m (block + offset) s) _ (walk cb es) next
      ∙ ap (λ o. unless_ended o (walk cb es)) (visit-entry m (block + offset) e s h.0 h.1)

  read_dir_blocks-eq-walk :
      (bs : List ℕ) (xss : List (List Entry)) (fs : Fs) (m : Bytes) (s : S)
      → fs.block_size < 2 ^ 32
      → Holds fs m bs xss
      → read_dir_blocks cb m fs bs s ≡ walk cb (concat xss) s
  unfolding read_dir_blocks
  read_dir_blocks-eq-walk [] xss fs m s small h = rw h (unfold walk in refl)
  read_dir_blocks-eq-walk (b ∷ bs) [] fs m s small h = absurd h
  read_dir_blocks-eq-walk (b ∷ bs) (xs ∷ xss) fs m s small h =
      let rest : (s : S) → read_dir_blocks cb m fs bs s ≡ walk cb (concat xss) s =
        λ s. read_dir_blocks-eq-walk bs xss fs m s small h.1 in
      elim h.0 [
        | inl (hole, empty) ↦
            let none_here : (b == 0) ≡ true = ground arith in
            rw (none_here, empty, read_dir_blocks) (rest s)
        | inr (entry, listed) ↦
            let some_here : (b == 0) ≡ false = ground arith in
            rw (some_here, read_dir_blocks)
              (ap (λ o. unless_ended o (read_dir_blocks cb m fs bs))
                  (read_entries-eq-walk xs (fs.block_size + 1) m fs.block_size _ 0 s (omega arith)
                    small listed)
                ∙ unless_ended_ext (walk cb xs s) _ (walk cb (concat xss)) rest
                ∙ sym (walk-append xs (concat xss) s))
      ]

  -- Where the blocks of a directory, of 512 bytes at least and below 2 ^ 32, hold entries that fill them,
  -- `ext2_read_dir` does what a walk over the list of all these entries does: it calls the callback
  -- for each that is in use, in order, up to the first call that gives false.
  pub ext2_read_dir-eq-walk :
      (xss : List (List Entry)) (fs : Fs) (dir : Inode) (m : Bytes) (s : S)
      → 512 ≤ fs.block_size
      → fs.block_size < 2 ^ 32
      → Holds fs m (take (dir.i_blocks / (fs.block_size / 512)) dir.i_block) xss
      → ext2_read_dir cb m fs dir s ≡ (walk cb (concat xss) s >>= λ r. some r.0)
  unfolding ext2_read_dir
  ext2_read_dir-eq-walk xss fs dir m s large small h =
      let whole : (fs.block_size / 512 == 0) ≡ false = ground arith in
      rw whole (
        ap (λ o. o >>= λ r. some r.0)
          (read_dir_blocks-eq-walk (take (dir.i_blocks / (fs.block_size / 512)) dir.i_block) xss fs
            m s small h))
