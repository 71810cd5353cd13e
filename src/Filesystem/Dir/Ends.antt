-- ===== src/Filesystem/Dir/Ends.antt =====
-- `ext2_read_dir` ends on every image, whatever the directory holds.
use drupe.Base.{
  ltb, ◌==◌, Bool-cases, take, u32, Bytes, get_u16, ◌>>=◌, ℕ, zero, suc, ◌+◌, ◌-◌, ◌*◌, ◌/◌, ◌^◌,
  ◌≤◌, ◌<◌, ◌≡◌, refl, sym, ap, subst, inl, inr, Bool, true, false, Option, some, List, [], ◌∷◌,
  arith,
}
use drupe.Filesystem.{Inode, Fs, entry_inode, entry_rec_len}
use drupe.Filesystem.Dir.{
  unless_ended, name_of, visit, read_entries, read_dir_blocks, ext2_read_dir,
}

-- every cell of the memory holds a byte
abbrev pub IsBytes : Bytes → Type 0
IsBytes m = (a : ℕ) → m a < 256

-- a result, with a property of the context
abbrev pub EndsIn {ℓ} : {S : Type ℓ} → (S → Type 0) → Option (S × Bool) → Type ℓ
EndsIn {S = S} P o = (s : S) × (more : Bool) × (o ≡ some (s, more)) × P s

unless_ended-EndsIn {ℓ} :
    {S : Type ℓ} (P : S → Type 0) (o : Option (S × Bool)) (f : S → Option (S × Bool))
    → EndsIn P o
    → ((s : S) → P s → EndsIn P (f s))
    → EndsIn P (unless_ended o f)
unless_ended-EndsIn P o f (s, true, e, h) next =
    subst (λ o. EndsIn P (unless_ended o f)) (sym e) (next s h)
unless_ended-EndsIn P o f (s, false, e, h) next =
    subst (λ o. EndsIn P (unless_ended o f)) (sym e) (s, false, refl, h)

further :
    (size offset fuel rec_len : ℕ)
    → size - offset < suc fuel
    → offset < size
    → size < 2 ^ 31
    → rec_len < 2 ^ 16
    → 0 < rec_len
    → size - u32 (offset + rec_len) < fuel
further size offset fuel rec_len enough inside small short some_len = omega arith

module _ {ℓ} {S : Type ℓ} (cb : List ℕ → ℕ → S → Option (S × Bool)) (P : S → Type 0)
    (keep : (name : List ℕ) (inode : ℕ) (s : S) → P s → EndsIn P (cb name inode s)) (m : Bytes)
    (bytes : IsBytes m) where
  visit-EndsIn : (de : ℕ) (s : S) → P s → EndsIn P (visit cb m de s)
  unfolding visit
  visit-EndsIn de s h = elim (Bool-cases (entry_inode m de == 0)) [
    | inl unused ↦ rw unused (s, true, refl, h)
    | inr used ↦ rw used (keep (name_of m de) (entry_inode m de) s h)
  ]

  short : (de : ℕ) → entry_rec_len m de < 2 ^ 16
  unfolding get_u16
  short de = omega (arith, bytes (de + 4), bytes (de + 4 + 1))

  read_entries-EndsIn :
      (fuel size block offset : ℕ) (s : S)
      → size - offset < fuel
      → size < 2 ^ 31
      → P s
      → EndsIn P (read_entries cb m fuel size block offset s)
  unfolding read_entries
  read_entries-EndsIn zero size block offset s enough small h = absurd (omega arith)
  read_entries-EndsIn (suc fuel) size block offset s enough small h =
      let de : ℕ = block + offset in
      elim (Bool-cases (ltb offset size)) [
        | inl inside ↦
            rw (inside, read_entries)
              (unless_ended-EndsIn P (visit cb m de s) _ (visit-EndsIn de s h) λ s' h'.
                elim (Bool-cases (entry_rec_len m de == 0)) [
                  | inl last ↦ rw (last, read_entries) (s', true, refl, h')
                  | inr on ↦
                      rw (on, read_entries)
                        (read_entries-EndsIn fuel size block (u32 (offset + entry_rec_len m de)) s'
                          (further size offset fuel (entry_rec_len m de) enough (ground arith) small
                            (short de) (ground arith))
                          small h')
                ])
        | inr over ↦ rw (over, read_entries) (s, true, refl, h)
      ]

  read_dir_blocks-EndsIn :
      (fs : Fs) (bs : List ℕ) (s : S)
      → fs.block_size < 2 ^ 31
      → P s
      → EndsIn P (read_dir_blocks cb m fs bs s)
  unfolding read_dir_blocks
  read_dir_blocks-EndsIn fs [] s small h = (s, true, refl, h)
  read_dir_blocks-EndsIn fs (b ∷ bs) s small h = elim (Bool-cases (b == 0)) [
    | inl hole ↦ rw (hole, read_dir_blocks) (read_dir_blocks-EndsIn fs bs s small h)
    | inr entry ↦
        rw (entry, read_dir_blocks)
          (unless_ended-EndsIn P _ _
            (read_entries-EndsIn (fs.block_size + 1) fs.block_size
              (u32 (fs.image + u32 (b * fs.block_size))) 0 s (omega arith) small h)
            (λ s' h'. read_dir_blocks-EndsIn fs bs s' small h'))
  ]

  -- On a memory of bytes, with blocks of 512 bytes at least and below 2 ^ 31, `ext2_read_dir` ends on
  -- every directory, if its callback ends and keeps a property of the context that holds at the start;
  -- the property holds of the context at the end.
  pub ext2_read_dir-ends :
      (fs : Fs) (dir : Inode) (s : S)
      → 512 ≤ fs.block_size
      → fs.block_size < 2 ^ 31
      → P s
      → (s' : S) × (ext2_read_dir cb m fs dir s ≡ some s') × P s'
  unfolding ext2_read_dir
  ext2_read_dir-ends fs dir s large small h =
      let whole : (fs.block_size / 512 == 0) ≡ false = ground arith in
      let (s', more, e, h') =
        read_dir_blocks-EndsIn fs (take (dir.i_blocks / (fs.block_size / 512)) dir.i_block) s small
          h in
      (s', rw whole (ap (λ o. o >>= λ r. some r.0) e), h')
