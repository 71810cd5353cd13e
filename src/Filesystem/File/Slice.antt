-- ===== src/Filesystem/File/Slice.antt =====
-- What `ext2_read_file` reads: a slice of the file.
use drupe.Base.{
  ◌==◌, if◌then◌else◌, Bool-cases, get_or, u32, Bytes, ℕ, ◌+◌, ◌-◌, ◌*◌, ◌/◌, ◌%◌, ◌≤◌, ◌<◌, ◌≡◌,
  refl, sym, ap, ◌∙◌, ◌≢◌, inl, inr, true, false, arith,
}
use native.Mathlib.Nat.{mul-add-div_right, mul-add-mod_self_right, div-eq_of_lt, mod-eq_of_lt}
use drupe.Filesystem.{Inode, Fs}
use drupe.Filesystem.Copy.{kpmemset, kpmemcpy}
use drupe.Filesystem.Copy.Laws.{Apart, in_range, kpmemset_lem, kpmemcpy_lem}

-- byte `j` of the block that an entry of `i_block` stands for: 0 in a hole of the file
abbrev pub block_byte : Fs → Bytes → ℕ → ℕ → ℕ
block_byte fs m entry j =
    if entry == 0 then 0 else m (u32 (fs.image + u32 (entry * fs.block_size)) + j)

-- byte `i` of the file
unfoldable pub file_byte : Fs → Inode → Bytes → ℕ → ℕ
file_byte fs inode m i =
    block_byte fs m (get_or inode.i_block (i / fs.block_size) 0) (i % fs.block_size)

pub quotient : (b bs j x : ℕ) → b * bs + j ≡ x → j < bs → (x / bs ≡ b) × (x % bs ≡ j)
quotient b bs j x e h = rw (← e) (
  mul-add-div_right {m = bs} (omega arith) b j ∙ rw (div-eq_of_lt h) (omega arith),
  mul-add-mod_self_right b bs j ∙ mod-eq_of_lt h,
)

file_byte-block :
    (fs : Fs) (inode : Inode) (m : Bytes) (b j i : ℕ)
    → b * fs.block_size + j ≡ i
    → j < fs.block_size
    → file_byte fs inode m i ≡ block_byte fs m (get_or inode.i_block b 0) j
unfolding file_byte
file_byte-block fs inode m b j i e h =
    let q = quotient b fs.block_size j i e h in rw (q.0, q.1) refl

-- Where the bytes go, none of the first twelve blocks of the file stands.
abbrev pub IsApart : Fs → Inode → ℕ → ℕ → Type 0
IsApart fs inode output n =
    (b : ℕ)
    → b < 12
    → get_or inode.i_block b 0 ≢ 0
    → Apart (u32 (fs.image + u32 (get_or inode.i_block b 0 * fs.block_size))) fs.block_size output n

-- memory after the first `n` bytes of a slice have been read to `output`
abbrev pub sliced : Fs → Inode → Bytes → ℕ → ℕ → ℕ → ℕ → ℕ
sliced fs inode m output offset n a =
    if in_range output n a then file_byte fs inode m (offset + (a - output)) else m a

-- What a chunk of `n` bytes behind the first `r` adds.
chunk :
    (fs : Fs) (inode : Inode) (m : Bytes) (output offset r n a v old new : ℕ)
    → new ≡ (if in_range (output + r) n a then v else old)
    → (in_range (output + r) n a ≡ true → v ≡ file_byte fs inode m (offset + (a - output)))
    → old ≡ sliced fs inode m output offset r a
    → new ≡ sliced fs inode m output offset (r + n) a
chunk fs inode m output offset r n a v old new e same h =
    elim (Bool-cases (in_range (output + r) n a)) [
      | inl here ↦ ground (arith, same here)
      | inr other ↦ ground arith
    ]

module _ (fs : Fs) (inode : Inode) (m : Bytes) (output len offset : ℕ)
    (apart : IsApart fs inode output len) where
  -- `n` bytes of block `b` from index `j` on
  pub hole :
      (b j r n : ℕ) (mr : Bytes) (a : ℕ)
      → b * fs.block_size + j ≡ offset + r
      → j + n ≤ fs.block_size
      → get_or inode.i_block b 0 ≡ 0
      → mr a ≡ sliced fs inode m output offset r a
      → kpmemset (output + r) 0 n mr a ≡ sliced fs inode m output offset (r + n) a
  hole b j r n mr a e within nought h =
      chunk fs inode m output offset r n a 0 (mr a) _ (kpmemset_lem (output + r) 0 n mr a)
        (λ here.
          let k : ℕ = a - (output + r) in
          sym (
            file_byte-block fs inode m b (j + k) (offset + (a - output)) (ground arith)
              (ground arith)
            ∙ rw nought refl))
        h

  pub stored :
      (b j r n : ℕ) (mr : Bytes) (a : ℕ)
      → b * fs.block_size + j ≡ offset + r
      → j + n ≤ fs.block_size
      → r + n ≤ len
      → b < 12
      → get_or inode.i_block b 0 ≢ 0
      → ((a : ℕ) → mr a ≡ sliced fs inode m output offset r a)
      → kpmemcpy
          (output + r)
          (u32 (fs.image + u32 (get_or inode.i_block b 0 * fs.block_size)) + j)
          n
          mr
          a
        ≡ sliced fs inode m output offset (r + n) a
  stored b j r n mr a e within fits direct entry h =
      let source = u32 (fs.image + u32 (get_or inode.i_block b 0 * fs.block_size)) in
      let some_entry : (get_or inode.i_block b 0 == 0) ≡ false = ground arith in
      let k : ℕ = a - (output + r) in
      let free : Apart source fs.block_size output len = apart b direct entry in
      let copied =
        kpmemcpy_lem (output + r) (source + j) n mr a
          (elim free [ inl before ↦ inl (omega arith) | inr behind ↦ inr (omega arith) ]) in
      chunk fs inode m output offset r n a _ (mr a) _ copied
        (λ here.
          let read : mr (source + j + k) ≡ m (source + j + k) =
            h (source + j + k)
            ∙ elim free [ inl before ↦ ground arith | inr behind ↦ ground arith ] in
          let byte =
            file_byte-block fs inode m b (j + k) (offset + (a - output)) (ground arith)
              (ground arith) in
          read
          ∙ sym (
              byte
              ∙ rw some_entry (ap m {x = source + (j + k)} {y = source + j + k} (omega arith))))
        (h a)
