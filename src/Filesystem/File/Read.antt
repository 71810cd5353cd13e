-- ===== src/Filesystem/File/Read.antt =====
-- `ext2_read_file` reads the slice of the file that its arguments name.
use drupe.Base.{
  ltb, leb, ◌==◌, if◌then◌else◌, lt→ltb, ==_iff, Bool-cases, get_or, u32, Bytes, ℕ, zero, suc, ◌+◌,
  ◌-◌, ◌*◌, ◌/◌, ◌%◌, ◌^◌, ◌≤◌, ◌<◌, min, ◌≡◌, refl, ap, subst, ◌≢◌, ◌⊎◌, inl, inr, true, false,
  ◌||◌, some, arith,
}
use native.Mathlib.Nat.{le-div_iff_mul-le, mod-lt, div-add-mod, div-mul-le_self}
use native.Mathlib.Decide.{dec_lt}
use drupe.Filesystem.{Inode, Fs}
use drupe.Filesystem.File.{
  copy_offset, bytes_in_block, read_block, read_blocks, limited, ext2_read_file,
}
use drupe.Filesystem.File.Slice.{IsApart, sliced, hole, stored}

-- What a loop that should read `len` bytes from `offset` on gives: the first twelve blocks hold the
-- only bytes that it reaches.
pub record IsRead (fs : Fs) (inode : Inode) (m : Bytes) (output len offset : ℕ) (r : Bytes × ℕ)
    : Type 0 where
  pub amount : r.1 ≡ min len (12 * fs.block_size - offset)
  pub memory : (a : ℕ) → r.0 a ≡ sliced fs inode m output offset r.1 a

-- the amount that a round reads, where nothing wraps
amount_lem :
    (bs c r len : ℕ)
    → c < bs
    → r < len
    → len + bs ≤ 2 ^ 32
    → let n = if ltb len (u32 (r + (bs - c))) then len - r else bs - c in
      (c + n ≤ bs)
      × (r + n ≤ len)
      × (r + n < 2 ^ 32)
      × ((r + n ≡ len) ⊎ ((r + n < len) × (c + n ≡ bs)))
amount_lem bs c r len below more small = elim (Bool-cases (ltb len (u32 (r + (bs - c))))) [
  | inl over ↦ rw over (ground arith, omega arith, omega arith, inl (omega arith))
  | inr under ↦
      let fits : r + (bs - c) ≤ len = ground arith in
      rw under (
        omega arith,
        fits,
        omega arith,
        elim (dec_lt (r + (bs - c)) len) [
          | yes on ↦ inr (on, omega arith)
          | no full ↦ inl (omega arith)
        ],
      )
]

module _ (fs : Fs) (inode : Inode) (m : Bytes) (output len start so offset : ℕ)
    (apart : IsApart fs inode output len) where
  read_block-sliced :
      (b r : ℕ) (mr : Bytes)
      → b < 12
      → b * fs.block_size + copy_offset fs inode output len start so b ≡ offset + r
      → r < len
      → len + fs.block_size ≤ 2 ^ 32
      → copy_offset fs inode output len start so b < fs.block_size
      → ((a : ℕ) → mr a ≡ sliced fs inode m output offset r a)
      → (a : ℕ)
      → read_block fs inode output len start so b r mr a
        ≡ sliced fs inode m output offset (r + bytes_in_block fs inode output len start so b r) a
  unfolding read_block
  read_block-sliced b r mr direct e more small below h a =
      let n =
        amount_lem fs.block_size (copy_offset fs inode output len start so b) r len below more
          small in
      let c = copy_offset fs inode output len start so b in
      elim (Bool-cases (get_or inode.i_block b 0 == 0)) [
        | inl nought ↦ rw nought (
            hole fs inode m output len offset apart b c r _ mr a e n.0
              ((==_iff (get_or inode.i_block b 0) 0).0 nought) (h a))
        | inr entry ↦ rw entry (
            stored fs inode m output len offset apart b c r _ mr a e n.0 n.1 direct (ground arith)
              h)
      ]

  read_blocks-end :
      (left blocks b : ℕ) (mr : Bytes)
      → read_blocks fs inode output len start so left blocks b len mr ≡ (mr, len)
  unfolding read_blocks
  read_blocks-end zero blocks b mr = refl
  read_blocks-end (suc left) blocks b mr = ground arith

  read_blocks-IsRead :
      (left blocks b r : ℕ) (mr : Bytes)
      → b + left ≡ 12
      → start ≤ b
      → (left ≡ 0 → start < b)
      → ((k : ℕ) → k * fs.block_size < offset + len → k < blocks)
      → b * fs.block_size + copy_offset fs inode output len start so b ≡ offset + r
      → r < len
      → len + fs.block_size ≤ 2 ^ 32
      → so < fs.block_size
      → ((a : ℕ) → mr a ≡ sliced fs inode m output offset r a)
      → IsRead fs inode m output len offset
          (read_blocks fs inode output len start so left blocks b r mr)
  unfolding read_blocks
  read_blocks-IsRead zero blocks b r mr e from last enough place more small sob h = record {
    amount =
        let at : b ≡ 12 = omega arith in
        let apart : (b == start) ≡ false = ground (arith, last refl) in
        let place' = rw apart at place in
        omega (arith, ap (λ (t : ℕ). t * fs.block_size) at, place');
    memory = h;
  }
  read_blocks-IsRead (suc left) blocks b r mr e from last enough place more small sob h =
      let c = copy_offset fs inode output len start so b in
      let n = bytes_in_block fs inode output len start so b r in
      let below : c < fs.block_size = ground arith in
      let q =
        amount_lem fs.block_size (copy_offset fs inode output len start so b) r len below more
          small in
      let mr' = read_block fs inode output len start so b r mr in
      let done = read_block-sliced b r mr (omega arith) place more small below h in
      let go1 : ltb b blocks ≡ true = lt→ltb b blocks (enough b (omega arith)) in
      let go2 : ltb r len ≡ true = lt→ltb r len more in
      let no_wrap : u32 (r + n) ≡ r + n = omega (arith, q.2) in
      rw (go1, go2, no_wrap)
        (elim q.3 [
          | inl full ↦
              let rows = ap (λ (t : ℕ). t * fs.block_size) e in
              rw (full, read_blocks-end left blocks (b + 1) mr')
                (record {
                  amount = omega (arith, rows, place, q.0);
                  memory =
                      subst (λ k. (a : ℕ) → mr' a ≡ sliced fs inode m output offset k a) full done;
                })
          | inr (on, whole) ↦
              let next : (b + 1 == start) ≡ false = ground arith in
              read_blocks-IsRead left blocks (b + 1) (r + n) mr' (omega arith) (omega arith)
                (λ z. omega arith) enough (rw next (omega (arith, place, whole))) on small sob done
        ])

IsApart-le :
    (fs : Fs) (inode : Inode) (output n k : ℕ)
    → k ≤ n
    → IsApart fs inode output n
    → IsApart fs inode output k
IsApart-le fs inode output n k le apart b direct entry = elim (apart b direct entry) [
  | inl before ↦ inl before
  | inr behind ↦ inr (omega arith)
]

IsRead-none :
    (fs : Fs) (inode : Inode) (m : Bytes) (output len offset : ℕ)
    → 0 ≡ min len (12 * fs.block_size - offset)
    → IsRead fs inode m output len offset (m, 0)
IsRead-none fs inode m output len offset e = record { amount = e; memory = λ a. ground arith }

-- the loop from its start
read_blocks_start :
    (fs : Fs) (inode : Inode) (m : Bytes) (output len offset blocks : ℕ)
    → IsApart fs inode output len
    → 0 < fs.block_size
    → len + fs.block_size ≤ 2 ^ 32
    → ((k : ℕ) → k * fs.block_size < offset + len → k < blocks)
    → let start = offset / fs.block_size in
      IsRead fs inode m output len offset (
        read_blocks fs inode output len start
          (offset % fs.block_size)
          (12 - start)
          blocks
          start
          0
          m)
read_blocks_start fs inode m output len offset blocks apart some_size small enough =
    let start : ℕ = offset / fs.block_size in
    let so : ℕ = offset % fs.block_size in
    let whole : start * fs.block_size + so ≡ offset =
      omega (arith, div-add-mod offset fs.block_size) in
    elim (dec_lt start 12) [
      | yes inside ↦ elim (dec_lt 0 len) [
        | yes some_bytes ↦
            read_blocks-IsRead fs inode m output len start so offset apart (12 - start) blocks start
              0 m (omega arith) (omega arith) (λ z. omega arith) enough (ground arith) some_bytes
              small (mod-lt offset some_size) (λ a. ground arith)
        | no nothing ↦
            let nought : len ≡ 0 = omega arith in
            (let stays : read_blocks fs inode output len start so (12 - start) blocks start 0 m
                  ≡ (m, 0) =
                subst
                  (λ z.
                    read_blocks fs inode output len start so (12 - start) blocks start z m ≡ (m, z))
                  nought
                  (read_blocks-end fs inode m output len start so offset apart (12 - start) blocks
                    start m) in
              rw stays (IsRead-none fs inode m output len offset (omega arith)))
      ]
      | no beyond ↦
          let none_left : 12 - start ≡ 0 = omega arith in
          let past = div-mul-le_self offset fs.block_size in
          unfold read_blocks in
          rw none_left (
            IsRead-none fs inode m output len offset (
              let rows =
                ap (λ (t : ℕ). t * fs.block_size) {x = start} {y = 12 + (start - 12)}
                  (omega arith) in
              omega (arith, rows, past)))
    ]

-- With a buffer that is not null and where none of the file's first twelve blocks stands, an offset
-- inside the file, a block size above 0 and no sum that wraps, `ext2_read_file` reads from the offset on
-- as many bytes as are asked for, as are left in the file, and as lie in its first twelve blocks. It stores exactly the
-- bytes of the file there, zeros for the holes, and changes no other byte of the memory.
pub ext2_read_file-IsRead :
    (fs : Fs) (inode : Inode) (out_buf buf_len offset : ℕ) (m : Bytes)
    → IsApart fs inode out_buf buf_len
    → out_buf ≢ 0
    → offset < inode.i_size_lo
    → 0 < fs.block_size
    → offset + buf_len + fs.block_size ≤ 2 ^ 32
    → (r : Bytes × ℕ) × (ext2_read_file fs inode out_buf buf_len offset m ≡ some r)
      × IsRead fs inode m out_buf (min buf_len (inode.i_size_lo - offset)) offset r
ext2_read_file-IsRead fs inode out_buf buf_len offset m apart some_buf inside some_size small =
    let len : ℕ = min buf_len (inode.i_size_lo - offset) in
    let e : limited inode buf_len offset ≡ len = ground arith in
    let bs : ℕ = fs.block_size in
    let blocks : ℕ = u32 (offset + len + bs - 1) / bs in
    let start : ℕ = offset / bs in
    let go : (out_buf == 0 || leb inode.i_size_lo offset) ≡ false = ground arith in
    let sized : (bs == 0) ≡ false = ground arith in
    let r = read_blocks fs inode out_buf len start (offset % bs) (12 - start) blocks start 0 m in
    (
      r,
      unfold ext2_read_file in rw (go, sized, e) refl,
      read_blocks_start fs inode m out_buf len offset blocks
          (IsApart-le fs inode out_buf buf_len len (omega arith) apart) some_size (omega arith)
          (λ k lt.
            let no_wrap : u32 (offset + len + bs - 1) ≡ offset + len + bs - 1 = omega arith in
            rw no_wrap (
              (le-div_iff_mul-le {k = bs} {x = suc k} {y = offset + len + bs - 1} some_size).1
                (omega arith))),
    )
