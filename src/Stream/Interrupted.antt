-- ===== src/Stream/Interrupted.antt =====
-- source/system/shell/stream.c: `stream_write` with a call of itself in its middle, as a key makes it.
use native.Mathlib.Decide.{dec_lt}
use drupe.Base.{
  ltb, get_or, tabulate, get_or-set_self, ℤ, pos, ℕ, zero, suc, ◌+◌, ◌-◌, ◌<◌, min, ◌≡◌, refl, sym,
  ap, ◌∙◌, ◌⊎◌, inl, inr, false, [], ◌∷◌, ◌++◌, arith,
}
use drupe.Stream.{Stream, stream_buf_size, clamp, put, write_from, stream_write}
use drupe.Stream.Inv.{IsValid, clamp-le, put-IsValid, write_from-IsValid}
use drupe.Stream.Queue.{contents, contents-put, contents-write_from, count-write_from}

-- `stream_write` with a second call, of the byte `c`, in front of the round for `buf[i]`, or behind
-- the loop if it has fewer rounds. The first call has clamped `len` before.
unfoldable pub interrupted_write : Stream → (ℕ → ℕ) → ℤ → ℕ → ℕ → Stream
interrupted_write s buf len i c =
    let n = clamp len (stream_buf_size - s.count) in
    let key = (stream_write (write_from (min i n) 0 s buf) (λ j. c) (pos 1)).0 in
    write_from (n - i) i key buf

-- What becomes of the `n` bytes of the first call and the byte of the second one.
pub record Both (s : Stream) (buf : ℕ → ℕ) (n i c : ℕ) (s' : Stream) : Type 0 where
  pub fits : s.count + n < stream_buf_size
  pub valid : IsValid s'
  pub order : contents s' ≡ contents s ++ tabulate i 0 buf ++ (c ∷ []) ++ tabulate (n - i) i buf

-- One byte more than the ring has is counted, and the oldest byte is lost to the last one.
pub record Overrun (s : Stream) (buf : ℕ → ℕ) (n : ℕ) (s' : Stream) : Type 0 where
  pub fills : s.count + n ≡ stream_buf_size
  pub beyond : s'.count ≡ stream_buf_size + 1
  pub lost : get_or s'.bytes s'.tail 0 ≡ buf (n - 1)

-- the last round of the loop
write_from_last :
    (left written : ℕ) (s : Stream) (buf : ℕ → ℕ)
    → write_from (suc left) written s buf
      ≡ put (write_from left written s buf) (buf (written + left))
unfolding write_from
write_from_last zero written s buf = let at : written + 0 ≡ written = omega arith in rw at refl
write_from_last (suc left) written s buf =
    let at : written + suc left ≡ written + 1 + left = omega arith in
    rw at (write_from_last left (written + 1) (put s (buf written)) buf)

one_byte :
    (s : Stream) (c : ℕ) → s.count < stream_buf_size → (stream_write s (λ j. c) (pos 1)).0 ≡ put s c
unfolding stream_write clamp write_from
one_byte s c room =
    let some_room : ltb (stream_buf_size - s.count) 1 ≡ false = ground arith in rw some_room refl

put_full :
    (s : Stream) (c : ℕ)
    → IsValid s
    → s.count ≡ stream_buf_size
    → ((put s c).count ≡ stream_buf_size + 1) × (get_or (put s c).bytes (put s c).tail 0 ≡ c)
unfolding put
put_full s c v full =
    let round_it : s.head ≡ s.tail = omega (arith, v.linked, v.tail_in) in
    (
      omega arith,
      rw round_it (get_or-set_self s.bytes s.tail c 0 (omega (arith, v.sized, v.tail_in))),
    )

-- On a valid stream, with a second call of one byte while the first one has bytes left to write: if
-- the ring has room for all of them, the stream is valid and holds both, each byte in its place. If
-- the first call fills the ring, a byte too much is counted, and the last byte stands where the
-- oldest one was.
pub interrupted_write_lem :
    (s : Stream) (buf : ℕ → ℕ) (len : ℤ) (i c : ℕ)
    → IsValid s
    → i < clamp len (stream_buf_size - s.count)
    → Both s buf (clamp len (stream_buf_size - s.count)) i c (interrupted_write s buf len i c)
      ⊎ Overrun s buf (clamp len (stream_buf_size - s.count)) (interrupted_write s buf len i c)
unfolding interrupted_write
interrupted_write_lem s buf len i c v early =
    let n = clamp len (stream_buf_size - s.count) in
    let below = clamp-le len (stream_buf_size - s.count) in
    let first : min i n ≡ i = omega arith in
    let half = write_from i 0 s buf in
    let half_valid = write_from-IsValid i 0 buf v (omega arith) in
    let half_count = count-write_from i 0 s buf in
    let room : half.count < stream_buf_size = omega arith in
    let valid = put-IsValid c half_valid room in
    let count : (put half c).count ≡ s.count + i + 1 = unfold put in omega arith in
    rw (first, one_byte half c room)
      (elim (dec_lt (s.count + n) stream_buf_size) [
        | yes fits ↦ inl (record {
          fits = fits;
          valid = write_from-IsValid (n - i) i buf valid (omega arith);
          order =
              contents-write_from (n - i) i buf valid (omega arith)
              ∙ ap (λ xs. xs ++ tabulate (n - i) i buf)
                  (contents-put c half_valid room
                    ∙ ap (λ xs. xs ++ (c ∷ [])) (contents-write_from i 0 buf v (omega arith)));
        })
        | no other ↦
            let k = n - i - 1 in
            let left : n - i ≡ suc k = omega arith in
            let last : i + k ≡ n - 1 = omega arith in
            let mid = write_from k i (put half c) buf in
            let mid_valid = write_from-IsValid k i buf valid (omega arith) in
            let mid_count : mid.count ≡ stream_buf_size =
              count-write_from k i (put half c) buf ∙ omega arith in
            let over = put_full mid (buf (i + k)) mid_valid mid_count in
            inr (record {
              fills = omega arith;
              beyond = rw (left, write_from_last k i (put half c) buf) over.0;
              lost = rw (left, write_from_last k i (put half c) buf, sym last) over.1;
            })
      ])
