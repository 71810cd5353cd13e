-- ===== src/Stream/Inv.antt =====
-- The representation invariant of a stream.
use drupe.Base.{
  Bool-cases, length, length-set, ℤ, rounds, pos, negsuc, ℕ, zero, suc, ◌+◌, ◌-◌, ◌%◌, ◌≤◌, ◌<◌,
  ◌≡◌, ◌∙◌, inl, inr, false, arith,
}
use drupe.Stream.{
  Stream, stream_buf_size, clamp, put, write_from, stream_write, pull, stops, read_from,
  stream_read,
}

pub record IsValid (s : Stream) : Type 0 where
  pub sized : length s.bytes ≡ stream_buf_size
  pub head_in : s.head < stream_buf_size
  pub tail_in : s.tail < stream_buf_size
  pub count_in : s.count ≤ stream_buf_size
  pub linked : (s.tail + s.count) % stream_buf_size ≡ s.head

pub clamp-le : (len : ℤ) (room : ℕ) → clamp len room ≤ room
unfolding clamp
clamp-le (negsuc n) room = omega arith
clamp-le (pos n) room = ground arith

pub put-IsValid : {s : Stream} (c : ℕ) → IsValid s → s.count < stream_buf_size → IsValid (put s c)
unfolding put
put-IsValid {s} c v room = record {
  sized = length-set s.bytes s.head c ∙ v.sized;
  head_in = omega arith;
  tail_in = omega arith;
  count_in = omega arith;
  linked = omega arith;
}

pub pull-IsValid : {s : Stream} → IsValid s → 0 < s.count → IsValid (pull s)
unfolding pull
pull-IsValid {s} v some_left = record {
  sized = v.sized;
  head_in = omega arith;
  tail_in = omega arith;
  count_in = omega arith;
  linked = omega arith;
}

pub write_from-IsValid :
    (left written : ℕ) {s : Stream} (buf : ℕ → ℕ)
    → IsValid s
    → s.count + left ≤ stream_buf_size
    → IsValid (write_from left written s buf)
unfolding write_from
write_from-IsValid zero written buf v room = v
write_from-IsValid (suc left) written buf v room =
    write_from-IsValid left (written + 1) buf (put-IsValid (buf written) v (omega arith))
      (unfold put in omega arith)

pub not-stops : (s : Stream) (read : ℕ) → stops s read ≡ false → 0 < s.count
unfolding stops
not-stops s read h = ground arith

pub read_from-IsValid : (left read : ℕ) {s : Stream} → IsValid s → IsValid (read_from left read s).0
unfolding read_from
read_from-IsValid zero read v = v
read_from-IsValid (suc left) read {s} v = elim (Bool-cases (stops s read)) [
  | inl stop ↦ rw stop v
  | inr go ↦ rw go (read_from-IsValid left (read + 1) (pull-IsValid v (not-stops s read go)))
]

-- `stream_write` keeps the invariant, whatever the length and the bytes.
pub stream_write-IsValid :
    {s : Stream} (buf : ℕ → ℕ) (len : ℤ) → IsValid s → IsValid (stream_write s buf len).0
unfolding stream_write
stream_write-IsValid {s} buf len v =
    write_from-IsValid (clamp len (stream_buf_size - s.count)) 0 buf v
      (omega (arith, clamp-le len (stream_buf_size - s.count)))

-- `stream_read` keeps the invariant, whatever the length.
pub stream_read-IsValid : {s : Stream} (len : ℤ) → IsValid s → IsValid (stream_read s len).0
unfolding stream_read
stream_read-IsValid len v = read_from-IsValid (rounds len) 0 v
