-- ===== src/Stream/Stuck.antt =====
-- A newline in cell 0 of a stream: `stream_read` tests `data[read]`, with `read` the number of bytes
-- read so far, where the byte at `tail` is meant.
use drupe.Base.{
  get_or, get_or-set_self, get_or-set_ne, ℤ, rounds, pos, ℕ, zero, suc, ◌+◌, ◌-◌, ◌≤◌, ◌<◌, ◌≡◌,
  refl, ◌∙◌, List, [], ◌∷◌, ◌++◌, arith,
}
use drupe.Stream.{
  Stream, newline, stream_buf_size, clamp, put, write_from, stream_write, stops, read_from,
  stream_read,
}
use drupe.Stream.Inv.{IsValid, put-IsValid, clamp-le}

-- what the users of a stream do with it, in order
pub data Op : Type 0 where
  writes : (ℕ → ℕ) → ℤ → Op
  reads : ℤ → Op

-- every byte that the calls of `stream_read` deliver, in order
pub delivered : Stream → List Op → List ℕ
delivered s [] = []
delivered s (writes buf len ∷ ops) = delivered (stream_write s buf len).0 ops
delivered s (reads len ∷ ops) = let r = stream_read s len in r.1 ++ delivered r.0 ops

pub record IsStuck (s : Stream) : Type 0 where
  pub valid : IsValid s
  pub at_start : s.tail ≡ 0
  pub some_left : 0 < s.count
  pub blocked : get_or s.bytes 0 0 ≡ newline

put-IsStuck : {s : Stream} (c : ℕ) → IsStuck s → s.count < stream_buf_size → IsStuck (put s c)
unfolding put
put-IsStuck {s} c k room = record {
  valid = put-IsValid c k.valid room;
  at_start = k.at_start;
  some_left = omega arith;
  blocked = get_or-set_ne s.bytes s.head 0 c 0 (λ e. omega (arith, k.valid.linked)) ∙ k.blocked;
}

write_from-IsStuck :
    (left written : ℕ) {s : Stream} (buf : ℕ → ℕ)
    → IsStuck s
    → s.count + left ≤ stream_buf_size
    → IsStuck (write_from left written s buf)
unfolding write_from
write_from-IsStuck zero written buf k room = k
write_from-IsStuck (suc left) written buf k room =
    write_from-IsStuck left (written + 1) buf (put-IsStuck (buf written) k (omega arith))
      (unfold put in omega arith)

pub stream_write-IsStuck :
    {s : Stream} (buf : ℕ → ℕ) (len : ℤ) → IsStuck s → IsStuck (stream_write s buf len).0
unfolding stream_write
stream_write-IsStuck {s} buf len k =
    write_from-IsStuck (clamp len (stream_buf_size - s.count)) 0 buf k
      (omega (arith, clamp-le len (stream_buf_size - s.count)))

read_from-stuck : (left : ℕ) {s : Stream} → IsStuck s → read_from left 0 s ≡ (s, [])
unfolding read_from stops
read_from-stuck zero k = refl
read_from-stuck (suc left) {s} k = rw k.blocked (ground arith)

-- A stream that holds bytes from cell 0 on, with a newline in that cell, is dead: no later
-- sequence of writes and reads delivers a byte.
pub delivered-stuck : (ops : List Op) {s : Stream} → IsStuck s → delivered s ops ≡ []
unfolding delivered stream_read
delivered-stuck [] k = refl
delivered-stuck (writes buf len ∷ ops) k = delivered-stuck ops (stream_write-IsStuck buf len k)
delivered-stuck (reads len ∷ ops) {s} k =
    rw (read_from-stuck (rounds len) k) (delivered-stuck ops k)

write_from-IsStuck_fresh :
    (left : ℕ) {s : Stream} (buf : ℕ → ℕ)
    → IsValid s
    → s.count ≡ 0
    → s.tail ≡ 0
    → buf 0 ≡ newline
    → 0 < left
    → left ≤ stream_buf_size
    → IsStuck (write_from left 0 s buf)
unfolding write_from put
write_from-IsStuck_fresh zero buf v empty start nl p h = absurd (omega arith)
write_from-IsStuck_fresh (suc left) {s} buf v empty start nl p h =
    write_from-IsStuck left (0 + 1) buf first (omega arith)
  where
    at_zero : s.head ≡ 0
    at_zero = omega (arith, v.linked)

    first : IsStuck (put s (buf 0))
    first = record {
      valid = put-IsValid (buf 0) v (omega arith);
      at_start = start;
      some_left = omega arith;
      blocked = rw at_zero (get_or-set_self s.bytes 0 (buf 0) 0 (omega (arith, v.sized)) ∙ nl);
    }

-- An empty stream whose next cell is cell 0 is dead once a newline has been written there first.
pub stream_write-IsStuck_fresh :
    {s : Stream} (buf : ℕ → ℕ) (n : ℕ)
    → IsValid s
    → s.count ≡ 0
    → s.tail ≡ 0
    → buf 0 ≡ newline
    → 0 < n
    → IsStuck (stream_write s buf (pos n)).0
unfolding stream_write clamp
stream_write-IsStuck_fresh {s} buf n v empty start nl p =
    write_from-IsStuck_fresh (clamp (pos n) (stream_buf_size - s.count)) buf v empty start nl
      (ground arith) (omega (arith, clamp-le (pos n) (stream_buf_size - s.count)))

-- No call of `stream_read` changes a dead stream.
pub stream_read-stuck : {s : Stream} (len : ℤ) → IsStuck s → stream_read s len ≡ (s, [])
unfolding stream_read
stream_read-stuck len k = read_from-stuck (rounds len) k
