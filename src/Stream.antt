-- ===== src/Stream.antt =====
-- source/system/shell/stream.c: `stream_write` and `stream_read` over a ring of 1024 bytes.
pub mod Inv
pub mod Queue
pub mod Stuck
pub mod Interrupted
pub mod Tests
use drupe.Base.{
  ltb, ◌==◌, if◌then◌else◌, get_or, set, ℤ, rounds, pos, negsuc, ℕ, zero, suc, ◌+◌, ◌-◌, ◌%◌, Bool,
  ◌||◌, List, [], ◌∷◌,
}

abbrev pub stream_buf_size : ℕ
stream_buf_size = 1024

-- `basic_stream_t`; `data` is `bytes` here. `count` is never negative.
pub record Stream : Type 0 where
  pub bytes : List ℕ
  pub head : ℕ
  pub tail : ℕ
  pub count : ℕ

abbrev pub newline : ℕ
newline = 10

-- `len` after the clamp, as the number of rounds that `while (written < len)` makes. Where `count`
-- is beyond the size, the clamped `len` is negative, and the loop makes no round.
unfoldable pub clamp : ℤ → ℕ → ℕ
clamp (negsuc n) room = 0
clamp (pos n) room = if ltb room n then room else n

-- one round of `stream_write`
unfoldable pub put : Stream → ℕ → Stream
put s c = record s {
  bytes = set s.bytes s.head c;
  head = (s.head + 1) % stream_buf_size;
  count = s.count + 1;
}

-- the loop of `stream_write` with `left` rounds to go, at `written`
unfoldable pub write_from : ℕ → ℕ → Stream → (ℕ → ℕ) → Stream
unfolding put
write_from zero written s buf = s
write_from (suc left) written s buf = write_from left (written + 1) (put s (buf written)) buf

-- The new stream and the number of bytes written; `buf i` is `buf[i]`.
unfoldable pub stream_write : Stream → (ℕ → ℕ) → ℤ → Stream × ℕ
unfolding clamp write_from
stream_write s buf len = let n = clamp len (stream_buf_size - s.count) in (write_from n 0 s buf, n)

-- one round of `stream_read` behind its tests
unfoldable pub pull : Stream → Stream
pull s = record s { tail = (s.tail + 1) % stream_buf_size; count = s.count - 1 }

-- the tests that end the loop of `stream_read` at `read`; the second one looks at `data[read]`
unfoldable pub stops : Stream → ℕ → Bool
stops s read = s.count == 0 || get_or s.bytes read 0 == newline

-- the loop of `stream_read` with `left` rounds to go, at `read`; the list is what goes to `buf`
unfoldable pub read_from : ℕ → ℕ → Stream → Stream × List ℕ
unfolding pull stops
read_from zero read s = (s, [])
read_from (suc left) read s =
    let rest = read_from left (read + 1) (pull s) in
    if stops s read then (s, []) else (rest.0, get_or s.bytes s.tail 0 ∷ rest.1)

-- The new stream and the bytes that are stored at `buf[0]`, `buf[1]`, and so on; the source
-- returns their number.
unfoldable pub stream_read : Stream → ℤ → Stream × List ℕ
unfolding read_from
stream_read s len = read_from (rounds len) 0 s
