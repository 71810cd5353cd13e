-- ===== src/Stream/Tests.antt =====
-- Runs of the stream, and the theorems at concrete streams.
use drupe.Base.{
  get_or, replicate, tabulate, pos, negsuc, ℕ, zero, suc, ◌+◌, ◌<◌, ◌≡◌, refl, ◌≢◌, ◌⊎◌, [], ◌∷◌,
  ◌++◌, arith,
}
use drupe.Stream.{clamp, Stream, stream_write, stream_read}
use drupe.Stream.Inv.{IsValid}
use drupe.Stream.Queue.{stream_write_lem, stream_read-HasRead, read-write, contents, HasRead}
use drupe.Stream.Interrupted.{Both, Overrun, interrupted_write, interrupted_write_lem}
use drupe.Stream.Stuck.{
  IsStuck, delivered, writes, reads, delivered-stuck, stream_write-IsStuck_fresh,
}

abbrev fresh : Stream
fresh = record { bytes = replicate 1024 0; head = 0; tail = 0; count = 0 }

-- three letters behind one that is already gone
abbrev running : Stream
running = record { bytes = 72 ∷ 101 ∷ 108 ∷ 108 ∷ replicate 1020 0; head = 4; tail = 1; count = 3 }

abbrev letters : ℕ → ℕ
letters i = 65 + i

-- "\nHi"
abbrev new_line_first : ℕ → ℕ
new_line_first i = get_or (10 ∷ 72 ∷ 105 ∷ []) i 0

fresh-IsValid : IsValid fresh
fresh-IsValid = omega arith

running-IsValid : IsValid running
running-IsValid = omega arith

reads_back :
    (stream_read (stream_write running letters (pos 2)).0 (pos 64)).1
    ≡ 101 ∷ 108 ∷ 108 ∷ 65 ∷ 66 ∷ []
unfolding stream_read stream_write
reads_back = refl

takes_nothing_negative : (stream_write running letters (negsuc 0)).1 ≡ 0
unfolding stream_write
takes_nothing_negative = refl

stream_write_lem_example :
    ((stream_write running letters (pos 2)).1 ≡ 2)
    × (contents (stream_write running letters (pos 2)).0
        ≡ contents running ++ tabulate (stream_write running letters (pos 2)).1 0 letters)
stream_write_lem_example = stream_write_lem letters (pos 2) running-IsValid

stream_read-HasRead_example : HasRead 2 0 running (stream_read running (pos 2))
stream_read-HasRead_example = stream_read-HasRead running (pos 2)

running_clear : (i : ℕ) → i < 3 → get_or running.bytes i 0 ≢ 10
running_clear zero h e = cc
running_clear (suc zero) h e = cc
running_clear (suc (suc zero)) h e = cc
running_clear (suc (suc (suc i))) h e = omega arith

letters_clear :
    (i : ℕ)
    → i < (stream_write fresh letters (pos 2)).1
    → get_or (stream_write fresh letters (pos 2)).0.bytes i 0 ≢ 10
unfolding stream_write
letters_clear zero h e = cc
letters_clear (suc zero) h e = cc
letters_clear (suc (suc i)) h e = omega arith

read-write_example :
    (stream_read (stream_write fresh letters (pos 2)).0 (pos 2)).1 ≡ tabulate 2 0 letters
read-write_example = read-write letters (pos 2) fresh-IsValid refl letters_clear

stuck : IsStuck (stream_write fresh new_line_first (pos 3)).0
stuck = stream_write-IsStuck_fresh new_line_first 3 fresh-IsValid refl refl refl (omega arith)

delivered-stuck_example :
    delivered
      (stream_write fresh new_line_first (pos 3)).0
      (reads (pos 64) ∷ writes letters (pos 2) ∷ reads (pos 64) ∷ [])
    ≡ []
delivered-stuck_example =
    delivered-stuck (reads (pos 64) ∷ writes letters (pos 2) ∷ reads (pos 64) ∷ []) stuck

-- 2000 bytes into a stream of three, with a key behind the first five
interrupted_write_lem_example :
    Both running letters 1021 5 97 (interrupted_write running letters (pos 2000) 5 97)
    ⊎ Overrun running letters 1021 (interrupted_write running letters (pos 2000) 5 97)
unfolding clamp
interrupted_write_lem_example =
    interrupted_write_lem running letters (pos 2000) 5 97 running-IsValid (omega arith)
