-- ===== src/Base/Bits.antt =====
-- The bits of a byte, tested, cleared and set as the source does it: `c & (1 << b)`,
-- `c &= ~(1 << b)`, `c |= 1 << b`. The laws are checked over all bytes by evaluation.
use drupe.Base.Tests.{◌==◌, if◌then◌else◌}
use drupe.Base.Words.{u8, not32}
use Prim.Native.Nat.{ℕ, zero, suc, ◌^◌, ◌<◌, bit_and, bit_or}
use mathlib.Core.Path.{◌≡◌, refl}
use mathlib.Core.Bool.{Bool, true, false, not, ◌&&◌}
use native.Mathlib.Omega.{arith}

unfoldable pub has_bit : ℕ → ℕ → Bool
has_bit c b = not (bit_and c (2 ^ b) == 0)

unfoldable pub clear_bit : ℕ → ℕ → ℕ
clear_bit c b = u8 (bit_and c (not32 (2 ^ b)))

unfoldable pub set_bit : ℕ → ℕ → ℕ
set_bit c b = u8 (bit_or c (2 ^ b))

-- Every number under a bound passes a test.
unfoldable pub holds_under : (ℕ → Bool) → ℕ → Bool
holds_under test zero = true
holds_under test (suc top) = if test top then holds_under test top else false

pub holds_under-at :
    (test : ℕ → Bool) (top k : ℕ) → k < top → holds_under test top ≡ true → test k ≡ true
unfolding holds_under
holds_under-at test zero k under h = absurd (omega arith)
holds_under-at test (suc top) k under h = ground (arith, holds_under-at test top k)

pub agree : Bool → Bool → Bool
agree true b = b
agree false b = not b

pub agree-eq : (a b : Bool) → agree a b ≡ true → a ≡ b
unfolding agree
agree-eq a b h = ground arith

clear_row : ℕ → ℕ → ℕ → Bool
clear_row b d c = agree (has_bit (clear_bit c b) d) (if b == d then false else has_bit c d)

set_row : ℕ → ℕ → ℕ → Bool
set_row b d c = agree (has_bit (set_bit c b) d) (if b == d then true else has_bit c d)

empty_row : ℕ → ℕ → Bool
empty_row d c = agree (has_bit c d && (c == 0)) false

clear_table : holds_under (λ b. holds_under (λ d. holds_under (clear_row b d) 256) 8) 8 ≡ true
unfolding holds_under clear_row agree has_bit clear_bit
clear_table = refl

set_table : holds_under (λ b. holds_under (λ d. holds_under (set_row b d) 256) 8) 8 ≡ true
unfolding holds_under set_row agree has_bit set_bit
set_table = refl

pub has_bit-clear_bit :
    (c b d : ℕ)
    → c < 256
    → b < 8
    → d < 8
    → has_bit (clear_bit c b) d ≡ (if b == d then false else has_bit c d)
unfolding clear_row
has_bit-clear_bit c b d hc hb hd = agree-eq _ _ (
    holds_under-at (clear_row b d) 256 c hc
      (holds_under-at _ 8 d hd (holds_under-at _ 8 b hb clear_table)))

pub has_bit-set_bit :
    (c b d : ℕ)
    → c < 256
    → b < 8
    → d < 8
    → has_bit (set_bit c b) d ≡ (if b == d then true else has_bit c d)
unfolding set_row
has_bit-set_bit c b d hc hb hd = agree-eq _ _ (
    holds_under-at (set_row b d) 256 c hc
      (holds_under-at _ 8 d hd (holds_under-at _ 8 b hb set_table)))

pub clear_bit-lt : (c b : ℕ) → clear_bit c b < 256
unfolding clear_bit
clear_bit-lt c b = omega arith

pub set_bit-lt : (c b : ℕ) → set_bit c b < 256
unfolding set_bit
set_bit-lt c b = omega arith

-- A full byte has all its bits, a zero byte none.
full_table : holds_under (has_bit 255) 8 ≡ true
unfolding holds_under has_bit
full_table = refl

pub has_bit_full : (d : ℕ) → d < 8 → has_bit 255 d ≡ true
has_bit_full d h = holds_under-at (has_bit 255) 8 d h full_table

zero_table : holds_under (λ d. not (has_bit 0 d)) 8 ≡ true
unfolding holds_under has_bit
zero_table = refl

pub has_bit_zero : (d : ℕ) → d < 8 → has_bit 0 d ≡ false
has_bit_zero d h = ground (arith, holds_under-at (λ d. not (has_bit 0 d)) 8 d h zero_table)
