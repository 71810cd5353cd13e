-- ===== src/Base/Masks.antt =====
-- `x & (2^k - 1)` as a remainder, and the two halves of a descriptor's granularity byte.
use drupe.Base.Tests.{◌==◌, ==_iff}
use drupe.Base.Bits.{holds_under, holds_under-at}
use Prim.Native.Nat.{
  ℕ, zero, suc, ◌+◌, ◌-◌, ◌*◌, ◌/◌, ◌%◌, ◌^◌, ◌≤◌, ◌<◌, min, bit_and, bit_or, digits,
  bit_and-bitwise,
}
use native.Mathlib.Nat.{pow-suc, one-le-pow, div-add-mod', mod-lt}
use mathlib.Core.Path.{◌≡◌, refl, ap, ◌∙◌}
use mathlib.Core.Bool.{Bool, true}
use native.Mathlib.Omega.{arith}

-- The recursion on digits that `&` stands for, at a number `a` with remainder `r` by `2 ^ k`.
digits_mask :
    (n k a q r : ℕ)
    → a ≤ n
    → a ≡ q * 2 ^ k + r
    → r < 2 ^ k
    → digits (λ b. 0) min n a (2 ^ k - 1) ≡ r
digits_mask zero k zero q r fuel e h = omega arith
digits_mask zero k (suc a) q r fuel e h = absurd (omega arith)
digits_mask (suc n) k zero q r fuel e h = omega arith
digits_mask (suc n) zero (suc a) q r fuel e h =
    omega (
      arith,
      digits_mask n zero (suc a / 2) (suc a / 2) 0 (omega arith) (omega arith) (omega arith),
    )
digits_mask (suc n) (suc k) (suc a) q r fuel e h =
    let p = pow-suc 2 k in
    let double : q * 2 ^ suc k ≡ 2 * (q * 2 ^ k) = omega (arith, ap (λ (t : ℕ). q * t) p) in
    let some_bit : 1 ≤ 2 ^ k = one-le-pow k 2 (omega arith) in
    let half : (2 ^ suc k - 1) / 2 ≡ 2 ^ k - 1 = omega arith in
    let rest : digits (λ b. 0) min n (suc a / 2) (2 ^ k - 1) ≡ r / 2 =
      digits_mask n k (suc a / 2) q (r / 2) (omega arith) (omega arith) (omega arith) in
    omega (arith, ap (λ (t : ℕ). digits (λ b. 0) min n (suc a / 2) t) half)

-- A mask of `k` low bits is the remainder by `2 ^ k`.
pub bit_and_mask : (k a : ℕ) → bit_and a (2 ^ k - 1) ≡ a % 2 ^ k
bit_and_mask k a =
    bit_and-bitwise a (2 ^ k - 1)
    ∙ digits_mask a k a (a / 2 ^ k) (a % 2 ^ k) (omega arith)
        (omega (arith, div-add-mod' a (2 ^ k))) (mod-lt a (one-le-pow k 2 (omega arith)))

granularity_row : ℕ → ℕ → Bool
granularity_row g x = bit_or x (bit_and g 0xF0) == x + g / 16 * 16

granularity_table : holds_under (λ g. holds_under (granularity_row g) 16) 256 ≡ true
unfolding holds_under granularity_row
granularity_table = refl

-- The high half of a byte joined with a low half.
pub bit_or-halves : (x g : ℕ) → x < 16 → g < 256 → bit_or x (bit_and g 0xF0) ≡ x + g / 16 * 16
unfolding granularity_row
bit_or-halves x g hx hg =
    (==_iff _ _).0
      (holds_under-at (granularity_row g) 16 x hx (holds_under-at _ 256 g hg granularity_table))

even_row : ℕ → Bool
even_row x = bit_and x 0xFE == x / 2 * 2

even_table : holds_under even_row 256 ≡ true
unfolding holds_under even_row
even_table = refl

-- A byte without its lowest bit.
pub bit_and_even : (x : ℕ) → x < 256 → bit_and x 0xFE ≡ x / 2 * 2
unfolding even_row
bit_and_even x h = (==_iff _ _).0 (holds_under-at even_row 256 x h even_table)
