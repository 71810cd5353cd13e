-- ===== src/Filesystem/Copy/Laws.antt =====
-- What the copies leave in memory.
use drupe.Base.{
  ltb, leb, ◌==◌, if◌then◌else◌, ==_iff, Bool-cases, Bytes, ℕ, zero, suc, ◌+◌, ◌-◌, ◌≤◌, ◌≡◌, ◌∙◌,
  ◌⊎◌, inl, inr, Bool, ◌&&◌, arith,
}
use drupe.Filesystem.Copy.{write, memset_from, kpmemset, memcpy_from, kpmemcpy}

-- `n` bytes at `a` and `k` bytes at `b` have none in common.
abbrev pub Apart : ℕ → ℕ → ℕ → ℕ → Type 0
Apart a n b k = (a + n ≤ b) ⊎ (b + k ≤ a)

-- from `a` on, `n` bytes
abbrev pub in_range : ℕ → ℕ → ℕ → Bool
in_range a n i = leb a i && ltb i (a + n)

memset_from_lem :
    (left i dst v : ℕ) (m : Bytes) (a : ℕ)
    → memset_from left i dst v m a ≡ (if in_range (dst + i) left a then v else m a)
unfolding memset_from
memset_from_lem zero i dst v m a = ground arith
memset_from_lem (suc left) i dst v m a =
    ground (arith, memset_from_lem left (i + 1) dst v (write m (dst + i) v) a)

pub kpmemset_lem :
    (dst v size : ℕ) (m : Bytes) (a : ℕ)
    → kpmemset dst v size m a ≡ (if in_range dst size a then v else m a)
unfolding kpmemset
kpmemset_lem dst v size m a = ground (arith, memset_from_lem size 0 dst v m a)

memcpy_from_lem :
    (left i dst src size : ℕ) (m : Bytes) (a : ℕ)
    → i + left ≡ size
    → Apart src size dst size
    → memcpy_from left i dst src m a
      ≡ (if in_range (dst + i) left a then m (src + (a - dst)) else m a)
unfolding memcpy_from
memcpy_from_lem zero i dst src size m a e apart = ground arith
memcpy_from_lem (suc left) i dst src size m a e apart =
    let m' = write m (dst + i) (m (src + i)) in
    let ih = memcpy_from_lem left (i + 1) dst src size m' a (omega arith) apart in
    elim (Bool-cases (a == dst + i)) [
      | inl here ↦
          let at : a ≡ dst + i = (==_iff a (dst + i)).0 here in
          let back : src + (dst + i - dst) ≡ src + i = omega arith in
          ih ∙ rw (at, back) (ground arith)
      | inr other ↦ ih ∙ elim apart [ inl before ↦ ground arith | inr behind ↦ ground arith ]
    ]

-- A copy between ranges that have no byte in common.
pub kpmemcpy_lem :
    (dst src size : ℕ) (m : Bytes) (a : ℕ)
    → Apart src size dst size
    → kpmemcpy dst src size m a ≡ (if in_range dst size a then m (src + (a - dst)) else m a)
unfolding kpmemcpy
kpmemcpy_lem dst src size m a apart =
    memcpy_from_lem size 0 dst src size m a (omega arith) apart ∙ ground arith
