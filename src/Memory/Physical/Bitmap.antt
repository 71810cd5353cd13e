-- ===== src/Memory/Physical/Bitmap.antt =====
-- The bitmap seen as a set of free sectors.
use drupe.Base.{
  ltb, ◌==◌, if◌then◌else◌, ltb→lt, ==_iff, Bool-cases, has_bit, clear_bit, set_bit,
  has_bit-clear_bit, has_bit-set_bit, clear_bit-lt, set_bit-lt, length, get_or, set, replicate,
  length-set, length-replicate, get_or-out, get_or-set_self, get_or-set_ne, ℕ, zero, suc, ◌/◌, ◌%◌,
  ◌<◌, ◌≡◌, refl, ◌∙◌, inl, inr, Bool, true, false, List, arith,
}
use drupe.Memory.Physical.{Pmm, pmm_sectors, mem_phys_init, clear_at, set_at}

-- Sectors beyond the map are not free.
unfoldable pub is_free : List ℕ → ℕ → Bool
is_free map k = has_bit (get_or map (k / 8) 0) (k % 8)

pub record IsValid (p : Pmm) : Type 0 where
  pub sized : length p.map ≡ pmm_sectors / 8
  pub bytes : (i : ℕ) → get_or p.map i 0 < 256

set-bytes :
    (map : List ℕ) (b c : ℕ)
    → ((i : ℕ) → get_or map i 0 < 256)
    → c < 256
    → (i : ℕ) → get_or (set map b c) i 0 < 256
set-bytes map b c h hc i = elim (Bool-cases (b == i)) [
  | inl hit ↦ elim (Bool-cases (ltb b (length map))) [
    | inl within ↦ rw (← (==_iff b i).0 hit, get_or-set_self map b c 0 (ltb→lt _ _ within)) hc
    | inr beyond ↦
        rw (get_or-out (set map b c) i 0 (ground (arith, length-set map b c))) (omega arith)
  ]
  | inr miss ↦ rw (get_or-set_ne map b i c 0 (ground arith)) (h i)
]

pub clear_at-IsValid :
    {p : Pmm} (b m : ℕ) → IsValid p → IsValid (record p { map = clear_at p.map b m })
clear_at-IsValid {p} b m v = record {
  sized = length-set p.map b _ ∙ v.sized;
  bytes = set-bytes p.map b _ v.bytes (clear_bit-lt (get_or p.map b 0) m);
}

pub set_at-IsValid : {p : Pmm} (b m : ℕ) → IsValid p → IsValid (record p { map = set_at p.map b m })
set_at-IsValid {p} b m v = record {
  sized = length-set p.map b _ ∙ v.sized;
  bytes = set-bytes p.map b _ v.bytes (set_bit-lt (get_or p.map b 0) m);
}

-- A byte is replaced: what that does to the set.
is_free-set :
    (map : List ℕ) (k j c : ℕ)
    → k / 8 < length map
    → is_free (set map (k / 8) c) j ≡ (if k / 8 == j / 8 then has_bit c (j % 8) else is_free map j)
unfolding is_free
is_free-set map k j c h = elim (Bool-cases (k / 8 == j / 8)) [
  | inl hit ↦ rw (hit, ← (==_iff (k / 8) (j / 8)).0 hit, get_or-set_self map (k / 8) c 0 h)
  | inr miss ↦ rw (miss, get_or-set_ne map (k / 8) (j / 8) c 0 (ground arith))
]

-- Clearing the bit of sector `k` takes just this sector from the set.
pub is_free-clear_at :
    (map : List ℕ) (k j : ℕ)
    → ((i : ℕ) → get_or map i 0 < 256)
    → k / 8 < length map
    → is_free (clear_at map (k / 8) (k % 8)) j ≡ (if k == j then false else is_free map j)
unfolding is_free
is_free-clear_at map k j bytes h = ground (
  arith,
  is_free-set map k j (clear_bit (get_or map (k / 8) 0) (k % 8)) h,
  has_bit-clear_bit (get_or map (k / 8) 0) (k % 8) (j % 8) (bytes (k / 8)) (omega arith)
      (omega arith),
)

pub is_free-set_at :
    (map : List ℕ) (k j : ℕ)
    → ((i : ℕ) → get_or map i 0 < 256)
    → k / 8 < length map
    → is_free (set_at map (k / 8) (k % 8)) j ≡ (if k == j then true else is_free map j)
unfolding is_free
is_free-set_at map k j bytes h = ground (
  arith,
  is_free-set map k j (set_bit (get_or map (k / 8) 0) (k % 8)) h,
  has_bit-set_bit (get_or map (k / 8) 0) (k % 8) (j % 8) (bytes (k / 8)) (omega arith)
      (omega arith),
)

replicate-bytes : (n i : ℕ) → get_or (replicate n 255) i 0 < 256
replicate-bytes zero i = omega arith
replicate-bytes (suc n) zero = omega arith
replicate-bytes (suc n) (suc i) = replicate-bytes n i

-- After `mem_phys_init` the map is valid.
pub mem_phys_init-IsValid : (start size : ℕ) → IsValid (mem_phys_init start size)
unfolding mem_phys_init
mem_phys_init-IsValid start size = record {
  sized = length-replicate {A = ℕ} (pmm_sectors / 8) 255;
  bytes = replicate-bytes (pmm_sectors / 8);
}

get_or-replicate : (n i : ℕ) → i < n → get_or {A = ℕ} (replicate n 255) i 0 ≡ 255
get_or-replicate zero i h = absurd (omega arith)
get_or-replicate (suc n) zero h = refl
get_or-replicate (suc n) (suc i) h = get_or-replicate n i (omega arith)

bit-full : (k : ℕ) → k < 8 → has_bit 255 k ≡ true
unfolding has_bit
bit-full zero h = refl
bit-full (suc zero) h = refl
bit-full (suc (suc zero)) h = refl
bit-full (suc (suc (suc zero))) h = refl
bit-full (suc (suc (suc (suc zero)))) h = refl
bit-full (suc (suc (suc (suc (suc zero))))) h = refl
bit-full (suc (suc (suc (suc (suc (suc zero)))))) h = refl
bit-full (suc (suc (suc (suc (suc (suc (suc zero))))))) h = refl
bit-full (suc (suc (suc (suc (suc (suc (suc (suc k)))))))) h = absurd (omega arith)

-- every sector below 65536 is free
pub mem_phys_init-free :
    (start size k : ℕ) → k < pmm_sectors → is_free (mem_phys_init start size).map k ≡ true
unfolding mem_phys_init is_free
mem_phys_init-free start size k h =
    rw (get_or-replicate 8192 (k / 8) (omega arith)) (bit-full (k % 8) (omega arith))
