-- ===== src/Memory/Physical/Alloc.antt =====
-- `mem_phys_alloc` and `mem_phys_free` against a set of free sectors.
use drupe.Base.{
  ◌==◌, if◌then◌else◌, lt→ltb, ==_iff, Bool-cases, has_bit, has_bit_zero, length, get_or, u32, ℕ,
  zero, suc, ◌+◌, ◌-◌, ◌*◌, ◌/◌, ◌%◌, ◌^◌, ◌≤◌, ◌<◌, ◌≡◌, refl, sym, ap, subst, ◌∙◌, ◌≢◌, ◌⊎◌, inl,
  inr, true, false, Option, none, some, List, [], ◌∷◌, arith,
}
use drupe.Memory.Physical.Bitmap.{
  is_free, IsValid, clear_at-IsValid, is_free-clear_at, set_at-IsValid, is_free-set_at,
}
use native.Mathlib.Decide.{dec_lt}
use drupe.Memory.Physical.{
  find_bit, find_sector, pmm_sectors, Pmm, sector_address, clear_at, sector_or, mem_phys_alloc,
  pmm_sector_size, set_at, sector_of, mem_phys_free,
}

-- what `find_bit` gives from bit `b` on
abbrev FirstBit : ℕ → ℕ → ℕ → Option ℕ → Type 0
FirstBit left b c none = (d : ℕ) → b ≤ d → d < b + left → has_bit c d ≡ false
FirstBit left b c (some m) =
    (b ≤ m)
    × (m < b + left)
    × (has_bit c m ≡ true)
    × ((d : ℕ) → b ≤ d → d < m → has_bit c d ≡ false)

find_bit-FirstBit : (left b c : ℕ) → FirstBit left b c (find_bit left b c)
unfolding find_bit
find_bit-FirstBit zero b c = λ d p q. absurd (omega arith)
find_bit-FirstBit (suc left) b c = elim (Bool-cases (has_bit c b)) [
  | inl hit ↦ rw hit (omega arith, omega arith, hit, λ d p q. absurd (omega arith))
  | inr miss ↦ rw miss (later (find_bit left (b + 1) c) (find_bit-FirstBit left (b + 1) c) miss)
]
  where
    later :
        (o : Option ℕ) → FirstBit left (b + 1) c o → has_bit c b ≡ false → FirstBit (suc left) b c o
    later none h miss = λ d p q. elim (dec_lt b d) [
      | yes above ↦ h d (omega arith) (omega arith)
      | no here ↦ subst (λ k. has_bit c k ≡ false) (omega arith) miss
    ]
    later (some m) h miss = (
      omega arith,
      omega arith,
      h.2,
      λ d p q. elim (dec_lt b d) [
        | yes above ↦ h.3 d (omega arith) q
        | no here ↦ subst (λ k. has_bit c k ≡ false) (omega arith) miss
      ],
    )

-- what `find_sector` gives over the bytes from index `i` on; a sector is its byte and its bit
abbrev FirstSector : List ℕ → ℕ → Option (ℕ × ℕ) → Type 0
FirstSector cs i none = (j d : ℕ) → d < 8 → has_bit (get_or cs j 0) d ≡ false
FirstSector cs i (some (k, b)) =
    (i ≤ k)
    × (k < i + length cs)
    × (b < 8)
    × (has_bit (get_or cs (k - i) 0) b ≡ true)
    × ((j d : ℕ) → d < 8 → j * 8 + d < (k - i) * 8 + b → has_bit (get_or cs j 0) d ≡ false)

-- a byte with no bit set, and what the rest gives
FirstSector-skip :
    (c : ℕ) (cs : List ℕ) (i : ℕ) (o : Option (ℕ × ℕ))
    → ((d : ℕ) → d < 8 → has_bit c d ≡ false)
    → FirstSector cs (i + 1) o
    → FirstSector (c ∷ cs) i o
FirstSector-skip c cs i none clear h = elim [ zero ↦ clear | suc j ↦ h j ]
FirstSector-skip c cs i (some (k, b)) clear h =
    let e : k - i ≡ suc (k - (i + 1)) = omega arith in
    (
      omega arith,
      omega arith,
      h.2,
      rw e h.3,
      elim [ zero ↦ λ d hd p. clear d hd | suc j ↦ λ d hd p. h.4 j d hd (omega arith) ],
    )

FirstSector-or :
    (c : ℕ) (cs : List ℕ) (i : ℕ) (o : Option ℕ) (rest : Option (ℕ × ℕ))
    → FirstBit 8 0 c o
    → FirstSector cs (i + 1) rest
    → FirstSector (c ∷ cs) i (sector_or i o rest)
FirstSector-or c cs i none rest f h =
    FirstSector-skip c cs i rest (λ d hd. f d (omega arith) (omega arith)) h
FirstSector-or c cs i (some b) rest f h =
    let e : i - i ≡ 0 = omega arith in
    (
      omega arith,
      omega arith,
      omega arith,
      rw e f.2,
      elim [
        | zero ↦ λ d hd p. f.3 d (omega arith) (omega arith)
        | suc j ↦ λ d hd p. absurd (omega arith)
      ],
    )

find_sector-FirstSector : (cs : List ℕ) (i : ℕ) → FirstSector cs i (find_sector cs i)
unfolding find_sector
find_sector-FirstSector [] i = λ j d h. has_bit_zero d h
find_sector-FirstSector (c ∷ cs) i = elim (Bool-cases (c == 0)) [
  | inl nought ↦ rw nought (
      FirstSector-skip c cs i (find_sector cs (i + 1))
        (λ d h. rw ((==_iff c 0).0 nought) (has_bit_zero d h)) (find_sector-FirstSector cs (i + 1)))
  | inr some_bit ↦ rw some_bit (
      FirstSector-or c cs i (find_bit 8 0 c) (find_sector cs (i + 1)) (find_bit-FirstBit 8 0 c)
        (find_sector-FirstSector cs (i + 1)))
]

-- Sector `k` is the first free one.
pub record IsFirst (map : List ℕ) (k : ℕ) : Type 0 where
  pub within : k < pmm_sectors
  pub free : is_free map k ≡ true
  pub least : (j : ℕ) → j < k → is_free map j ≡ false

-- The state with sector `k` taken: its address, and the set of free sectors without it.
pub record Takes (p : Pmm) (k : ℕ) (r : ℕ × Pmm) : Type 0 where
  pub address : r.0 ≡ sector_address p k
  pub free_after : (j : ℕ) → is_free r.1.map j ≡ (if k == j then false else is_free p.map j)
  pub same_start : r.1.start ≡ p.start
  pub same_sectors : r.1.sectors ≡ p.sectors
  pub still_valid : IsValid r.1

Takes-clear_at :
    {p : Pmm} (i b k : ℕ)
    → IsValid p
    → b < 8
    → i < pmm_sectors / 8
    → k ≡ i * 8 + b
    → Takes p k (sector_address p (i * 8 + b), record p { map = clear_at p.map i b })
Takes-clear_at {p} i b k v hb hi e = record {
  address = ap (sector_address p) (sym e);
  free_after = λ j.
      let hi' : k / 8 ≡ i = omega arith in
      let hb' : k % 8 ≡ b = omega arith in
      rw (← hi', ← hb') (is_free-clear_at p.map k j v.bytes (omega (arith, v.sized)));
  same_start = refl;
  same_sectors = refl;
  still_valid = clear_at-IsValid i b v;
}

-- the two outcomes of an allocation
pub data Alloc (p : Pmm) (r : ℕ × Pmm) : Type 0 where
  full : ((k : ℕ) → is_free p.map k ≡ false) → r ≡ (0, p) → Alloc p r
  taken : (k : ℕ) → IsFirst p.map k → Takes p k r → Alloc p r

outcome-Alloc :
    (p : Pmm) (o : Option (ℕ × ℕ))
    → IsValid p
    → FirstSector p.map 0 o
    → Alloc p (elim o [
      | none ↦ (0, p)
      | some (i, b) ↦ (sector_address p (i * 8 + b), record p { map = clear_at p.map i b })
    ])
outcome-Alloc p none v h = full (λ k. unfold is_free in h (k / 8) (k % 8) (omega arith)) refl
outcome-Alloc p (some (i, b)) v h =
    let low : i - 0 ≡ i = omega arith in
    let byte : (i * 8 + b) / 8 ≡ i = omega arith in
    let bit : (i * 8 + b) % 8 ≡ b = omega arith in
    taken (i * 8 + b)
      (record {
        within = omega (arith, v.sized);
        free = unfold is_free in rw (byte, bit) (rw low at h.3);
        least = λ j p. unfold is_free in h.4 (j / 8) (j % 8) (omega arith) (omega arith);
      })
      (Takes-clear_at i b (i * 8 + b) v h.2 (omega (arith, v.sized)) refl)

-- With a valid map `mem_phys_alloc` gives 0 and changes nothing if no sector is free. Otherwise it gives the address
-- of the first free sector, and takes this sector and no other from the free ones.
pub mem_phys_alloc-Alloc : (p : Pmm) → IsValid p → Alloc p (mem_phys_alloc p)
unfolding mem_phys_alloc
mem_phys_alloc-Alloc p v = outcome-Alloc p (find_sector p.map 0) v (find_sector-FirstSector p.map 0)

-- The sector of an address that the allocator gave, where the addresses do not wrap.
sector_of-address :
    (p : Pmm) (k : ℕ)
    → k < pmm_sectors
    → p.start + pmm_sectors * pmm_sector_size ≤ 2 ^ 32
    → sector_of p (sector_address p k) ≡ k
sector_of-address p k h fits = omega arith

-- With a valid map whose addresses do not wrap, `mem_phys_free` of the address of a sector of the map
-- frees that sector, changes no other, and leaves the map valid and where it stands.
pub mem_phys_free_lem :
    (p : Pmm) (k : ℕ)
    → IsValid p
    → k < pmm_sectors
    → p.start + pmm_sectors * pmm_sector_size ≤ 2 ^ 32
    → (q : Pmm) × (mem_phys_free p (sector_address p k) ≡ some q)
      × ((j : ℕ) → is_free q.map j ≡ (if k == j then true else is_free p.map j))
      × IsValid q
      × (q.start ≡ p.start)
      × (q.sectors ≡ p.sectors)
unfolding mem_phys_free
mem_phys_free_lem p k v h fits = (
  record p { map = set_at p.map (k / 8) (k % 8) },
  rw (sector_of-address p k h fits, lt→ltb (k / 8) (length p.map) (omega (arith, v.sized))) refl,
  λ j. is_free-set_at p.map k j v.bytes (omega (arith, v.sized)),
  set_at-IsValid (k / 8) (k % 8) v,
  refl,
  refl,
)

free-taken :
    {p : Pmm} {k : ℕ} (a : ℕ) (p' : Pmm)
    → IsFirst p.map k
    → Takes p k (a, p')
    → p.start + pmm_sectors * pmm_sector_size ≤ 2 ^ 32
    → (q : Pmm) × (mem_phys_free p' a ≡ some q) × ((j : ℕ) → is_free q.map j ≡ is_free p.map j)
free-taken {p} {k} a p' f t fits = (
  freed.0,
  ap (mem_phys_free p') (t.address ∙ ap (λ s. u32 (s + pmm_sector_size * k)) (sym t.same_start))
      ∙ freed.1,
  λ j. back j (Bool-cases (k == j)),
)
  where
    freed :
        (q : Pmm) × (mem_phys_free p' (sector_address p' k) ≡ some q)
        × ((j : ℕ) → is_free q.map j ≡ (if k == j then true else is_free p'.map j))
        × IsValid q
        × (q.start ≡ p'.start)
        × (q.sectors ≡ p'.sectors)
    freed = mem_phys_free_lem p' k t.still_valid f.within (omega (arith, t.same_start))

    back :
        (j : ℕ) → ((k == j) ≡ true) ⊎ ((k == j) ≡ false) → is_free freed.0.map j ≡ is_free p.map j
    back j (inl hit) =
        freed.2 j ∙ rw hit (sym (subst (λ n. is_free p.map n ≡ true) ((==_iff k j).0 hit) f.free))
    back j (inr miss) = freed.2 j ∙ rw miss (t.free_after j ∙ rw miss)

-- With a valid map whose addresses do not wrap, freeing the sector that an allocation has just given
-- gives the same set of free sectors back.
free-alloc :
    (p : Pmm)
    → IsValid p
    → p.start + pmm_sectors * pmm_sector_size ≤ 2 ^ 32
    → (mem_phys_alloc p).0 ≢ 0
    → (q : Pmm) × (mem_phys_free (mem_phys_alloc p).1 (mem_phys_alloc p).0 ≡ some q)
      × ((j : ℕ) → is_free q.map j ≡ is_free p.map j)
free-alloc p v fits found = elim (mem_phys_alloc-Alloc p v) [
  | full none_free e ↦ absurd (found (ap (λ (r : ℕ × Pmm). r.0) e))
  | taken k f t ↦ free-taken (mem_phys_alloc p).0 (mem_phys_alloc p).1 f t fits
]

pub address_injective :
    (p : Pmm) (j k : ℕ)
    → j < pmm_sectors
    → k < pmm_sectors
    → p.start + pmm_sectors * pmm_sector_size ≤ 2 ^ 32
    → sector_address p j ≡ sector_address p k
    → j ≡ k
address_injective p j k hj hk fits e = omega arith

-- With a valid map whose addresses do not wrap, an allocation that follows a successful one never
-- gives the same sector.
pub alloc-distinct :
    (p : Pmm)
    → IsValid p
    → p.start + pmm_sectors * pmm_sector_size ≤ 2 ^ 32
    → (mem_phys_alloc p).0 ≢ 0
    → (mem_phys_alloc (mem_phys_alloc p).1).0 ≢ (mem_phys_alloc p).0
alloc-distinct p v fits found again = elim (mem_phys_alloc-Alloc p v) [
  | full none_free e ↦ found (ap (λ (r : ℕ × Pmm). r.0) e)
  | taken k f t ↦ elim (mem_phys_alloc-Alloc (mem_phys_alloc p).1 t.still_valid) [
    | full none_free e ↦ found (sym again ∙ ap (λ (r : ℕ × Pmm). r.0) e)
    | taken j g u ↦
        let clash : j ≡ k = address_injective p j k g.within f.within fits (
          ap (λ s. u32 (s + pmm_sector_size * j)) (sym t.same_start)
          ∙ sym u.address
          ∙ again
          ∙ t.address) in
        let gone : is_free (mem_phys_alloc p).1.map j ≡ false =
          t.free_after j ∙ rw ((==_iff k j).1 (sym clash)) in
        cc (gone, g.free)
  ]
]

-- `mem_phys_alloc` does not look at `mem_phys_sectors`: with a valid map whose addresses do not wrap,
-- where all sectors of the memory are taken, it hands out an address at or beyond the end of the
-- memory, if the map still has a free bit there.
pub alloc-beyond :
    (p : Pmm) (k : ℕ)
    → IsValid p
    → p.start + pmm_sectors * pmm_sector_size ≤ 2 ^ 32
    → ((j : ℕ) → j < p.sectors → is_free p.map j ≡ false)
    → is_free p.map k ≡ true
    → p.start + pmm_sector_size * p.sectors ≤ (mem_phys_alloc p).0
alloc-beyond p k v fits used spare = elim (mem_phys_alloc-Alloc p v) [
  | full none_free e ↦ absurd (cc (none_free k, spare))
  | taken i f t ↦ elim (dec_lt i p.sectors) [
    | yes within ↦ absurd (cc (used i within, f.free))
    | no beyond ↦ omega (arith, t.address, f.within)
  ]
]
