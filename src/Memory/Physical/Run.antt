-- ===== src/Memory/Physical/Run.antt =====
-- `mem_phys_alloc_sectors`: the first run of free sectors that is long enough.
use drupe.Base.{
  ltb, leb, ◌==◌, if◌then◌else◌, ==_iff, Bool-cases, has_bit, length, get_or, get_elem?-eq-get_or,
  ◌>>=◌, ℕ, zero, suc, ◌+◌, ◌-◌, ◌*◌, ◌/◌, ◌%◌, ◌≤◌, ◌<◌, ◌≡◌, refl, subst, inl, inr, true, false,
  ◌&&◌, ◌||◌, Option, none, some, List, arith,
}
use native.Mathlib.Decide.{dec_lt}
use drupe.Memory.Physical.{
  Pmm, pmm_sectors, sector_address, clear_at, count_run, mark_run, find_run, mem_phys_alloc_sectors,
}
use drupe.Memory.Physical.Bitmap.{is_free, IsValid, clear_at-IsValid, is_free-clear_at}

-- The sectors from `i` to `i + n` are free.
abbrev pub IsRun : List ℕ → ℕ → ℕ → Type 0
IsRun map i n = (j : ℕ) → j < n → is_free map (i + j) ≡ true

-- what `count_run` finds behind `j` free sectors
abbrev Counted : ℕ → ℕ → ℕ → List ℕ → Option ℕ → Type 0
Counted left j i map none = ⊥
Counted left j i map (some m) =
    (j ≤ m)
    × (m ≤ j + left)
    × ((d : ℕ) → j ≤ d → d < m → is_free map (i + d) ≡ true)
    × (m < j + left → is_free map (i + m) ≡ false)

count_run-Counted :
    (left j i : ℕ) (map : List ℕ)
    → i + j + left ≤ length map * 8
    → Counted left j i map (count_run left j i map)
unfolding count_run is_free
count_run-Counted zero j i map h =
    (omega arith, omega arith, λ d p q. absurd (omega arith), λ p. absurd (omega arith))
count_run-Counted (suc left) j i map h =
    rw (get_elem?-eq-get_or map ((i + j) / 8) 0 (omega arith))
      (elim (Bool-cases (has_bit (get_or map ((i + j) / 8) 0) ((i + j) % 8))) [
        | inl free ↦ rw free (
            longer (count_run left (j + 1) i map)
              (count_run-Counted left (j + 1) i map (omega arith)) free)
        | inr used ↦ rw used (omega arith, omega arith, λ d p q. absurd (omega arith), λ p. used)
      ])
  where
    longer :
        (o : Option ℕ)
        → Counted left (j + 1) i map o
        → has_bit (get_or map ((i + j) / 8) 0) ((i + j) % 8) ≡ true
        → Counted (suc left) j i map o
    longer none c free = c
    longer (some m) c free = (
      omega arith,
      omega arith,
      λ d p q. elim (dec_lt j d) [
        | yes above ↦ c.2 d (omega arith) q
        | no here ↦ subst (λ k. is_free map (i + k) ≡ true) (omega arith) free
      ],
      λ p. c.3 (omega arith),
    )

-- what marking the sectors from `i + j` on does to the set
mark_run_lem :
    (left j i : ℕ) (p : Pmm)
    → IsValid p
    → i + j + left ≤ length p.map * 8
    → IsValid (record p { map = mark_run left j i p.map })
      × ((k : ℕ)
          → is_free (mark_run left j i p.map) k
            ≡ (if leb (i + j) k && ltb k (i + j + left) then false else is_free p.map k))
unfolding mark_run
mark_run_lem zero j i p v h = (v, λ k. ground arith)
mark_run_lem (suc left) j i p v h =
    let p' : Pmm = record p { map = clear_at p.map ((i + j) / 8) ((i + j) % 8) } in
    let v' = clear_at-IsValid ((i + j) / 8) ((i + j) % 8) v in
    let ih = mark_run_lem left (j + 1) i p' v' (omega (arith, v.sized, v'.sized)) in
    (ih.0, λ k. ground (arith, ih.1 k, is_free-clear_at p.map (i + j) k v.bytes (omega arith)))

-- Sectors `i` to `i + n` are the first run of `n` free ones below `limit`, `r` gives the address of
-- the first of them, and after it exactly these are no longer free.
pub record TakesRun (p : Pmm) (n i : ℕ) (r : ℕ × Pmm) : Type 0 where
  pub run : IsRun p.map i n
  pub within : i + n ≤ p.sectors
  pub address : r.0 ≡ sector_address p i
  pub free_after :
      (k : ℕ) → is_free r.1.map k ≡ (if leb i k && ltb k (i + n) then false else is_free p.map k)
  pub still_valid : IsValid r.1
  pub same_start : r.1.start ≡ p.start
  pub same_sectors : r.1.sectors ≡ p.sectors

-- the two outcomes, for the runs from sector `lo` on
pub data RunAlloc (p : Pmm) (n lo : ℕ) (r : ℕ × Pmm) : Type 0 where
  no_run :
      r ≡ (0, p) → ((i : ℕ) → lo ≤ i → i + n ≤ p.sectors → ¬ IsRun p.map i n) → RunAlloc p n lo r
  took :
      (i : ℕ)
      → lo ≤ i
      → TakesRun p n i r
      → ((m : ℕ) → lo ≤ m → m < i → ¬ IsRun p.map m n)
      → RunAlloc p n lo r

-- the call returns, and with one of the two outcomes
abbrev pub Returns : Pmm → ℕ → ℕ → Option (ℕ × Pmm) → Type 0
Returns p n lo none = ⊥
Returns p n lo (some r) = RunAlloc p n lo r

RunAlloc-skip :
    (p : Pmm) (n lo : ℕ) (o : Option (ℕ × Pmm))
    → ¬ IsRun p.map lo n
    → Returns p n (lo + 1) o
    → Returns p n lo o
RunAlloc-skip p n lo none bad h = h
RunAlloc-skip p n lo (some r) bad (no_run e none_free) = no_run e λ i h k run. elim (dec_lt lo i) [
  | yes above ↦ none_free i (omega arith) k run
  | no here ↦ bad (subst (λ m. IsRun p.map m n) (omega arith) run)
]
RunAlloc-skip p n lo (some r) bad (took i h t least) = took i (omega arith) t λ m l k run.
    elim (dec_lt lo m) [
      | yes above ↦ least m (omega arith) k run
      | no here ↦ bad (subst (λ m. IsRun p.map m n) (omega arith) run)
    ]

TakesRun-here :
    (i n : ℕ) (p : Pmm)
    → IsValid p
    → i + n ≤ p.sectors
    → p.sectors ≤ pmm_sectors
    → IsRun p.map i n
    → TakesRun p n i (sector_address p i, record p { map = mark_run n 0 i p.map })
TakesRun-here i n p v within small run =
    let m = mark_run_lem n 0 i p v (omega (arith, v.sized)) in
    record {
      run = run;
      within = within;
      address = refl;
      free_after = λ k. ground (arith, m.1 k);
      still_valid = m.0;
      same_start = refl;
      same_sectors = refl;
    }

-- one round of the outer loop
find_run_step :
    (i n : ℕ) (p : Pmm) (o : Option ℕ) (rest : Option (ℕ × Pmm))
    → IsValid p
    → i + n ≤ p.sectors
    → p.sectors ≤ pmm_sectors
    → Counted n 0 i p.map o
    → Returns p n (i + 1) rest
    → Returns p n i (
        o >>= λ j.
        if j == n then some (sector_address p i, record p { map = mark_run n 0 i p.map }) else rest)
find_run_step i n p none rest v within small c h = c
find_run_step i n p (some j) rest v within small c h = elim (Bool-cases (j == n)) [
  | inl whole ↦ rw whole (
      took i (omega arith)
        (TakesRun-here i n p v within small
          (λ d l. c.2 d (omega arith) (ground (arith, (==_iff j n).0 whole))))
        (λ m l k run. omega arith))
  | inr short ↦
      rw short (RunAlloc-skip p n i rest (λ run. cc (run j (ground arith), c.3 (ground arith))) h)
]

find_run-Returns :
    (left i n : ℕ) (p : Pmm)
    → IsValid p
    → p.sectors ≤ pmm_sectors
    → i + left + n ≡ p.sectors + 1
    → Returns p n i (find_run left i n p)
unfolding find_run
find_run-Returns zero i n p v small e = no_run refl (λ k l h run. absurd (omega arith))
find_run-Returns (suc left) i n p v small e =
    find_run_step i n p (count_run n 0 i p.map) (find_run left (i + 1) n p) v (omega arith) small
      (count_run-Counted n 0 i p.map (omega (arith, v.sized)))
      (find_run-Returns left (i + 1) n p v small (omega arith))

-- For one sector at least, with a valid map and a memory that it covers, `mem_phys_alloc_sectors` reads
-- nothing beyond the map. It gives 0 and changes nothing if no run of `n` free sectors lies within the
-- memory. Otherwise it gives the address of the first such run, and takes exactly its sectors.
pub mem_phys_alloc_sectors-RunAlloc :
    (p : Pmm) (n : ℕ)
    → IsValid p
    → p.sectors ≤ pmm_sectors
    → 0 < n
    → Returns p n 0 (mem_phys_alloc_sectors p n)
unfolding mem_phys_alloc_sectors
mem_phys_alloc_sectors-RunAlloc p n v small some_wanted =
    elim (Bool-cases (n == 0 || ltb p.sectors n)) [
      | inl more ↦ rw more (no_run refl (λ i l k run. ground arith))
      | inr fits ↦ rw fits (find_run-Returns (p.sectors - n + 1) 0 n p v small (ground arith))
    ]
