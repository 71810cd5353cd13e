-- ===== src/Memory/Physical.antt =====
-- source/system/memory/physical.c: sectors of 8 KiB in a bitmap of 65536 bits, a set bit for a free
-- sector.
pub mod Bitmap
pub mod Alloc
pub mod Run
pub mod Trace
pub mod Tests
use drupe.Base.{
  ltb, ◌==◌, if◌then◌else◌, has_bit, clear_bit, set_bit, length, get_elem?, get_or, set, replicate,
  u32, sub32, ◌>>=◌, ℕ, zero, suc, ◌+◌, ◌-◌, ◌*◌, ◌/◌, ◌%◌, ◌||◌, Option, none, some, List, [], ◌∷◌,
}

abbrev pub pmm_sectors : ℕ
pmm_sectors = 65536

abbrev pub pmm_sector_size : ℕ
pmm_sector_size = 8192

-- `mem_phys_map`, `mem_phys_start` and `mem_phys_sectors`
pub record Pmm : Type 0 where
  pub map : List ℕ
  pub start : ℕ
  pub sectors : ℕ

-- The loop writes every byte of the map.
unfoldable pub mem_phys_init : ℕ → ℕ → Pmm
mem_phys_init start total_size = record {
  map = replicate (pmm_sectors / 8) 0xFF;
  start = start;
  sectors = total_size / pmm_sector_size;
}

-- the address of a sector
abbrev pub sector_address : Pmm → ℕ → ℕ
sector_address p k = u32 (p.start + pmm_sector_size * k)

-- the map with bit `m` of byte `b` cleared, or set
abbrev pub clear_at : List ℕ → ℕ → ℕ → List ℕ
clear_at map b m = set map b (clear_bit (get_or map b 0) m)

abbrev pub set_at : List ℕ → ℕ → ℕ → List ℕ
set_at map b m = set map b (set_bit (get_or map b 0) m)

-- the inner loop of `mem_phys_alloc`, with `left` rounds to go
unfoldable pub find_bit : ℕ → ℕ → ℕ → Option ℕ
find_bit zero b c = none
find_bit (suc left) b c = let rest = find_bit left (b + 1) c in if has_bit c b then some b else rest

-- the early return of `mem_phys_alloc` in byte `i`, or what the later bytes give
abbrev pub sector_or : ℕ → Option ℕ → Option (ℕ × ℕ) → Option (ℕ × ℕ)
sector_or i none rest = rest
sector_or i (some b) rest = some (i, b)

-- the outer loop, over the bytes from index `i` on
unfoldable pub find_sector : List ℕ → ℕ → Option (ℕ × ℕ)
unfolding find_bit
find_sector [] i = none
find_sector (c ∷ cs) i =
    let rest = find_sector cs (i + 1) in if c == 0 then rest else sector_or i (find_bit 8 0 c) rest

-- The address, 0 for none, and the new state.
unfoldable pub mem_phys_alloc : Pmm → ℕ × Pmm
unfolding find_sector
mem_phys_alloc p = elim (find_sector p.map 0) [
  | none ↦ (0, p)
  | some (i, b) ↦ (sector_address p (i * 8 + b), record p { map = clear_at p.map i b })
]

-- The number of free sectors found from sector `i` on, at most `j + left`; `none` for a read
-- beyond the map.
unfoldable pub count_run : ℕ → ℕ → ℕ → List ℕ → Option ℕ
count_run zero j i map = some j
count_run (suc left) j i map = do
  c ← get_elem? map ((i + j) / 8)
  let rest = count_run left (j + 1) i map
  if has_bit c ((i + j) % 8) then rest else some j

-- the loop that marks the sectors from `i + j` on
unfoldable pub mark_run : ℕ → ℕ → ℕ → List ℕ → List ℕ
mark_run zero j i map = map
mark_run (suc left) j i map = mark_run left (j + 1) i (clear_at map ((i + j) / 8) ((i + j) % 8))

-- the loop over the first sector, with `left` rounds to go
unfoldable pub find_run : ℕ → ℕ → ℕ → Pmm → Option (ℕ × Pmm)
unfolding count_run mark_run
find_run zero i n p = some (0, p)
find_run (suc left) i n p = do
  j ← count_run n 0 i p.map
  let rest = find_run left (i + 1) n p
  if j == n then some (sector_address p i, record p { map = mark_run n 0 i p.map }) else rest

-- `none` for a read beyond the map, which the C code does not rule out.
unfoldable pub mem_phys_alloc_sectors : Pmm → ℕ → Option (ℕ × Pmm)
unfolding find_run
mem_phys_alloc_sectors p n =
    if n == 0 || ltb p.sectors n then some (0, p) else find_run (p.sectors - n + 1) 0 n p

-- the sector that an address is taken for
abbrev pub sector_of : Pmm → ℕ → ℕ
sector_of p addr = sub32 addr p.start / pmm_sector_size

-- `none` for a write beyond the map.
unfoldable pub mem_phys_free : Pmm → ℕ → Option Pmm
mem_phys_free p addr =
    let offset = sector_of p addr in
    if ltb (offset / 8) (length p.map)
    then some (record p { map = set_at p.map (offset / 8) (offset % 8) })
    else none
