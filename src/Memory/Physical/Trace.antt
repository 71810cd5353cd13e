-- ===== src/Memory/Physical/Trace.antt =====
-- The allocator over any sequence of its operations: who owns which sector.
pub mod Exact
use drupe.Base.{
  ◌==◌, if◌then◌else◌, ℕ, zero, suc, ◌+◌, ◌/◌, ◌≤◌, ◌<◌, ◌≡◌, ◌≢◌, some, List, [], ◌∷◌, ◌++◌,
}
use drupe.Memory.Physical.{
  Pmm, pmm_sectors, pmm_sector_size, sector_address, mem_phys_init, mem_phys_alloc,
  mem_phys_alloc_sectors, mem_phys_free,
}
use drupe.Memory.Physical.Bitmap.{is_free, IsValid}

-- how often a sector stands in a list
abbrev pub owners : List ℕ → ℕ → ℕ
owners [] j = 0
owners (k ∷ ks) j = (if k == j then 1 else 0) + owners ks j

-- the sectors from `i` to `i + n`
abbrev pub sectors_from : ℕ → ℕ → List ℕ
sectors_from i zero = []
sectors_from i (suc n) = i ∷ sectors_from (i + 1) n

-- The states of the allocator after `mem_phys_init`, with the list of the sectors that have been given
-- out and not been freed. A call that gives 0 changes no list, and only such sectors are freed.
pub data Reached (start size : ℕ) : Pmm → List ℕ → Type 0 where
  initial : Reached start size (mem_phys_init start size) []
  allocated :
      (p p' : Pmm) (owned : List ℕ) (a k : ℕ)
      → Reached start size p owned
      → mem_phys_alloc p ≡ (a, p')
      → a ≢ 0
      → k < pmm_sectors
      → a ≡ sector_address p k
      → Reached start size p' (k ∷ owned)
  refused :
      (p p' : Pmm) (owned : List ℕ)
      → Reached start size p owned
      → mem_phys_alloc p ≡ (0, p')
      → Reached start size p' owned
  allocated_run :
      (p p' : Pmm) (owned : List ℕ) (a i n : ℕ)
      → Reached start size p owned
      → 0 < n
      → mem_phys_alloc_sectors p n ≡ some (a, p')
      → a ≢ 0
      → i < pmm_sectors
      → a ≡ sector_address p i
      → Reached start size p' (sectors_from i n ++ owned)
  refused_run :
      (p p' : Pmm) (owned : List ℕ) (n : ℕ)
      → Reached start size p owned
      → 0 < n
      → mem_phys_alloc_sectors p n ≡ some (0, p')
      → Reached start size p' owned
  freed :
      (p p' : Pmm) (before after : List ℕ) (k : ℕ)
      → Reached start size p (before ++ k ∷ after)
      → mem_phys_free p (sector_address p k) ≡ some p'
      → Reached start size p' (before ++ after)

-- Each sector of the map is free or has one owner, and no other sector has one.
pub record IsExact (start size : ℕ) (p : Pmm) (owned : List ℕ) : Type 0 where
  pub valid : IsValid p
  pub start_is : p.start ≡ start
  pub sectors_are : p.sectors ≡ size / pmm_sector_size
  pub exact : (j : ℕ) → j < pmm_sectors → (if is_free p.map j then 1 else 0) + owners owned j ≡ 1
  pub inside : (j : ℕ) → pmm_sectors ≤ j → owners owned j ≡ 0
