-- ===== src/Filesystem/Copy/Alloc.antt =====
-- `kpmalloc` asks for as few sectors as hold the size.
use drupe.Base.{
  ltb, Bool-cases, u32, ◌>>=◌, ℕ, zero, suc, ◌+◌, ◌*◌, ◌/◌, ◌^◌, ◌≤◌, ◌<◌, ◌≡◌, refl, sym, ap,
  subst, ◌∙◌, inl, inr, true, some, arith,
}
use drupe.Memory.Physical.{Pmm, pmm_sectors, pmm_sector_size, mem_phys_alloc_sectors}
use drupe.Memory.Physical.Bitmap.{IsValid}
use drupe.Memory.Physical.Run.{Returns, mem_phys_alloc_sectors-RunAlloc}
use drupe.Filesystem.Copy.{count_sectors, kpmalloc}

-- the least number of sectors, from `lo` on, that hold `size` bytes
pub record IsLeast (lo size num : ℕ) : Type 0 where
  pub from : lo ≤ num
  pub enough : size ≤ num * pmm_sector_size
  pub least : (k : ℕ) → lo ≤ k → size ≤ k * pmm_sector_size → num ≤ k

count_sectors-step :
    (fuel lo size : ℕ)
    → u32 (lo * pmm_sector_size) ≡ lo * pmm_sector_size
    → u32 (lo + 1) ≡ lo + 1
    → ltb (lo * pmm_sector_size) size ≡ true
    → count_sectors (suc fuel) lo size ≡ count_sectors fuel (lo + 1) size
unfolding count_sectors
count_sectors-step fuel lo size no_wrap next short = rw (no_wrap, short, next) refl

count_sectors-IsLeast :
    (fuel lo size : ℕ)
    → size + pmm_sector_size < (lo + fuel) * pmm_sector_size
    → size + pmm_sector_size < 2 ^ 32
    → lo * pmm_sector_size ≤ size + pmm_sector_size
    → (num : ℕ) × (count_sectors fuel lo size ≡ some num) × IsLeast lo size num
unfolding count_sectors
count_sectors-IsLeast zero lo size enough small near = absurd (omega arith)
count_sectors-IsLeast (suc fuel) lo size enough small near =
    let no_wrap : u32 (lo * pmm_sector_size) ≡ lo * pmm_sector_size = omega arith in
    let next : u32 (lo + 1) ≡ lo + 1 = omega arith in
    elim (Bool-cases (ltb (lo * pmm_sector_size) size)) [
      | inl short ↦
          let (num, e, h) =
            count_sectors-IsLeast fuel (lo + 1) size (omega arith) small (ground arith) in
          (
            num,
            count_sectors-step fuel lo size no_wrap next short ∙ e,
            record {
              from = omega (arith, h.from);
              enough = h.enough;
              least = λ k low holds. h.least k (ground arith) holds;
            },
          )
      | inr whole ↦ (
        lo,
        rw (no_wrap, whole) refl,
        record { from = omega arith; enough = ground arith; least = λ k low holds. low },
      )
    ]

-- With a memory that the map covers `kpmalloc` ends. It asks `mem_phys_alloc_sectors` for the least
-- number of sectors, one at least, that hold the size.
pub kpmalloc-Returns :
    (p : Pmm) (size : ℕ)
    → IsValid p
    → p.sectors ≤ pmm_sectors
    → size + pmm_sector_size < 2 ^ 32
    → (num : ℕ) × IsLeast 1 size num
      × (kpmalloc p size ≡ mem_phys_alloc_sectors p num)
      × Returns p num 0 (kpmalloc p size)
unfolding kpmalloc
kpmalloc-Returns p size v covered small =
    let (num, e, h) =
      count_sectors-IsLeast (size / pmm_sector_size + 2) 1 size (omega arith) small (omega arith) in
    let asked : kpmalloc p size ≡ mem_phys_alloc_sectors p num =
      ap (λ o. o >>= λ n. mem_phys_alloc_sectors p n) e in
    (
      num,
      h,
      asked,
      subst (Returns p num 0) (sym asked)
          (mem_phys_alloc_sectors-RunAlloc p num v covered (omega (arith, h.from))),
    )
