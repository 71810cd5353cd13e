-- ===== src/Filesystem/Copy.antt =====
-- source/system/filesystem/ext2/ext2.c: memory for the file system, and copies of bytes.
pub mod Laws
pub mod Alloc
use drupe.Base.{
  ltb, ◌==◌, if◌then◌else◌, u32, Bytes, ◌>>=◌, ℕ, zero, suc, ◌+◌, ◌*◌, ◌/◌, Option, none, some,
}
use drupe.Memory.Physical.{Pmm, pmm_sector_size, mem_phys_alloc_sectors}

-- the loop of `kpmalloc`, which starts at 1; `none` if the fuel runs out
unfoldable pub count_sectors : ℕ → ℕ → ℕ → Option ℕ
count_sectors zero num_sect size = none
count_sectors (suc fuel) num_sect size =
    let rest = count_sectors fuel (u32 (num_sect + 1)) size in
    if ltb (u32 (num_sect * pmm_sector_size)) size then rest else some num_sect

-- The address, 0 for none. One round more than sectors is enough where the product does not wrap; a
-- size above 2 ^ 32 - 8192 keeps the source in its loop.
unfoldable pub kpmalloc : Pmm → ℕ → Option (ℕ × Pmm)
kpmalloc p size = count_sectors (size / pmm_sector_size + 2) 1 size >>= λ num_sect.
    mem_phys_alloc_sectors p num_sect

-- one byte stored
abbrev pub write : Bytes → ℕ → ℕ → Bytes
write m a v = λ i. if i == a then v else m i

-- `kpmemset` from index `i` on, with `left` rounds to go
unfoldable pub memset_from : ℕ → ℕ → ℕ → ℕ → Bytes → Bytes
memset_from zero i dst v m = m
memset_from (suc left) i dst v m = memset_from left (i + 1) dst v (write m (dst + i) v)

unfoldable pub kpmemset : ℕ → ℕ → ℕ → Bytes → Bytes
kpmemset dst v size m = memset_from size 0 dst v m

-- `kpmemcpy` from index `i` on, with `left` rounds to go
unfoldable pub memcpy_from : ℕ → ℕ → ℕ → ℕ → Bytes → Bytes
memcpy_from zero i dst src m = m
memcpy_from (suc left) i dst src m =
    memcpy_from left (i + 1) dst src (write m (dst + i) (m (src + i)))

unfoldable pub kpmemcpy : ℕ → ℕ → ℕ → Bytes → Bytes
kpmemcpy dst src size m = memcpy_from size 0 dst src m
