-- ===== src/Memory/Physical/Tests.antt =====
-- Runs of the allocator, and the theorems at concrete bitmaps.
use drupe.Base.{
  has_bit, clear_bit, set_bit, has_bit_zero, get_or, replicate, ℕ, zero, suc, ◌+◌, ◌*◌, ◌/◌, ◌%◌,
  ◌≤◌, ◌<◌, ◌≡◌, refl, ◌≢◌, false, some, [], ◌∷◌, arith,
}
use drupe.Memory.Physical.{
  Pmm, mem_phys_alloc, mem_phys_alloc_sectors, mem_phys_free, mem_phys_init, find_bit, find_sector,
  count_run, mark_run, find_run,
}
use drupe.Memory.Physical.Bitmap.{IsValid, is_free}
use drupe.Memory.Physical.Alloc.{Alloc, mem_phys_alloc-Alloc, alloc-beyond}
use drupe.Memory.Physical.Trace.{initial, allocated, allocated_run, freed, Reached, IsExact}
use drupe.Memory.Physical.Trace.Exact.{Reached-IsExact}
use drupe.Memory.Physical.Run.{mem_phys_alloc_sectors-RunAlloc, Returns}

-- 16 MiB from 1 MiB on
abbrev booted : Pmm
booted = record { map = replicate 8192 0xFF; start = 0x100000; sectors = 2048 }

-- sectors 0 to 8 and 10 in use
abbrev partly_used : Pmm
partly_used = record { map = 0 ∷ 0xFA ∷ replicate 8190 0xFF; start = 0x100000; sectors = 2048 }

-- a memory of 8 sectors, all in use
abbrev used_up : Pmm
used_up = record { map = 0 ∷ replicate 8191 0xFF; start = 0x100000; sectors = 8 }

rest-bytes : (n i : ℕ) → get_or (replicate n 255) i 0 < 256
rest-bytes zero i = omega arith
rest-bytes (suc n) zero = omega arith
rest-bytes (suc n) (suc i) = rest-bytes n i

partly_used-bytes : (i : ℕ) → get_or partly_used.map i 0 < 256
partly_used-bytes zero = omega arith
partly_used-bytes (suc zero) = omega arith
partly_used-bytes (suc (suc i)) = rest-bytes 8190 i

partly_used-IsValid : IsValid partly_used
partly_used-IsValid = record { sized = refl; bytes = partly_used-bytes }

used_up-bytes : (i : ℕ) → get_or used_up.map i 0 < 256
used_up-bytes zero = omega arith
used_up-bytes (suc i) = rest-bytes 8191 i

used_up-IsValid : IsValid used_up
used_up-IsValid = record { sized = refl; bytes = used_up-bytes }

used_up-full : (j : ℕ) → j < 8 → is_free used_up.map j ≡ false
unfolding is_free
used_up-full j h = let low : j / 8 ≡ 0 = omega arith in rw low (has_bit_zero (j % 8) (omega arith))

first_address : (mem_phys_alloc booted).0 ≡ 0x100000
unfolding mem_phys_alloc has_bit
first_address = refl

next_address : (mem_phys_alloc partly_used).0 ≡ 0x100000 + 8192 * 9
unfolding mem_phys_alloc has_bit
next_address = refl

mem_phys_alloc-Alloc_example : Alloc partly_used (mem_phys_alloc partly_used)
mem_phys_alloc-Alloc_example = mem_phys_alloc-Alloc partly_used partly_used-IsValid

partly_used-finds : (mem_phys_alloc partly_used).0 ≢ 0
unfolding mem_phys_alloc has_bit
partly_used-finds e = cc

alloc-beyond_example : 0x100000 + 8192 * 8 ≤ (mem_phys_alloc used_up).0
unfolding is_free has_bit
alloc-beyond_example = alloc-beyond used_up 8 used_up-IsValid (omega arith) used_up-full refl

mem_phys_alloc_sectors-RunAlloc_example :
    Returns partly_used 3 0 (mem_phys_alloc_sectors partly_used 3)
mem_phys_alloc_sectors-RunAlloc_example =
    mem_phys_alloc_sectors-RunAlloc partly_used 3 partly_used-IsValid (omega arith) (omega arith)

-- 16 MiB at boot, then with sector 0 given out, then sectors 1 and 2 as a run, then sector 0 freed
abbrev start_state : Pmm
start_state = mem_phys_init 0x100000 0x1000000

abbrev after_first : Pmm
after_first = record { map = 0xFE ∷ replicate 8191 0xFF; start = 0x100000; sectors = 2048 }

abbrev after_run : Pmm
after_run = record { map = 0xF8 ∷ replicate 8191 0xFF; start = 0x100000; sectors = 2048 }

abbrev after_free : Pmm
after_free = record { map = 0xF9 ∷ replicate 8191 0xFF; start = 0x100000; sectors = 2048 }

takes_first : mem_phys_alloc start_state ≡ (0x100000, after_first)
unfolding mem_phys_init mem_phys_alloc find_sector find_bit has_bit clear_bit
takes_first = refl

takes_run : mem_phys_alloc_sectors after_first 2 ≡ some (0x102000, after_run)
unfolding mem_phys_alloc_sectors find_run count_run mark_run has_bit clear_bit
takes_run = refl

frees_first : mem_phys_free after_run 0x100000 ≡ some after_free
unfolding mem_phys_free set_bit
frees_first = refl

reached : Reached 0x100000 0x1000000 after_free (1 ∷ 2 ∷ [])
unfolding mem_phys_init
reached =
    freed after_run after_free (1 ∷ 2 ∷ []) [] 0
      (allocated_run after_first after_run (0 ∷ []) 0x102000 1 2
        (allocated start_state after_first [] 0x100000 0 initial takes_first
          (λ e. absurd (omega arith)) (omega arith) refl)
        (omega arith) takes_run (λ e. absurd (omega arith)) (omega arith) refl)
      frees_first

Reached-IsExact_example : IsExact 0x100000 0x1000000 after_free (1 ∷ 2 ∷ [])
Reached-IsExact_example =
    Reached-IsExact 0x100000 0x1000000 (omega arith) (omega arith) (omega arith) after_free
      (1 ∷ 2 ∷ []) reached
