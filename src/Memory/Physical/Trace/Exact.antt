-- ===== src/Memory/Physical/Trace/Exact.antt =====
-- In every state that the allocator reaches, each sector is free or has one owner.
use drupe.Base.{
  ltb, leb, ◌==◌, if◌then◌else◌, ==_iff, ℕ, zero, suc, ◌+◌, ◌-◌, ◌*◌, ◌^◌, ◌≤◌, ◌<◌, ◌≡◌, refl, sym,
  ap, subst, ◌∙◌, ◌≢◌, Bool, true, false, ◌&&◌, some, List, [], ◌∷◌, ◌++◌, arith,
}
use native.Mathlib.Decide.{dec_lt}
use drupe.Memory.Physical.{
  Pmm, pmm_sectors, pmm_sector_size, sector_address, mem_phys_init, mem_phys_alloc,
  mem_phys_alloc_sectors, mem_phys_free,
}
use drupe.Memory.Physical.Bitmap.{is_free, mem_phys_init-IsValid, mem_phys_init-free}
use drupe.Memory.Physical.Alloc.{
  Alloc, Takes, mem_phys_alloc-Alloc, mem_phys_free_lem, address_injective, full, taken,
}
use drupe.Memory.Physical.Run.{Returns, TakesRun, no_run, took, mem_phys_alloc_sectors-RunAlloc}
use drupe.Memory.Physical.Trace.{
  owners, sectors_from, Reached, initial, allocated, refused, allocated_run, refused_run, freed,
  IsExact,
}

owners-append : (xs ys : List ℕ) (j : ℕ) → owners (xs ++ ys) j ≡ owners xs j + owners ys j
owners-append [] ys j = omega arith
owners-append (x ∷ xs) ys j = omega (arith, owners-append xs ys j)

owners-sectors_from :
    (i n j : ℕ) → owners (sectors_from i n) j ≡ (if leb i j && ltb j (i + n) then 1 else 0)
owners-sectors_from i zero j = ground arith
owners-sectors_from i (suc n) j = ground (arith, owners-sectors_from (i + 1) n j)

-- a sector that is taken, and one that is given back, against the number of its owners
tally :
    (taken free left : Bool) (n : ℕ)
    → left ≡ (if taken then false else free)
    → (taken ≡ true → free ≡ true)
    → (if free then 1 else 0) + n ≡ 1
    → (if left then 1 else 0) + ((if taken then 1 else 0) + n) ≡ 1
tally true true left n e own exact = rw e (omega (arith, exact))
tally true false left n e own exact = cc (own refl)
tally false true left n e own exact = rw e (omega (arith, exact))
tally false false left n e own exact = rw e (omega (arith, exact))

untally :
    (given free left : Bool) (n : ℕ)
    → left ≡ (if given then true else free)
    → (if free then 1 else 0) + ((if given then 1 else 0) + n) ≡ 1
    → (if left then 1 else 0) + n ≡ 1
untally true true left n e exact = absurd (omega (arith, exact))
untally true false left n e exact = rw e (omega (arith, exact))
untally false true left n e exact = rw e (omega (arith, exact))
untally false false left n e exact = rw e (omega (arith, exact))

module _ (start size : ℕ) (some_start : 0 < start)
    (fits : start + pmm_sectors * pmm_sector_size ≤ 2 ^ 32)
    (covered : size ≤ pmm_sectors * pmm_sector_size) where
  initial-IsExact : IsExact start size (mem_phys_init start size) []
  unfolding mem_phys_init
  initial-IsExact = record {
    valid = mem_phys_init-IsValid start size;
    start_is = refl;
    sectors_are = refl;
    exact = λ j h. let e = mem_phys_init-free start size j h in rw e refl;
    inside = λ j h. refl;
  }

  -- one sector more
  Takes-IsExact :
      (p p' : Pmm) (owned : List ℕ) (a k : ℕ)
      → IsExact start size p owned
      → k < pmm_sectors
      → is_free p.map k ≡ true
      → Takes p k (a, p')
      → IsExact start size p' (k ∷ owned)
  Takes-IsExact p p' owned a k inv within free t = record {
    valid = t.still_valid;
    start_is = t.same_start ∙ inv.start_is;
    sectors_are = t.same_sectors ∙ inv.sectors_are;
    exact = λ j h.
        tally (k == j) (is_free p.map j) (is_free p'.map j) (owners owned j) (t.free_after j)
          (λ hit. subst (λ m. is_free p.map m ≡ true) ((==_iff k j).0 hit) free) (inv.exact j h);
    inside = λ j h. ground (arith, inv.inside j h);
  }

  -- a run of sectors more
  TakesRun-IsExact :
      (p p' : Pmm) (owned : List ℕ) (a i n : ℕ)
      → IsExact start size p owned
      → TakesRun p n i (a, p')
      → IsExact start size p' (sectors_from i n ++ owned)
  TakesRun-IsExact p p' owned a i n inv t = record {
    valid = t.still_valid;
    start_is = t.same_start ∙ inv.start_is;
    sectors_are = t.same_sectors ∙ inv.sectors_are;
    exact = λ j h.
        let mine = owners-append (sectors_from i n) owned j in
        let run = owners-sectors_from i n j in
        let e =
          tally (leb i j && ltb j (i + n)) (is_free p.map j) (is_free p'.map j) (owners owned j)
            (t.free_after j) (in_run j) (inv.exact j h) in
        rw (mine, run) e;
    inside = λ j h. ground (
      arith,
      inv.inside j h,
      owners-append (sectors_from i n) owned j,
      owners-sectors_from i n j,
      t.within,
      inv.sectors_are,
    );
  }
    where
      in_run : (j : ℕ) → (leb i j && ltb j (i + n)) ≡ true → is_free p.map j ≡ true
      in_run j h =
          let at : i + (j - i) ≡ j = ground arith in
          subst (λ m. is_free p.map m ≡ true) at (t.run (j - i) (ground arith))

  allocated-IsExact :
      (p p' : Pmm) (owned : List ℕ) (a k : ℕ)
      → IsExact start size p owned
      → mem_phys_alloc p ≡ (a, p')
      → a ≢ 0
      → k < pmm_sectors
      → a ≡ sector_address p k
      → IsExact start size p' (k ∷ owned)
  allocated-IsExact p p' owned a k inv e found inside at =
      elim (subst (Alloc p) e (mem_phys_alloc-Alloc p inv.valid)) [
        | full none_free failed ↦ absurd (found (ap (λ (r : ℕ × Pmm). r.0) failed))
        | taken k' f t ↦
            let same : k' ≡ k =
              address_injective p k' k f.within inside (omega (arith, inv.start_is))
                (sym t.address ∙ at) in
            subst (λ k. IsExact start size p' (k ∷ owned)) same
              (Takes-IsExact p p' owned a k' inv f.within f.free t)
      ]

  refused-IsExact :
      (p p' : Pmm) (owned : List ℕ)
      → IsExact start size p owned
      → mem_phys_alloc p ≡ (0, p')
      → IsExact start size p' owned
  refused-IsExact p p' owned inv e = elim (subst (Alloc p) e (mem_phys_alloc-Alloc p inv.valid)) [
    | full none_free failed ↦
        subst (λ p. IsExact start size p owned) (sym (ap (λ (r : ℕ × Pmm). r.1) failed)) inv
    | taken k f t ↦ absurd (omega (arith, t.address, f.within, inv.start_is))
  ]

  allocated_run-IsExact :
      (p p' : Pmm) (owned : List ℕ) (a i n : ℕ)
      → IsExact start size p owned
      → 0 < n
      → mem_phys_alloc_sectors p n ≡ some (a, p')
      → a ≢ 0
      → i < pmm_sectors
      → a ≡ sector_address p i
      → IsExact start size p' (sectors_from i n ++ owned)
  allocated_run-IsExact p p' owned a i n inv some_wanted e found inside at =
      elim (subst (Returns p n 0) e (
        mem_phys_alloc_sectors-RunAlloc p n inv.valid (omega (arith, inv.sectors_are))
          some_wanted)) [
            | no_run failed none_free ↦ absurd (found (ap (λ (r : ℕ × Pmm). r.0) failed))
            | took i' low t first ↦
                let same : i' ≡ i =
                  address_injective p i' i (omega (arith, t.within, inv.sectors_are)) inside
                    (omega (arith, inv.start_is)) (sym t.address ∙ at) in
                subst (λ i. IsExact start size p' (sectors_from i n ++ owned)) same
                  (TakesRun-IsExact p p' owned a i' n inv t)
          ]

  refused_run-IsExact :
      (p p' : Pmm) (owned : List ℕ) (n : ℕ)
      → IsExact start size p owned
      → 0 < n
      → mem_phys_alloc_sectors p n ≡ some (0, p')
      → IsExact start size p' owned
  refused_run-IsExact p p' owned n inv some_wanted e =
      elim (subst (Returns p n 0) e (
        mem_phys_alloc_sectors-RunAlloc p n inv.valid (omega (arith, inv.sectors_are))
          some_wanted)) [
            | no_run failed none_free ↦
                subst (λ p. IsExact start size p owned) (sym (ap (λ (r : ℕ × Pmm). r.1) failed)) inv
            | took i low t first ↦
                absurd (omega (arith, t.address, t.within, inv.start_is, inv.sectors_are))
          ]

  freed-IsExact :
      (p p' : Pmm) (before after : List ℕ) (k : ℕ)
      → IsExact start size p (before ++ k ∷ after)
      → mem_phys_free p (sector_address p k) ≡ some p'
      → IsExact start size p' (before ++ after)
  freed-IsExact p p' before after k inv e =
      let (q, done, free_after, valid, same_start, same_sectors) =
        mem_phys_free_lem p k inv.valid inside (omega (arith, inv.start_is)) in
      let same : q ≡ p' = cc in
      subst (λ p. IsExact start size p (before ++ after)) same
        (record {
          valid = valid;
          start_is = same_start ∙ inv.start_is;
          sectors_are = same_sectors ∙ inv.sectors_are;
          exact = λ j h.
              untally (k == j) (is_free p.map j) (is_free q.map j) (owners (before ++ after) j)
                (free_after j)
                (omega (arith, inv.exact j h, split j, owners-append before after j));
          inside = λ j h. omega (arith, inv.inside j h, split j, owners-append before after j);
        })
    where
      split :
          (j : ℕ)
          → owners (before ++ k ∷ after) j
            ≡ owners before j + ((if k == j then 1 else 0) + owners after j)
      split j = owners-append before (k ∷ after) j

      inside : k < pmm_sectors
      inside = elim (dec_lt k pmm_sectors) [
        | yes below ↦ below
        | no beyond ↦
            let mine : (k == k) ≡ true = (==_iff k k).1 refl in
            absurd (ground (arith, inv.inside k (omega arith), split k, mine))
      ]

  -- With memory that starts above address 0, that does not wrap and that the map covers, in every state
  -- that the operations reach the map is valid, the memory is that of `mem_phys_init`, each sector of
  -- the map is free or has exactly one owner, and no sector beyond the map has one. So no two live
  -- allocations share a sector.
  pub Reached-IsExact :
      (p : Pmm) (owned : List ℕ) → Reached start size p owned → IsExact start size p owned
  Reached-IsExact p owned initial = initial-IsExact
  Reached-IsExact p owned (allocated q p' os a k h e found inside at) =
      allocated-IsExact q p os a k (Reached-IsExact q os h) e found inside at
  Reached-IsExact p owned (refused q p' os h e) =
      refused-IsExact q p owned (Reached-IsExact q os h) e
  Reached-IsExact p owned (allocated_run q p' os a i n h some_wanted e found inside at) =
      allocated_run-IsExact q p os a i n (Reached-IsExact q os h) some_wanted e found inside at
  Reached-IsExact p owned (refused_run q p' os n h some_wanted e) =
      refused_run-IsExact q p owned n (Reached-IsExact q os h) some_wanted e
  Reached-IsExact p owned (freed q p' before after k h e) =
      freed-IsExact q p before after k (Reached-IsExact q (before ++ k ∷ after) h) e
