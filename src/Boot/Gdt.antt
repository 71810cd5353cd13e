-- ===== src/Boot/Gdt.antt =====
-- source/boot/gdt/gdt.c: the global descriptor table.
pub mod Entry
pub mod Setup
pub mod Tests
use drupe.Base.{
  leb, ◌==◌, if◌then◌else◌, get_or, set, replicate, u8, u32, ◌<<<◌, ◌>>>◌, ℤ, pos, negsuc, ℕ, ◌+◌,
  ◌-◌, ◌*◌, bit_and, bit_or, Bool, true, false, not, ◌||◌, List, [], ◌∷◌, ◌++◌,
}

-- `gdt_entry_t`
pub record GdtEntry : Type 0 where
  pub limit_low : ℕ
  pub base_low : ℕ
  pub base_middle : ℕ
  pub access : ℕ
  pub granularity : ℕ
  pub base_high : ℕ

-- `gdt_ptr_t`
pub record GdtPtr : Type 0 where
  pub limit : ℕ
  pub base : ℕ

abbrev pub null_entry : GdtEntry
null_entry = record {
  limit_low = 0;
  base_low = 0;
  base_middle = 0;
  access = 0;
  granularity = 0;
  base_high = 0;
}

abbrev pub gdt_entries_count : ℕ
gdt_entries_count = 6

abbrev pub gdt_tss_entry : ℕ
gdt_tss_entry = 5

abbrev pub gdt_tss_sel : ℕ
gdt_tss_sel = 0x28

abbrev pub gdt_kernel_code_sel : ℕ
gdt_kernel_code_sel = 0x08

abbrev pub gdt_kernel_data_sel : ℕ
gdt_kernel_data_sel = 0x10

-- `gdt_entries`, with its address, `gdt_ptr`, `gdt_checksum` and `gdt_initialized`
pub record Gdt : Type 0 where
  pub entries : List GdtEntry
  pub address : ℕ
  pub ptr : GdtPtr
  pub checksum : ℕ
  pub initialized : Bool

-- The eight bytes of an entry, in the order of the packed structure.
unfoldable pub entry_bytes : GdtEntry → List ℕ
entry_bytes e =
    u8 e.limit_low
    ∷ u8 (e.limit_low >>> 8)
    ∷ u8 e.base_low
    ∷ u8 (e.base_low >>> 8)
    ∷ u8 e.base_middle
    ∷ u8 e.access
    ∷ u8 e.granularity
    ∷ u8 e.base_high
    ∷ []

unfoldable pub table_bytes : List GdtEntry → List ℕ
unfolding entry_bytes
table_bytes [] = []
table_bytes (e ∷ es) = entry_bytes e ++ table_bytes es

-- the loop of `calculate_gdt_checksum`
unfoldable pub checksum_from : ℕ → List ℕ → ℕ
checksum_from checksum [] = checksum
checksum_from checksum (b ∷ bs) =
    let sum = u32 (checksum + b) in checksum_from (bit_or (u32 (sum <<< 1)) (sum >>> 31)) bs

unfoldable pub calculate_gdt_checksum : Gdt → ℕ
unfolding table_bytes checksum_from
calculate_gdt_checksum g = checksum_from 0 (table_bytes g.entries)

-- the entry that `gdt_set_entry` writes
unfoldable pub make_entry : ℕ → ℕ → ℕ → ℕ → GdtEntry
make_entry base limit access gran = record {
  base_low = bit_and base 0xFFFF;
  base_middle = bit_and (base >>> 16) 0xFF;
  base_high = bit_and (base >>> 24) 0xFF;
  limit_low = bit_and limit 0xFFFF;
  granularity = bit_or (bit_and (limit >>> 16) 0x0F) (bit_and gran 0xF0);
  access = access;
}

unfoldable pub gdt_set_entry : Gdt → ℤ → ℕ → ℕ → ℕ → ℕ → Gdt
unfolding make_entry
gdt_set_entry g (negsuc i) base limit access gran = g
gdt_set_entry g (pos i) base limit access gran =
    if leb gdt_entries_count i
    then g
    else record g { entries = set g.entries i (make_entry base limit access gran) }

abbrev pub entry_at : Gdt → ℕ → GdtEntry
entry_at g i = get_or g.entries i null_entry

-- `(access & 0xFE) != want`
abbrev pub access_differs : Gdt → ℕ → ℕ → Bool
access_differs g i want = not (bit_and (entry_at g i).access 0xFE == want)

unfoldable pub gdt_verify_integrity : Gdt → Bool
gdt_verify_integrity g =
    if not g.initialized
    then false
    else (if not (calculate_gdt_checksum g == g.checksum)
        then false
        else (if not ((entry_at g 0).limit_low == 0)
              || not ((entry_at g 0).base_low == 0)
              || not ((entry_at g 0).access == 0)
            then false
            else (if access_differs g 1 0x9A
                then false
                else (if access_differs g 2 0x92
                    then false
                    else (if access_differs g 3 0xFA
                        then false
                        else (if access_differs g 4 0xF2
                            then false
                            else (if not (g.ptr.base == g.address)
                                  || not (g.ptr.limit == 8 * gdt_entries_count - 1)
                                then false
                                else true)))))))

-- the six calls and the pointer, before `gdt_load`
unfoldable pub fill_gdt : Gdt → Gdt
unfolding gdt_set_entry
fill_gdt g =
    let g0 = record g { entries = replicate gdt_entries_count null_entry } in
    let g1 = gdt_set_entry g0 (pos 0) 0 0 0 0 in
    let g2 = gdt_set_entry g1 (pos 1) 0 0xFFFFF 0x9A 0xCF in
    let g3 = gdt_set_entry g2 (pos 2) 0 0xFFFFF 0x92 0xCF in
    let g4 = gdt_set_entry g3 (pos 3) 0 0xFFFFF 0xFA 0xCF in
    let g5 = gdt_set_entry g4 (pos 4) 0 0xFFFFF 0xF2 0xCF in
    record g5 { ptr = record { limit = 8 * gdt_entries_count - 1; base = g.address } }

-- `load` is what the processor makes of the entries while it loads the table and the segment
-- registers. The new state, and the result.
module _ (load : List GdtEntry → List GdtEntry) where
  unfoldable pub gdt_setup : Gdt → Gdt × Bool
  unfolding fill_gdt gdt_verify_integrity
  gdt_setup g =
      let filled = fill_gdt g in
      let loaded = record filled { entries = load filled.entries } in
      let g' = record loaded { checksum = calculate_gdt_checksum loaded; initialized = true } in
      (g', gdt_verify_integrity g')
