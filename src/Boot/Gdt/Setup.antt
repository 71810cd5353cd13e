-- ===== src/Boot/Gdt/Setup.antt =====
-- `gdt_setup` succeeds, whatever accessed bits the processor sets.
use drupe.Base.{
  bit_and_even, get_or, ℕ, ◌/◌, ◌%◌, ◌<◌, bit_and, ◌≡◌, refl, ap, ◌∙◌, ◌↔◌, true, List, [], ◌∷◌,
  arith,
}
use drupe.Boot.Gdt.{
  Gdt, GdtEntry, null_entry, calculate_gdt_checksum, make_entry, gdt_set_entry, entry_at,
  gdt_verify_integrity, fill_gdt, gdt_setup,
}

abbrev entry_of : List GdtEntry → ℕ → GdtEntry
entry_of es i = get_or es i null_entry

-- What loading the table may do to it: the processor sets accessed bits, the lowest bits of access
-- bytes, and never touches the null entry.
pub record IsLoad (load : List GdtEntry → List GdtEntry) : Type 0 where
  pub null_kept : (es : List GdtEntry) → entry_of (load es) 0 ≡ entry_of es 0
  pub access_kept :
      (es : List GdtEntry) (i : ℕ) → (entry_of (load es) i).access / 2 ≡ (entry_of es i).access / 2
  pub access_byte :
      (es : List GdtEntry) (i : ℕ)
      → (entry_of es i).access < 256
      → (entry_of (load es) i).access < 256

-- An access byte that differs from an even one in the accessed bit alone passes the check.
masked_access : (a want : ℕ) → a < 256 → a / 2 ≡ want / 2 → want % 2 ≡ 0 → bit_and a 0xFE ≡ want
masked_access a want h e even = omega (arith, bit_and_even a h)

abbrev filled_entries : List GdtEntry
filled_entries =
    null_entry
    ∷ make_entry 0 0xFFFFF 0x9A 0xCF
    ∷ make_entry 0 0xFFFFF 0x92 0xCF
    ∷ make_entry 0 0xFFFFF 0xFA 0xCF
    ∷ make_entry 0 0xFFFFF 0xF2 0xCF
    ∷ null_entry
    ∷ []

entries-fill_gdt : (g : Gdt) → (fill_gdt g).entries ≡ filled_entries
unfolding fill_gdt gdt_set_entry make_entry
entries-fill_gdt g = refl

-- The tests of `gdt_verify_integrity`, as facts.
pub record Intact (g : Gdt) : Type 0 where
  pub ready : g.initialized ≡ true
  pub unchanged : calculate_gdt_checksum g ≡ g.checksum
  pub null_limit : (entry_at g 0).limit_low ≡ 0
  pub null_base : (entry_at g 0).base_low ≡ 0
  pub null_access : (entry_at g 0).access ≡ 0
  pub kernel_code : bit_and (entry_at g 1).access 0xFE ≡ 0x9A
  pub kernel_data : bit_and (entry_at g 2).access 0xFE ≡ 0x92
  pub user_code : bit_and (entry_at g 3).access 0xFE ≡ 0xFA
  pub user_data : bit_and (entry_at g 4).access 0xFE ≡ 0xF2
  pub ptr_base : g.ptr.base ≡ g.address
  pub ptr_limit : g.ptr.limit ≡ 47

-- `gdt_verify_integrity` returns true exactly for an initialised table with the checksum on record,
-- the null entry clear, the four segments with their access bytes up to the accessed bit, and a
-- pointer with the address and the limit of the table.
pub gdt_verify_integrity-Intact : (g : Gdt) → (gdt_verify_integrity g ≡ true) ↔ Intact g
unfolding gdt_verify_integrity
gdt_verify_integrity-Intact g = (λ h. ground arith, λ v. ground arith)

-- `gdt_setup` returns true, and leaves a table that passes `gdt_verify_integrity`, whatever the
-- processor does to the accessed bits while it loads the table.
pub gdt_setup_lem :
    (load : List GdtEntry → List GdtEntry) (g : Gdt)
    → IsLoad load
    → let (g', done) = gdt_setup load g in (done ≡ true) × Intact g'
unfolding gdt_setup calculate_gdt_checksum
gdt_setup_lem load g l = ((gdt_verify_integrity-Intact g').1 intact, intact)
  where
    g' : Gdt
    g' = (gdt_setup load g).0

    filled : (i : ℕ) → entry_of (fill_gdt g).entries i ≡ entry_of filled_entries i
    filled i = ap (λ es. entry_of es i) (entries-fill_gdt g)

    null : entry_at g' 0 ≡ null_entry
    null = l.null_kept (fill_gdt g).entries ∙ filled 0

    code :
        (i want : ℕ)
        → (entry_of filled_entries i).access ≡ want
        → want < 256
        → want % 2 ≡ 0
        → bit_and (entry_at g' i).access 0xFE ≡ want
    code i want is byte even =
        masked_access (entry_at g' i).access want
          (l.access_byte (fill_gdt g).entries i
            (omega (arith, ap (λ (e : GdtEntry). e.access) (filled i))))
          (omega (
            arith,
            ap (λ (e : GdtEntry). e.access) (filled i),
            l.access_kept (fill_gdt g).entries i,
          ))
          even

    intact : Intact g'
    intact = record {
      ready = refl;
      unchanged = refl;
      null_limit = ap (λ (e : GdtEntry). e.limit_low) null;
      null_base = ap (λ (e : GdtEntry). e.base_low) null;
      null_access = ap (λ (e : GdtEntry). e.access) null;
      kernel_code = code 1 0x9A (unfold make_entry in refl) (omega arith) refl;
      kernel_data = code 2 0x92 (unfold make_entry in refl) (omega arith) refl;
      user_code = code 3 0xFA (unfold make_entry in refl) (omega arith) refl;
      user_data = code 4 0xF2 (unfold make_entry in refl) (omega arith) refl;
      ptr_base = refl;
      ptr_limit = refl;
    }
