-- ===== src/Boot/Gdt/Tests.antt =====
-- The theorems on the descriptor table at concrete tables.
use drupe.Base.{
  get_or, replicate, pos, ℕ, zero, suc, ◌+◌, ◌*◌, ◌/◌, ◌<◌, ◌≡◌, refl, true, false, List, [], ◌∷◌,
  arith,
}
use drupe.Boot.Gdt.{
  Gdt, GdtEntry, null_entry, calculate_gdt_checksum, gdt_set_entry, gdt_verify_integrity, gdt_setup,
}
use drupe.Boot.Gdt.Setup.{IsLoad, Intact, gdt_setup_lem}

abbrev cold : Gdt
cold = record {
  entries = replicate 6 null_entry;
  address = 0x108000;
  ptr = record { limit = 0; base = 0 };
  checksum = 0;
  initialized = false;
}

-- a processor that sets the accessed bit of the kernel's code segment
abbrev pub mark_code : List GdtEntry → List GdtEntry
mark_code [] = []
mark_code (n ∷ []) = n ∷ []
mark_code (n ∷ c ∷ es) = n ∷ record c { access = c.access / 2 * 2 + 1 } ∷ es

mark_code-kept :
    (es : List GdtEntry) (i : ℕ)
    → (get_or (mark_code es) i null_entry).access / 2 ≡ (get_or es i null_entry).access / 2
mark_code-kept [] i = refl
mark_code-kept (n ∷ []) i = refl
mark_code-kept (n ∷ c ∷ es) zero = refl
mark_code-kept (n ∷ c ∷ es) (suc zero) = omega arith
mark_code-kept (n ∷ c ∷ es) (suc (suc i)) = refl

mark_code-byte :
    (es : List GdtEntry) (i : ℕ)
    → (get_or es i null_entry).access < 256
    → (get_or (mark_code es) i null_entry).access < 256
mark_code-byte [] i h = h
mark_code-byte (n ∷ []) i h = h
mark_code-byte (n ∷ c ∷ es) zero h = h
mark_code-byte (n ∷ c ∷ es) (suc zero) h = omega arith
mark_code-byte (n ∷ c ∷ es) (suc (suc i)) h = h

mark_code-null : (es : List GdtEntry) → get_or (mark_code es) 0 null_entry ≡ get_or es 0 null_entry
mark_code-null [] = refl
mark_code-null (n ∷ []) = refl
mark_code-null (n ∷ c ∷ es) = refl

pub mark_code-IsLoad : IsLoad mark_code
mark_code-IsLoad = record {
  null_kept = mark_code-null;
  access_kept = mark_code-kept;
  access_byte = mark_code-byte;
}

gdt_setup_lem_example : ((gdt_setup mark_code cold).1 ≡ true) × Intact (gdt_setup mark_code cold).0
gdt_setup_lem_example = gdt_setup_lem mark_code cold mark_code-IsLoad

-- The descriptor of the task state segment goes in behind the checksum, which then fails.
abbrev tss_installed : Gdt
tss_installed = gdt_set_entry (gdt_setup mark_code cold).0 (pos 5) 0x109000 103 0x89 0x00

refused_behind_tss : gdt_verify_integrity tss_installed ≡ false
unfolding gdt_verify_integrity gdt_set_entry gdt_setup calculate_gdt_checksum
refused_behind_tss = refl
