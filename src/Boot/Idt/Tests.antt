-- ===== src/Boot/Idt/Tests.antt =====
-- The theorems on the interrupt table at a concrete table.
use drupe.Base.{replicate, ℕ, ◌+◌, ◌*◌, false}
use drupe.Boot.Gdt.{Gdt, null_entry}
use drupe.Boot.Idt.{Idt, zero_entry}

abbrev pub cold_gdt : Gdt
cold_gdt = record {
  entries = replicate 6 null_entry;
  address = 0x108000;
  ptr = record { limit = 0; base = 0 };
  checksum = 0;
  initialized = false;
}

abbrev pub cold : Idt
cold = record {
  entries = replicate 256 zero_entry;
  address = 0x109000;
  ptr = record { limit = 0; base = 0 };
  tss = record { esp0 = 0; ss0 = 0; cs = 0; ss = 0; ds = 0; es = 0; fs = 0; gs = 0 };
  tss_address = 0x10A000;
  initialized = false;
}

-- the stubs, 32 bytes each from 0x101000 on
abbrev pub stubs : ℕ → ℕ
stubs v = 0x101000 + 32 * v
