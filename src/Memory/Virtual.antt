-- ===== src/Memory/Virtual.antt =====
-- source/system/memory/virtual.c: only `mem_virt_init` is live code, the rest is commented out.
use drupe.Base.{replicate, ℕ, ◌*◌, ◌/◌, List}

abbrev pub vmm_total_sectors : ℕ
vmm_total_sectors = 65536

abbrev pub vmm_sector_size : ℕ
vmm_sector_size = 2 * 4096

-- `mem_virt_map`, `mem_virt_start` and `mem_virt_sectors`
pub record Vmm : Type 0 where
  pub map : List ℕ
  pub start : ℕ
  pub sectors : ℕ

pub mem_virt_init : ℕ → ℕ → Vmm
mem_virt_init virt_start virt_size = record {
  map = replicate (vmm_total_sectors / 8) 0xFF;
  start = virt_start;
  sectors = virt_size / vmm_sector_size;
}
