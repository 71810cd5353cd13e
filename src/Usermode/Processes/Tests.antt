-- ===== src/Usermode/Processes/Tests.antt =====
-- The theorem on the table of processes at a concrete table.
use drupe.Base.{replicate, ◌-◌, some, ◌∷◌}
use drupe.Memory.Physical.{Pmm}
use drupe.Usermode.Processes.{proc_max_count, ProcessTable, zero_process, proc_create}
use drupe.Usermode.Processes.Slots.{Created, proc_create-Created}

-- The first of the 64 slots is in use.
abbrev one_running : ProcessTable
one_running = record {
  table = record zero_process { state = 1 } ∷ replicate (proc_max_count - 1) zero_process;
  current = some 0;
}

abbrev all_free : Pmm
all_free = record { map = replicate 16384 0xFF; start = 0x100000; sectors = 8192 }

proc_create-Created_example : Created one_running all_free (proc_create one_running all_free)
proc_create-Created_example = proc_create-Created one_running all_free
