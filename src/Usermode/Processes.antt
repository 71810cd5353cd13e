-- ===== src/Usermode/Processes.antt =====
-- source/system/usermode/processes.c: the table of processes.
pub mod Slots
pub mod Tests
use drupe.Base.{
  ◌==◌, if◌then◌else◌, get_or, set, replicate, ℕ, ◌+◌, Option, none, some, List, [], ◌∷◌,
}
use drupe.Memory.Physical.{Pmm, mem_phys_alloc}

-- `process_t`
pub record Process : Type 0 where
  pub id : ℕ
  pub state : ℕ
  pub kernel_stack_top : ℕ
  pub user_stack_top : ℕ
  pub regs : List ℕ

abbrev pub proc_max_count : ℕ
proc_max_count = 64

abbrev pub proc_unused : ℕ
proc_unused = 0

abbrev pub proc_running : ℕ
proc_running = 1

abbrev pub user_stack_top : ℕ
user_stack_top = 0x800000

-- `process_table`, and the index of the entry that `current_process` points to
pub record ProcessTable : Type 0 where
  pub table : List Process
  pub current : Option ℕ

-- an entry as a static variable starts
abbrev pub zero_process : Process
zero_process = record {
  id = 0;
  state = 0;
  kernel_stack_top = 0;
  user_stack_top = 0;
  regs = replicate 16 0;
}

abbrev pub process_at : ProcessTable → ℕ → Process
process_at p pid = get_or p.table pid zero_process

-- One round of `proc_mgr_init`, which leaves the user's stack as it is.
unfoldable pub reset : ℕ → Process → Process
reset pid proc = record proc {
  id = pid;
  state = proc_unused;
  kernel_stack_top = 0;
  regs = replicate 16 0;
}

-- the loop of `proc_mgr_init` from `pid` on
unfoldable pub reset_from : ℕ → List Process → List Process
unfolding reset
reset_from pid [] = []
reset_from pid (proc ∷ procs) = reset pid proc ∷ reset_from (pid + 1) procs

unfoldable pub proc_mgr_init : ProcessTable → ProcessTable
unfolding reset_from
proc_mgr_init p = record p { table = reset_from 0 p.table }

-- the search of `proc_create` from `pid` on
unfoldable pub find_slot : List Process → ℕ → Option ℕ
find_slot [] pid = none
find_slot (proc ∷ procs) pid =
    let rest = find_slot procs (pid + 1) in if proc.state == proc_unused then some pid else rest

-- what `proc_create` makes of the entry it finds, with the address that the allocator gives
unfoldable pub started : ℕ → Process → Process
started stack proc = record proc {
  state = proc_running;
  kernel_stack_top = stack;
  user_stack_top = user_stack_top;
}

-- what `proc_create` does with the slot that the search gives
unfoldable pub start_in : ProcessTable → Pmm → Option ℕ → Option ℕ × ProcessTable × Pmm
unfolding started
start_in p m none = (none, p, m)
start_in p m (some pid) =
    let (stack, m') = mem_phys_alloc m in
    (
      some pid,
      record { table = set p.table pid (started stack (process_at p pid)); current = some pid },
      m',
    )

-- The index of the new process (`none` for the null pointer), and the new state.
unfoldable pub proc_create : ProcessTable → Pmm → Option ℕ × ProcessTable × Pmm
unfolding start_in find_slot
proc_create p m = start_in p m (find_slot p.table 0)

unfoldable pub proc_current : ProcessTable → Option ℕ
proc_current p = p.current
