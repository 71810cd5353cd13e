-- ===== src/Usermode/Processes/Slots.antt =====
-- The slots that `proc_create` takes.
use drupe.Base.{
  ◌==◌, ==_iff, Bool-cases, length, get_or, get_or-set_self, get_or-set_ne, ℕ, zero, suc, ◌+◌, ◌<◌,
  ◌≡◌, refl, sym, ◌≢◌, inl, inr, Option, none, some, List, [], ◌∷◌, arith,
}
use drupe.Memory.Physical.{Pmm, mem_phys_alloc}
use drupe.Usermode.Processes.{
  Process, ProcessTable, zero_process, process_at, proc_unused, find_slot, started, proc_current,
  start_in, proc_create,
}

-- the first unused entry of a list, if there is one
abbrev pub FirstUnused : List Process → ℕ → Option ℕ → Type 0
FirstUnused procs base none =
    (i : ℕ) → i < length procs → (get_or procs i zero_process).state ≢ proc_unused
FirstUnused procs base (some pid) =
    (n : ℕ) × (pid ≡ base + n)
    × (n < length procs)
    × ((get_or procs n zero_process).state ≡ proc_unused)
    × ((i : ℕ) → i < n → (get_or procs i zero_process).state ≢ proc_unused)

used_before :
    (proc : Process) (procs : List Process) (n : ℕ)
    → proc.state ≢ proc_unused
    → ((i : ℕ) → i < n → (get_or procs i zero_process).state ≢ proc_unused)
    → (i : ℕ) → i < suc n
    → (get_or (proc ∷ procs) i zero_process).state ≢ proc_unused
used_before proc procs n used h zero lt = used
used_before proc procs n used h (suc i) lt = h i (omega arith)

find_slot-first :
    (proc : Process) (procs : List Process) (base : ℕ) (o : Option ℕ)
    → proc.state ≢ proc_unused
    → FirstUnused procs (base + 1) o
    → FirstUnused (proc ∷ procs) base o
find_slot-first proc procs base none used h = used_before proc procs (length procs) used h
find_slot-first proc procs base (some pid) used (n, e, lt, free, before) =
    (suc n, omega arith, omega arith, free, used_before proc procs n used before)

find_slot-FirstUnused :
    (procs : List Process) (base : ℕ) → FirstUnused procs base (find_slot procs base)
unfolding find_slot
find_slot-FirstUnused [] base = λ i lt. absurd (omega arith)
find_slot-FirstUnused (proc ∷ procs) base = elim (Bool-cases (proc.state == proc_unused)) [
  | inl free ↦ rw free (
    0,
    omega arith,
    omega arith,
    (==_iff proc.state proc_unused).0 free,
    λ i lt. absurd (omega arith),
  )
  | inr used ↦ rw used (
      find_slot-first proc procs base (find_slot procs (base + 1)) (ground arith)
        (find_slot-FirstUnused procs (base + 1)))
]

-- What `proc_create` gives, and what it leaves behind.
pub Created : ProcessTable → Pmm → Option ℕ × ProcessTable × Pmm → Type 0
Created p m (none, p', m') = FirstUnused p.table 0 none × (p' ≡ p) × (m' ≡ m)
Created p m (some pid, p', m') =
    FirstUnused p.table 0 (some pid)
    × (proc_current p' ≡ some pid)
    × (process_at p' pid ≡ record {
      id = (process_at p pid).id;
      state = 1;
      kernel_stack_top = (mem_phys_alloc m).0;
      user_stack_top = 0x800000;
      regs = (process_at p pid).regs;
    })
    × ((j : ℕ) → j ≢ pid → process_at p' j ≡ process_at p j)
    × (m' ≡ (mem_phys_alloc m).1)

start_in-Created :
    (p : ProcessTable) (m : Pmm) (o : Option ℕ)
    → FirstUnused p.table 0 o
    → Created p m (start_in p m o)
unfolding start_in started Created proc_current
start_in-Created p m none h = (h, refl, refl)
start_in-Created p m (some pid) h =
    let proc = started (mem_phys_alloc m).0 (process_at p pid) in
    (
      h,
      refl,
      get_or-set_self p.table pid proc zero_process (omega (arith, h.1, h.2)),
      λ j other. get_or-set_ne p.table pid j proc zero_process (λ e. other (sym e)),
      refl,
    )

-- With no unused slot `proc_create` gives the null pointer and changes nothing. Otherwise it gives
-- the first unused slot and makes it the current process, running (1), with what one call of the
-- allocator gives for its kernel stack and 8 MB for the program's; its other fields and all other
-- slots are as they were.
pub proc_create-Created : (p : ProcessTable) (m : Pmm) → Created p m (proc_create p m)
unfolding proc_create
proc_create-Created p m =
    start_in-Created p m (find_slot p.table 0) (find_slot-FirstUnused p.table 0)
