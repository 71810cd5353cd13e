-- ===== src/Boot/Idt.antt =====
-- source/boot/idt/idt.c: the interrupt descriptor table and the task state segment.
pub mod Setup
pub mod Tests
use drupe.Base.{
  leb, ◌==◌, if◌then◌else◌, get_or, set, replicate, ◌>>>◌, ℤ, pos, negsuc, ℕ, ◌+◌, ◌-◌, ◌*◌,
  bit_and, bit_or, Bool, true, false, not, ◌&&◌, ◌||◌, List, [], ◌∷◌,
}
use drupe.Boot.Gdt.{Gdt, gdt_set_entry, gdt_tss_entry, gdt_kernel_code_sel, gdt_kernel_data_sel}

-- `idt_entry_t`
pub record IdtEntry : Type 0 where
  pub handler_low : ℕ
  pub selector : ℕ
  pub reserved : ℕ
  pub type_attr : ℕ
  pub handler_high : ℕ

-- `idt_ptr_t`
pub record IdtPtr : Type 0 where
  pub limit : ℕ
  pub base : ℕ

-- The fields of `tss_entry_t` that the source sets; all others are cleared and stay 0.
pub record Tss : Type 0 where
  pub esp0 : ℕ
  pub ss0 : ℕ
  pub cs : ℕ
  pub ss : ℕ
  pub ds : ℕ
  pub es : ℕ
  pub fs : ℕ
  pub gs : ℕ

abbrev pub idt_entries_count : ℕ
idt_entries_count = 256

abbrev pub idt_type_interrupt_gate : ℕ
idt_type_interrupt_gate = 0x8E

abbrev pub idt_type_trap_gate : ℕ
idt_type_trap_gate = 0x8F

abbrev pub idt_flag_ring3 : ℕ
idt_flag_ring3 = 0x60

abbrev pub zero_entry : IdtEntry
zero_entry = record { handler_low = 0; selector = 0; reserved = 0; type_attr = 0; handler_high = 0 }

-- the size of the packed `tss_entry_t`: 25 words and two half words
abbrev pub tss_size : ℕ
tss_size = 25 * 4 + 2 * 2

-- `idt_entries` with its address, `idt_ptr`, `tss` with its address, and `idt_initialized`
pub record Idt : Type 0 where
  pub entries : List IdtEntry
  pub address : ℕ
  pub ptr : IdtPtr
  pub tss : Tss
  pub tss_address : ℕ
  pub initialized : Bool

unfoldable pub make_gate : ℕ → ℕ → ℕ → IdtEntry
make_gate handler selector type_attr = record {
  handler_low = bit_and handler 0xFFFF;
  handler_high = bit_and (handler >>> 16) 0xFFFF;
  selector = selector;
  reserved = 0;
  type_attr = type_attr;
}

unfoldable pub idt_set_entry : Idt → ℤ → ℕ → ℕ → ℕ → Idt
idt_set_entry t (negsuc i) handler selector type_attr = t
idt_set_entry t (pos i) handler selector type_attr =
    if leb idt_entries_count i
    then t
    else record t { entries = set t.entries i (make_gate handler selector type_attr) }

-- The new state, and the descriptor table with the entry for the segment.
unfoldable pub tss_setup : Idt → Gdt → Idt × Gdt
tss_setup t g =
    let cleared : Tss = record {
      esp0 = 0;
      ss0 = gdt_kernel_data_sel;
      cs = bit_or gdt_kernel_code_sel 0;
      ss = bit_or gdt_kernel_data_sel 0;
      ds = bit_or gdt_kernel_data_sel 0;
      es = bit_or gdt_kernel_data_sel 0;
      fs = bit_or gdt_kernel_data_sel 0;
      gs = bit_or gdt_kernel_data_sel 0;
    } in
    (
      record t { tss = cleared },
      gdt_set_entry g (pos gdt_tss_entry) t.tss_address (tss_size - 1) 0x89 0x00,
    )

unfoldable pub tss_set_kernel_stack : Idt → ℕ → Idt
tss_set_kernel_stack t stack = record t { tss = record t.tss { esp0 = stack } }

-- The vectors of the calls in `idt_setup`, in order; the calls but the last have this type.
abbrev pub interrupt_vectors : List ℕ
interrupt_vectors = 0 ∷ 1 ∷ 2 ∷ 3 ∷ 4 ∷ 5 ∷ 6 ∷ 7 ∷ 8 ∷ 10 ∷ 11 ∷ 12 ∷ 13 ∷ 14 ∷ 16 ∷ 32 ∷ 33 ∷ []

-- `idt_set_entry` for each vector of a list, with the address `isr v` of its assembly stub
unfoldable pub set_vectors : (ℕ → ℕ) → List ℕ → Idt → Idt
set_vectors isr [] t = t
set_vectors isr (v ∷ vs) t =
    set_vectors isr vs (idt_set_entry t (pos v) (isr v) gdt_kernel_code_sel idt_type_interrupt_gate)

-- `isr v` is the address of the stub for vector `v` (`isr0` to `isr16`, `irq0`, `irq1`, `isr128`).
unfoldable pub idt_setup : (ℕ → ℕ) → Idt → Gdt → Idt × Gdt × Bool
idt_setup isr t g =
    let t0 = record t {
      entries = replicate idt_entries_count zero_entry;
      ptr = record { limit = 8 * idt_entries_count - 1; base = t.address };
    } in
    let t1 = set_vectors isr interrupt_vectors t0 in
    let t2 =
      idt_set_entry t1 (pos 0x80) (isr 0x80) gdt_kernel_code_sel
        (bit_or idt_type_trap_gate idt_flag_ring3) in
    let (t3, g') = tss_setup t2 g in (record t3 { initialized = true }, g', true)

abbrev pub gate_at : Idt → ℕ → IdtEntry
gate_at t i = get_or t.entries i zero_entry

-- `handler_low == 0 && handler_high == 0`
abbrev pub unset : IdtEntry → Bool
unset e = e.handler_low == 0 && e.handler_high == 0

unfoldable pub idt_verify_integrity : Idt → Bool
idt_verify_integrity t =
    if not t.initialized
    then false
    else (if not (t.ptr.base == t.address) || not (t.ptr.limit == 8 * idt_entries_count - 1)
        then false
        else (if unset (gate_at t 0)
            then false
            else (if unset (gate_at t 13) then false else true)))
