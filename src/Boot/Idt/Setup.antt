-- ===== src/Boot/Idt/Setup.antt =====
-- The gates that `idt_setup` installs, and where they lead.
use drupe.Base.{
  ltb, leb, ◌==◌, if◌then◌else◌, ==_iff, Bool-cases, bit_and_mask, length, replicate, length-set,
  get_or-replicate, get_or-set_self, get_or-set_ne, ◌>>>◌, pos, ℕ, ◌+◌, ◌-◌, ◌*◌, ◌^◌, ◌<◌, ◌≡◌,
  refl, sym, ap, subst, ◌∙◌, ◌≢◌, inl, inr, Bool, true, false, ◌&&◌, ◌||◌, List, [], ◌∷◌, arith,
}
use drupe.Boot.Gdt.{Gdt, gdt_kernel_code_sel}
use drupe.Boot.Idt.{
  Idt, IdtEntry, idt_entries_count, idt_type_interrupt_gate, zero_entry, make_gate, idt_set_entry,
  tss_setup, interrupt_vectors, set_vectors, idt_setup, gate_at, idt_verify_integrity, IdtPtr,
  unset,
}

abbrev pub contains : List ℕ → ℕ → Bool
contains [] v = false
contains (w ∷ ws) v = w == v || contains ws v

abbrev AllBelow : ℕ → List ℕ → Type 0
AllBelow n [] = Unit {0}
AllBelow n (v ∷ vs) = (v < n) × AllBelow n vs

-- The address that a gate leads to.
unfoldable pub handler_of : IdtEntry → ℕ
handler_of e = e.handler_low + 2 ^ 16 * e.handler_high

-- Every handler address of 32 bits comes back from the two halves in its gate.
pub handler_of-make_gate :
    (handler selector type_attr : ℕ)
    → handler < 2 ^ 32
    → handler_of (make_gate handler selector type_attr) ≡ handler
unfolding handler_of make_gate
handler_of-make_gate handler selector type_attr h =
    omega (arith, bit_and_mask 16 handler, bit_and_mask 16 (handler >>> 16))

abbrev interrupt_gate : (ℕ → ℕ) → ℕ → IdtEntry
interrupt_gate isr v = make_gate (isr v) gdt_kernel_code_sel idt_type_interrupt_gate

length-idt_set_entry :
    (t : Idt) (v handler selector type_attr : ℕ)
    → length (idt_set_entry t (pos v) handler selector type_attr).entries ≡ length t.entries
unfolding idt_set_entry
length-idt_set_entry t v handler selector type_attr =
    ground (arith, length-set t.entries v (make_gate handler selector type_attr))

gate_at-idt_set_entry :
    (t : Idt) (v w handler selector type_attr : ℕ)
    → length t.entries ≡ idt_entries_count
    → v < idt_entries_count
    → gate_at (idt_set_entry t (pos v) handler selector type_attr) w
      ≡ (if v == w then make_gate handler selector type_attr else gate_at t w)
unfolding idt_set_entry
gate_at-idt_set_entry t v w handler selector type_attr sized h =
    let e = make_gate handler selector type_attr in
    ground
      (arith, get_or-set_self t.entries v e zero_entry, get_or-set_ne t.entries v w e zero_entry)

gate_at-set_vectors :
    (isr : ℕ → ℕ) (vs : List ℕ) (t : Idt) (w : ℕ)
    → length t.entries ≡ idt_entries_count
    → AllBelow idt_entries_count vs
    → (gate_at (set_vectors isr vs t) w
        ≡ (if contains vs w then interrupt_gate isr w else gate_at t w))
      × (length (set_vectors isr vs t).entries ≡ idt_entries_count)
unfolding set_vectors
gate_at-set_vectors isr [] t w sized h = (refl, sized)
gate_at-set_vectors isr (v ∷ vs) t w sized h =
    let t' = idt_set_entry t (pos v) (isr v) gdt_kernel_code_sel idt_type_interrupt_gate in
    let sized' =
      length-idt_set_entry t v (isr v) gdt_kernel_code_sel idt_type_interrupt_gate ∙ sized in
    let ih = gate_at-set_vectors isr vs t' w sized' h.1 in
    (
      ground (
        arith,
        ih.0,
        gate_at-idt_set_entry t v w (isr v) gdt_kernel_code_sel idt_type_interrupt_gate,
      ),
      ih.1,
    )

-- the vectors of the exceptions that have a stub, the timer and the keyboard
abbrev pub is_interrupt : ℕ → Bool
is_interrupt v = ltb v 9 || leb 10 v && leb v 14 || v == 16 || v == 32 || v == 33

contains-is_interrupt : (v : ℕ) → contains interrupt_vectors v ≡ is_interrupt v
contains-is_interrupt v = ground arith

-- what stands at a vector behind `idt_setup`
abbrev pub installed : (ℕ → ℕ) → ℕ → IdtEntry
installed isr v =
    if is_interrupt v
    then make_gate (isr v) 0x08 0x8E
    else (if v == 0x80 then make_gate (isr 0x80) 0x08 0xEF else zero_entry)

abbrev cleared : Idt → Idt
cleared t = record t {
  entries = replicate idt_entries_count zero_entry;
  ptr = record { limit = 8 * idt_entries_count - 1; base = t.address };
}

pub gate_at-idt_setup :
    (isr : ℕ → ℕ) (t : Idt) (g : Gdt) (v : ℕ) → gate_at (idt_setup isr t g).0 v ≡ installed isr v
unfolding idt_setup tss_setup
gate_at-idt_setup isr t g v =
    let behind = gate_at-set_vectors isr interrupt_vectors (cleared t) in
    let sized : length (cleared t).entries ≡ idt_entries_count = refl in
    let below : AllBelow idt_entries_count interrupt_vectors = omega arith in
    let t1 = set_vectors isr interrupt_vectors (cleared t) in
    let last = λ (w : ℕ).
      gate_at-idt_set_entry t1 0x80 w (isr 0x80) gdt_kernel_code_sel 0xEF (behind w sized below).1
        (omega arith) in
    elim (Bool-cases (0x80 == v)) [
      | inl hit ↦
          subst (λ w. gate_at (idt_setup isr t g).0 w ≡ installed isr w) ((==_iff 0x80 v).0 hit)
            (last 0x80)
      | inr miss ↦
          let other : (v == 0x80) ≡ false = ground arith in
          let first : gate_at (idt_setup isr t g).0 v ≡ gate_at t1 v = last v ∙ rw miss refl in
          let second : installed isr v ≡ (
              if contains interrupt_vectors v
              then interrupt_gate isr v
              else gate_at (cleared t) v) =
            rw (contains-is_interrupt v, other, get_or-replicate idt_entries_count v zero_entry)
              refl in
          first ∙ (behind v sized below).0 ∙ sym second
    ]

unset-make_gate :
    (handler selector type_attr : ℕ)
    → handler < 2 ^ 32
    → handler ≢ 0
    → unset (make_gate handler selector type_attr) ≡ false
unfolding handler_of
unset-make_gate handler selector type_attr h nonzero =
    ground (arith, handler_of-make_gate handler selector type_attr h)

set_vectors_keeps :
    (isr : ℕ → ℕ) (vs : List ℕ) (t : Idt)
    → ((set_vectors isr vs t).ptr ≡ t.ptr) × ((set_vectors isr vs t).address ≡ t.address)
unfolding set_vectors idt_set_entry
set_vectors_keeps isr [] t = (refl, refl)
set_vectors_keeps isr (v ∷ vs) t =
    let t' = idt_set_entry t (pos v) (isr v) gdt_kernel_code_sel idt_type_interrupt_gate in
    let ih = set_vectors_keeps isr vs t' in (ih.0 ∙ ground arith, ih.1 ∙ ground arith)

idt_setup_keeps :
    (isr : ℕ → ℕ) (t : Idt) (g : Gdt)
    → let t' = (idt_setup isr t g).0 in
      (t'.initialized ≡ true)
      × (t'.ptr.base ≡ t.address)
      × (t'.ptr.limit ≡ 2047)
      × (t'.address ≡ t.address)
unfolding idt_setup tss_setup idt_set_entry
idt_setup_keeps isr t g =
    let kept = set_vectors_keeps isr interrupt_vectors (cleared t) in
    (refl, ap (λ (p : IdtPtr). p.base) kept.0, ap (λ (p : IdtPtr). p.limit) kept.0, kept.1)

-- What `idt_setup` leaves passes `idt_verify_integrity` if the stubs for vectors 0 and 13 have
-- addresses of 32 bits that are not 0.
pub idt_verify_integrity-idt_setup :
    (isr : ℕ → ℕ) (t : Idt) (g : Gdt)
    → isr 0 < 2 ^ 32
    → isr 13 < 2 ^ 32
    → isr 0 ≢ 0
    → isr 13 ≢ 0
    → idt_verify_integrity (idt_setup isr t g).0 ≡ true
idt_verify_integrity-idt_setup isr t g h0 h13 n0 n13 =
    let t' = (idt_setup isr t g).0 in
    let kept = idt_setup_keeps isr t g in
    let zeroth : unset (gate_at t' 0) ≡ false =
      ap unset (gate_at-idt_setup isr t g 0) ∙ unset-make_gate (isr 0) 0x08 0x8E h0 n0 in
    let thirteenth : unset (gate_at t' 13) ≡ false =
      ap unset (gate_at-idt_setup isr t g 13) ∙ unset-make_gate (isr 13) 0x08 0x8E h13 n13 in
    unfold idt_verify_integrity in ground (arith, kept.0, kept.1, kept.2, kept.3)
