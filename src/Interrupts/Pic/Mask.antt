-- ===== src/Interrupts/Pic/Mask.antt =====
-- What switching a line on or off does to the mask of its controller.
use drupe.Base.{
  ltb, leb, ◌==◌, if◌then◌else◌, Bool-cases, has_bit, clear_bit, set_bit, has_bit-clear_bit,
  has_bit-set_bit, ℕ, ◌<◌, ◌≡◌, refl, inl, inr, true, false, some, arith,
}
use drupe.Interrupts.Pic.{line_of, irq_enable, irq_disable}

line_of-lt : (irq : ℕ) → irq < 16 → (line_of irq).1 < 8
unfolding line_of
line_of-lt irq h = ground arith

line_of-byte :
    (port : ℕ → ℕ) (irq : ℕ) → port 0x21 < 256 → port 0xA1 < 256 → port (line_of irq).0 < 256
unfolding line_of
line_of-byte port irq b0 b1 = elim (Bool-cases (ltb irq 8)) [
  | inl first ↦ rw first b0
  | inr second ↦ rw second b1
]

-- Each of the 16 lines has a bit of its own in the mask of one of the controllers. `irq_enable`
-- writes that mask with the bit clear and `irq_disable` with the bit set, all other bits as read.
irq_enable-disable :
    (port : ℕ → ℕ) (irq d : ℕ)
    → irq < 16
    → d < 8
    → port 0x21 < 256
    → port 0xA1 < 256
    → let (p, line) = line_of irq in
      (on off : ℕ) × (irq_enable port irq ≡ some (p, on))
      × (irq_disable port irq ≡ some (p, off))
      × (has_bit on d ≡ (if line == d then false else has_bit (port p) d))
      × (has_bit off d ≡ (if line == d then true else has_bit (port p) d))
irq_enable-disable port irq d h hd b0 b1 =
    let l = line_of irq in
    let low : l.1 < 8 = line_of-lt irq h in
    let byte : port l.0 < 256 = line_of-byte port irq b0 b1 in
    let shift : leb 31 l.1 ≡ false = ground arith in
    (
      clear_bit (port l.0) l.1,
      set_bit (port l.0) l.1,
      unfold irq_enable in rw shift refl,
      unfold irq_disable in rw shift refl,
      has_bit-clear_bit (port l.0) l.1 d byte low hd,
      has_bit-set_bit (port l.0) l.1 d byte low hd,
    )
