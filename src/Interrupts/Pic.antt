-- ===== src/Interrupts/Pic.antt =====
-- source/system/interrupts/interrupts.c: the interrupt controllers.
pub mod Mask
use drupe.Base.{
  ltb, leb, if◌then◌else◌, clear_bit, set_bit, ℕ, ◌-◌, Option, none, some, List, [], ◌∷◌,
}

-- The writes of `pic_init`, each a port and a byte, in order. It reads two ports and drops the values.
unfoldable pub pic_init : List (ℕ × ℕ)
pic_init =
    (0x20, 0x11)
    ∷ (0xA0, 0x11)
    ∷ (0x21, 0x20)
    ∷ (0xA1, 0x28)
    ∷ (0x21, 0x04)
    ∷ (0xA1, 0x02)
    ∷ (0x21, 0x01)
    ∷ (0xA1, 0x01)
    ∷ (0x21, 0xFC)
    ∷ (0xA1, 0xFF)
    ∷ []

-- the port of the controller that an interrupt request goes through, and its line there
unfoldable pub line_of : ℕ → ℕ × ℕ
line_of irq = if ltb irq 8 then (0x21, irq) else (0xA1, irq - 8)

-- `port p` is what a read of port `p` gives. The one write; `none` for the shift by 31 or more.
unfoldable pub irq_enable : (ℕ → ℕ) → ℕ → Option (ℕ × ℕ)
unfolding line_of
irq_enable port irq =
    let (p, line) = line_of irq in if leb 31 line then none else some (p, clear_bit (port p) line)

-- `port p` is what a read of port `p` gives. The one write; `none` for the shift by 31 or more.
unfoldable pub irq_disable : (ℕ → ℕ) → ℕ → Option (ℕ × ℕ)
unfolding line_of
irq_disable port irq =
    let (p, line) = line_of irq in if leb 31 line then none else some (p, set_bit (port p) line)
