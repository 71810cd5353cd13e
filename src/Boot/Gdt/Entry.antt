-- ===== src/Boot/Gdt/Entry.antt =====
-- What a descriptor stands for: base, limit, access and flags read back from its fields.
use drupe.Base.{
  bit_and_mask, bit_or-halves, ◌>>>◌, ℕ, ◌+◌, ◌*◌, ◌/◌, ◌%◌, ◌^◌, ◌<◌, bit_and, ◌≡◌, refl, arith,
}
use drupe.Boot.Gdt.{GdtEntry, make_entry}

-- The base and the limit as the processor puts them together.
unfoldable pub base_of : GdtEntry → ℕ
base_of e = e.base_low + 2 ^ 16 * e.base_middle + 2 ^ 24 * e.base_high

unfoldable pub limit_of : GdtEntry → ℕ
limit_of e = e.limit_low + 2 ^ 16 * (e.granularity % 16)

unfoldable pub flags_of : GdtEntry → ℕ
flags_of e = e.granularity / 16

-- Every base of 32 bits and limit of 20 bits, the access byte and the flags come back from the entry
-- that `gdt_set_entry` writes; of a longer limit the low 20 bits.
make_entry_lem :
    (base limit access gran : ℕ)
    → base < 2 ^ 32
    → limit < 2 ^ 32
    → gran < 256
    → let e = make_entry base limit access gran in
      (base_of e ≡ base)
      × (limit_of e ≡ limit % 2 ^ 20)
      × (flags_of e ≡ gran / 16)
      × (e.access ≡ access)
unfolding make_entry base_of limit_of flags_of
make_entry_lem base limit access gran hb hl hg =
    let h : bit_and (limit >>> 16) 0x0F ≡ (limit >>> 16) % 16 = bit_and_mask 4 (limit >>> 16) in
    let low : bit_and (limit >>> 16) 0x0F < 16 = omega arith in
    let halves = bit_or-halves (bit_and (limit >>> 16) 0x0F) gran low hg in
    (
      omega
          (arith, bit_and_mask 16 base, bit_and_mask 8 (base >>> 16), bit_and_mask 8 (base >>> 24)),
      omega (arith, bit_and_mask 16 limit),
      omega arith,
      refl,
    )
