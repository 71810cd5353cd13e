-- ===== src/Base/Memory.antt =====
-- Memory as bytes by address, read in the byte order of the machine.
use Prim.Native.Nat.{ℕ, ◌+◌, ◌*◌, ◌^◌}

abbrev pub Bytes : Type 0
Bytes = ℕ → ℕ

unfoldable pub get_u16 : Bytes → ℕ → ℕ
get_u16 m a = m a + 2 ^ 8 * m (a + 1)

unfoldable pub get_u32 : Bytes → ℕ → ℕ
get_u32 m a = m a + 2 ^ 8 * m (a + 1) + 2 ^ 16 * m (a + 2) + 2 ^ 24 * m (a + 3)

unfoldable pub get_u64 : Bytes → ℕ → ℕ
unfolding get_u32
get_u64 m a = get_u32 m a + 2 ^ 32 * get_u32 m (a + 4)
