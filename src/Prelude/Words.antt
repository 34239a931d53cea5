-- ===== src/Prelude/Words.antt =====
-- Machine words as native numbers below a power of two.
use Prim.Native.Nat.{ℕ, ◌^◌}

abbrev pub u8_mod : ℕ
u8_mod = 2 ^ 8

abbrev pub u32_mod : ℕ
u32_mod = 2 ^ 32

abbrev pub u64_mod : ℕ
u64_mod = 2 ^ 64
