-- ===== src/Prelude/Words.antt =====
-- Machine words as native numbers; the wrap-around is written out.
use Prim.Native.Nat.{ℕ, ◌%◌, ◌^◌}

abbrev pub u16_mod : ℕ
u16_mod = 2 ^ 16

abbrev pub u32_mod : ℕ
u32_mod = 2 ^ 32

abbrev pub u64_mod : ℕ
u64_mod = 2 ^ 64

abbrev pub half32 : ℕ
half32 = 2 ^ 31

abbrev pub u32 : ℕ → ℕ
u32 n = n % u32_mod

abbrev pub u64 : ℕ → ℕ
u64 n = n % u64_mod
