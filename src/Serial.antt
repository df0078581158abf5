-- ===== src/Serial.antt =====
-- src/liburdma/interface.c: comparison of packet sequence numbers by the rules of RFC 1982.
use urdma.Prelude.{ℕ, ◌+◌, ◌-◌, ◌%◌, ◌<◌, ◌≡◌, ◌↔◌, Bool, true, ◌&&◌, ◌||◌, arith, ltb}
use urdma.Prelude.Words.{u32_mod, half32}

unfoldable pub serial_less_32 : ℕ → ℕ → Bool
serial_less_32 s1 s2 = (ltb s1 s2 && ltb (s2 - s1) half32) || (ltb s2 s1 && ltb half32 (s1 - s2))

unfoldable pub serial_greater_32 : ℕ → ℕ → Bool
serial_greater_32 s1 s2 = (ltb s1 s2 && ltb half32 (s2 - s1)) || (ltb s2 s1 && ltb (s1 - s2) half32)

-- The distance from `s1` forward to `s2` on the circle of 2 ^ 32 sequence numbers.
unfoldable pub distance : ℕ → ℕ → ℕ
distance s1 s2 = (s2 + u32_mod - s1) % u32_mod

-- For 32-bit numbers, serial_less_32 holds exactly when the second lies ahead of the first by
-- less than half of the circle, and serial_greater_32 exactly when it does the other way round.
pub serial_compare_lem :
    (s1 s2 : ℕ)
    → s1 < u32_mod
    → s2 < u32_mod
    → (serial_less_32 s1 s2 ≡ true ↔ (0 < distance s1 s2) × (distance s1 s2 < half32))
      × (serial_greater_32 s1 s2 ≡ true ↔ (0 < distance s2 s1) × (distance s2 s1 < half32))
unfolding serial_less_32 serial_greater_32 distance
serial_compare_lem s1 s2 h1 h2 = ground arith
