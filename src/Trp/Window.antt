-- ===== src/Trp/Window.antt =====
-- The receiver as a specification: sequence numbers that never wrap, of which those below `ack`
-- and, while `missing`, those from `lo` to below `hi` were received.
use urdma.Prelude.{
  ℕ, ◌+◌, ◌%◌, ◌≤◌, ◌<◌, ◌≡◌, Bool, true, false, ◌&&◌, ◌||◌, arith, ltb, leb, ◌==◌, if◌then◌else◌,
}
use urdma.Prelude.Words.{u32_mod, half32}
use urdma.Serial.{serial_less_32, serial_greater_32}
use urdma.Trp.{Endpoint}

pub record Window : Type 0 where
  pub ack : ℕ
  pub missing : Bool
  pub lo : ℕ
  pub hi : ℕ

abbrev pub received : Window → ℕ → Bool
received w n = ltb n w.ack || (w.missing && (leb w.lo n && ltb n w.hi))

-- The specification drops what it has and what would make a second gap, and takes the rest.
unfoldable pub arrive : Window → ℕ → Window × Bool
arrive w n =
    if received w n
    then (w, false)
    else if n == w.ack
    then (if w.missing && n + 1 == w.lo
        then (record w { ack = w.hi; missing = false }, true)
        else (record w { ack = n + 1 }, true))
    else if w.missing
    then (if n == w.hi
        then (record w { hi = n + 1 }, true)
        else if n + 1 == w.lo
        then (record w { lo = n }, true)
        else (w, false))
    else (record w { missing = true; lo = n; hi = n + 1 }, true)

pub record IsWindow (w : Window) : Type 0 where
  pub above : w.missing ≡ true → w.ack < w.lo
  pub holds_some : w.missing ≡ true → w.lo < w.hi
  pub narrow : w.missing ≡ true → w.hi < w.ack + half32

-- The 32-bit state of the program stands for `w`.
pub record Represents (e : Endpoint) (w : Window) : Type 0 where
  pub ack : e.recv_ack_psn ≡ w.ack % u32_mod
  pub missing : e.recv_missing ≡ w.missing
  pub lo : w.missing ≡ true → e.sack_min ≡ w.lo % u32_mod
  pub hi : w.missing ≡ true → e.sack_max ≡ w.hi % u32_mod

-- The sender keeps within half of the circle of what the receiver has acknowledged.
abbrev pub InReach : Window → ℕ → Type 0
InReach w n = (w.ack < n + half32) × (n + 1 < w.ack + half32)

pub less_ahead :
    (a n : ℕ) → a < n → n < a + half32 → serial_less_32 (a % u32_mod) (n % u32_mod) ≡ true
unfolding serial_less_32
less_ahead a n p q = ground arith

pub less_behind :
    (a n : ℕ) → n ≤ a → a < n + half32 → serial_less_32 (a % u32_mod) (n % u32_mod) ≡ false
unfolding serial_less_32
less_behind a n p q = ground arith

pub greater_ahead :
    (a n : ℕ) → a < n → n < a + half32 → serial_greater_32 (n % u32_mod) (a % u32_mod) ≡ true
unfolding serial_greater_32
greater_ahead a n p q = ground arith

pub greater_behind :
    (a n : ℕ) → n ≤ a → a < n + half32 → serial_greater_32 (n % u32_mod) (a % u32_mod) ≡ false
unfolding serial_greater_32
greater_behind a n p q = ground arith

-- Numbers less than half of the circle apart are equal if their words are.
pub apart : (a n : ℕ) → a < n + half32 → n < a + half32 → a % u32_mod ≡ n % u32_mod → a ≡ n
apart a n p q e = omega arith
