-- ===== src/Verbs/Sizes.antt =====
-- src/liburdma/verbs.c: next_pow2, and the capabilities that usiw_create_qp settles on.
use native.Mathlib.Nat.{pow-suc, add-suc}
use urdma.Prelude.{
  ℕ, zero, suc, ◌+◌, ◌-◌, ◌*◌, ◌^◌, ◌≤◌, ◌<◌, ◌≡◌, refl, ap, inl, inr, Bool, true, false, Option,
  none, some, arith, ltb, ltb→lt, ltb→le, Bool-cases,
}
use urdma.Prelude.Bits.{pow-pos}
use urdma.Verbs.State.{QpCap}
use urdma.Verbs.Create.{double_until, next_pow2, ring_size, caps_refused, adjust_caps, create_caps}

pow_mono : (a d : ℕ) → 2 ^ a ≤ 2 ^ (a + d)
pow_mono a zero = rw (add_zero_right a) (omega arith)
  where
    add_zero_right : (a : ℕ) → a + 0 ≡ a
    add_zero_right a = omega arith
pow_mono a (suc d) = rw (add-suc a d, pow-suc 2 (a + d)) (omega (arith, pow_mono a d))

pow-next : (a j : ℕ) → 2 ^ a < 2 ^ j → 2 ^ suc a ≤ 2 ^ j
pow-next a j p = elim (Bool-cases (ltb a j)) [
  | inl below ↦
      let e : suc a + (j - suc a) ≡ j = omega (arith, ltb→lt a j below) in
      rw e at (pow_mono (suc a) (j - suc a))
  | inr above ↦
      let e : j + (a - j) ≡ a = omega (arith, ltb→le a j above) in
      let q = rw e at (pow_mono j (a - j)) in absurd (omega (arith, p, q))
]

-- The least power of two that is not less than a number.
pub record LeastPower (goal n : ℕ) : Type 0 where
  pub exponent : ℕ
  pub power : n ≡ 2 ^ exponent
  pub enough : goal ≤ n
  pub least : (j : ℕ) → goal ≤ 2 ^ j → n ≤ 2 ^ j

double_until-LeastPower :
    (fuel a goal : ℕ)
    → goal ≤ 2 ^ (a + fuel)
    → ((j : ℕ) → goal ≤ 2 ^ j → 2 ^ a ≤ 2 ^ j)
    → LeastPower goal (double_until fuel (2 ^ a) goal)
unfolding double_until
double_until-LeastPower zero a goal p below = record {
  exponent = a;
  power = refl;
  enough = omega (arith, p, ap (λ n. 2 ^ n) {x = a + 0} {y = a} (omega arith));
  least = below;
}
double_until-LeastPower (suc fuel) a goal p below = elim (Bool-cases (ltb (2 ^ a) goal)) [
  | inl short ↦
      let next : LeastPower goal (double_until fuel (2 ^ suc a) goal) =
        double_until-LeastPower fuel (suc a) goal
          (omega (arith, p, ap (λ n. 2 ^ n) {x = suc a + fuel} {y = a + suc fuel} (omega arith)))
          (λ j q. pow-next a j (omega (arith, ltb→lt _ _ short, q))) in
      rw short (rw (pow-suc 2 a) at next)
  | inr long ↦ rw long (record {
    exponent = a;
    power = refl;
    enough = omega (arith, ltb→le _ _ long);
    least = below;
  })
]

-- Up to the largest power of two that an int holds, next_pow2 is the least power of two that is
-- not less than its argument.
pub next_pow2-LeastPower : (goal : ℕ) → goal ≤ 2 ^ 30 → LeastPower goal (next_pow2 goal)
unfolding next_pow2
next_pow2-LeastPower goal p =
    double_until-LeastPower 31 0 goal (omega (arith, p)) (λ j q. pow-pos j)

-- What a queue of the asked size gets: its ring, which has one slot more, is a power of two.
pub record Sized (asked got : ℕ) : Type 0 where
  pub exponent : ℕ
  pub power : got + 1 ≡ 2 ^ exponent
  pub enough : asked ≤ got
  pub at_least : 63 ≤ got
  pub at_most : got ≤ 1023

ring_size-Sized : (n : ℕ) → n ≤ 1023 → Sized n (ring_size n)
unfolding ring_size
ring_size-Sized n p =
    let r = next_pow2-LeastPower (n + 1) (omega (arith, p)) in
    let most : next_pow2 (n + 1) ≤ 2 ^ 10 = r.least 10 (omega (arith, p)) in
    elim (Bool-cases (ltb 63 (next_pow2 (n + 1) - 1))) [
      | inl large ↦ rw large (record {
        exponent = r.exponent;
        power = omega (arith, r.power, r.enough);
        enough = omega (arith, r.enough);
        at_least = omega (arith, ltb→lt _ _ large);
        at_most = omega (arith, most);
      })
      | inr small ↦ rw small (record {
        exponent = 6;
        power = omega arith;
        enough = omega (arith, r.enough, ltb→le _ _ small);
        at_least = omega arith;
        at_most = omega arith;
      })
    ]

-- The capabilities that a queue pair gets for those that were asked for.
pub record Granted (asked got : QpCap) : Type 0 where
  pub send_ring : Sized asked.max_send_wr got.max_send_wr
  pub recv_ring : Sized asked.max_recv_wr got.max_recv_wr
  pub send_sge : asked.max_send_sge ≤ got.max_send_sge
  pub send_sge_most : got.max_send_sge ≤ 32
  pub recv_sge : asked.max_recv_sge ≤ got.max_recv_sge
  pub recv_sge_most : got.max_recv_sge ≤ 32
  pub inline : asked.max_inline_data ≤ got.max_inline_data
  pub inline_fits : got.max_inline_data ≤ got.max_send_sge * 16

adjust_caps-Granted : (cap : QpCap) → caps_refused true cap ≡ false → Granted cap (adjust_caps cap)
unfolding adjust_caps caps_refused
adjust_caps-Granted cap ok = record {
  send_ring = ring_size-Sized cap.max_send_wr (ground (arith, ok));
  recv_ring = ring_size-Sized cap.max_recv_wr (ground (arith, ok));
  send_sge = ground (arith, ok);
  send_sge_most = ground (arith, ok);
  recv_sge = ground (arith, ok);
  recv_sge_most = ground (arith, ok);
  inline = ground (arith, ok);
  inline_fits = ground (arith, ok);
}

-- The limits that a request for a queue pair must keep.
pub record WithinLimits (known_type : Bool) (cap : QpCap) : Type 0 where
  pub type : known_type ≡ true
  pub send_wr : cap.max_send_wr ≤ 1023
  pub recv_wr : cap.max_recv_wr ≤ 1023
  pub send_sge : cap.max_send_sge ≤ 32
  pub recv_sge : cap.max_recv_sge ≤ 32
  pub inline : cap.max_inline_data ≤ 512

pub data Caps (known_type : Bool) (asked : QpCap) : Option QpCap → Type 0 where
  granted :
      (got : QpCap)
      → WithinLimits known_type asked
      → Granted asked got
      → Caps known_type asked (some got)
  denied : ¬ (WithinLimits known_type asked) → Caps known_type asked none

accepted-WithinLimits :
    (known_type : Bool) (cap : QpCap)
    → caps_refused known_type cap ≡ false
    → WithinLimits known_type cap
unfolding caps_refused
accepted-WithinLimits true cap ok = record {
  type = refl;
  send_wr = ground (arith, ok);
  recv_wr = ground (arith, ok);
  send_sge = ground (arith, ok);
  recv_sge = ground (arith, ok);
  inline = ground (arith, ok);
}
accepted-WithinLimits false cap ok = absurd (ground (arith, ok))

refused-not_WithinLimits :
    (known_type : Bool) (cap : QpCap)
    → caps_refused known_type cap ≡ true
    → ¬ (WithinLimits known_type cap)
unfolding caps_refused
refused-not_WithinLimits known_type cap bad w =
    ground (arith, bad, w.type, w.send_wr, w.recv_wr, w.send_sge, w.recv_sge, w.inline)

-- usiw_create_qp accepts a request if and only if its type is known and it keeps the limits. Then
-- each queue gets at least the entries that were asked for, at least 63 and at most 1023, in a ring
-- whose slots are a power of two; at least the buffers that were asked for and at most 32; and at
-- least the inline data that was asked for, as much at most as the array of buffers has room for.
pub create_caps-Caps :
    (known_type : Bool) (asked : QpCap) → Caps known_type asked (create_caps known_type asked)
unfolding create_caps
create_caps-Caps known_type asked = elim (Bool-cases (caps_refused known_type asked)) [
  | inl bad ↦ rw bad (denied (refused-not_WithinLimits known_type asked bad))
  | inr ok ↦
      let w = accepted-WithinLimits known_type asked ok in
      let known : caps_refused true asked ≡ false = rw w.type at ok in
      rw ok (granted (adjust_caps asked) w (adjust_caps-Granted asked known))
]
