-- ===== src/Prelude/Bits.antt =====
-- Masking by 2 ^ k - 1, and remainders by powers of two.
use Prim.Native.Nat.{
  ℕ, zero, suc, ◌+◌, ◌-◌, ◌*◌, ◌/◌, ◌%◌, ◌^◌, ◌≤◌, ◌<◌, ◌∣◌, min, bit_and, digits, bit_and-bitwise,
}
use mathlib.Core.Path.{◌≡◌, refl, subst, sym, ◌∙◌, ap}
use native.Mathlib.Nat.{
  pow-suc, add-suc, add-zero, dvd-mul_right, add_comm, add-mul-mod_self_left, mod-eq_of_lt,
  div-add-mod, mod-lt, mod-mod_of_dvd,
}
use native.Mathlib.Omega.{arith}

-- The digit recursion of bit_and. Rounds past the first operand change nothing.
abbrev ones : ℕ → ℕ → ℕ → ℕ
ones fuel x y = digits (λ y. zero) min fuel x y

ones-extra_round : (fuel x y : ℕ) → x ≤ fuel → ones (suc fuel) x y ≡ ones fuel x y
ones-extra_round zero zero y enough = refl
ones-extra_round zero (suc x) y enough = absurd (omega arith)
ones-extra_round (suc fuel) zero y enough = refl
ones-extra_round (suc fuel) (suc x) y enough =
    omega (arith, ones-extra_round fuel (suc x / 2) (y / 2) (omega arith))

ones-extra : (extra fuel x y : ℕ) → x ≤ fuel → ones (extra + fuel) x y ≡ ones fuel x y
ones-extra zero fuel x y enough = ap (λ n. ones n x y) {x = 0 + fuel} {y = fuel} (omega arith)
ones-extra (suc extra) fuel x y enough =
    ap (λ n. ones n x y) {x = suc extra + fuel} {y = suc (extra + fuel)} (omega arith)
    ∙ ones-extra_round (extra + fuel) x y (omega arith)
    ∙ ones-extra extra fuel x y enough

bit_and-nothing : (y : ℕ) → bit_and 0 y ≡ 0
bit_and-nothing = bit_and-bitwise 0

bit_and-halves : (x y : ℕ) → bit_and x y ≡ bit_and (x / 2) (y / 2) * 2 + min (x % 2) (y % 2)
bit_and-halves zero y = omega (arith, bit_and-nothing (y / 2), bit_and-nothing y)
bit_and-halves (suc x) y =
    let half = suc x / 2 in
    let spare : x - half + half ≡ x = omega arith in
    let same = rw spare at (ones-extra (x - half) half half (y / 2) (omega arith)) in
    omega (arith, same, bit_and-bitwise half (y / 2), bit_and-bitwise (suc x) y)

nothing_below : (bound x : ℕ) → x ≤ bound → bit_and x 0 ≡ 0
nothing_below bound zero p = bit_and-nothing 0
nothing_below zero (suc x) p = absurd (omega arith)
nothing_below (suc bound) (suc x) p =
    omega (arith, nothing_below bound (suc x / 2) (omega arith), bit_and-halves (suc x) 0)

pub pow-pos : (k : ℕ) → 0 < 2 ^ k
pow-pos zero = omega arith
pow-pos (suc k) = omega (arith, pow-pos k, pow-suc 2 k)

-- The quotient and remainder of a division are the only ones.
pub mod_unique : (a s q r : ℕ) → r < s → a ≡ s * q + r → a % s ≡ r
mod_unique a s q r h e =
    rw e (rw (add_comm (s * q) r) (add-mul-mod_self_left r s q ∙ mod-eq_of_lt h))

-- One more digit: the remainder by twice as much.
mod-double : (a s : ℕ) → 0 < s → a % (s * 2) ≡ a / 2 % s * 2 + a % 2
mod-double a s h =
    mod_unique a (s * 2) (a / 2 / s) (a / 2 % s * 2 + a % 2) (omega (arith, mod-lt (a / 2) h))
      (omega (arith, ap (λ (t : ℕ). t * 2) (div-add-mod (a / 2) s)))

half_mask : (s : ℕ) → 0 < s → (s * 2 - 1) / 2 ≡ s - 1
half_mask s h = omega arith

pub bit_and-mask : (k a : ℕ) → bit_and a (2 ^ k - 1) ≡ a % 2 ^ k
bit_and-mask zero a = omega (arith, nothing_below a a (omega arith))
bit_and-mask (suc k) a = rw (pow-suc 2 k) (
    omega (
      arith,
      bit_and-halves a (2 ^ k * 2 - 1),
      bit_and-mask k (a / 2),
      ap (λ (t : ℕ). bit_and (a / 2) t) (half_mask (2 ^ k) (pow-pos k)),
      mod-double a (2 ^ k) (pow-pos k),
      pow-pos k,
    ))

pow-split : (k r : ℕ) → 2 ^ (k + r) ≡ 2 ^ k * 2 ^ r
pow-split k zero = rw (add-zero k) (omega arith)
pow-split k (suc r) =
    rw (add-suc k r, pow-suc 2 (k + r), pow-suc 2 r)
      (omega (arith, ap (λ (t : ℕ). t * 2) (pow-split k r)))

-- A 32-bit word and the number that it stands for agree on fewer digits.
pub word-mod : (k n : ℕ) → k ≤ 32 → n % 2 ^ 32 % 2 ^ k ≡ n % 2 ^ k
word-mod k n h =
    let sum : k + (32 - k) ≡ 32 = omega arith in
    let parts : 2 ^ 32 ≡ 2 ^ k * 2 ^ (32 - k) = rw sum at (pow-split k (32 - k)) in
    mod-mod_of_dvd (2 ^ k) {b = 2 ^ 32} n
      (subst (λ t. 2 ^ k ∣ t) (sym parts) (dvd-mul_right (2 ^ k) (2 ^ (32 - k))))

-- Numbers less than `s` apart are equal if their remainders are.
pub mod-injective : (m n s : ℕ) → m < n + s → n < m + s → m % s ≡ n % s → m ≡ n
mod-injective m n s p q e = grind (arith, div-add-mod m s, div-add-mod n s)
