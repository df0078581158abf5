-- ===== src/Prelude/Counts.antt =====
-- How often a number stands in a list. Permutations of lists of indices are sums of counts, which
-- the arithmetic tactics decide.
use Prim.Native.Nat.{ℕ, ◌+◌, ◌≤◌, zero, suc}
use mathlib.Core.Path.{◌≡◌, refl}
use mathlib.Core.Bool.{Bool, true, false}
use mathlib.Core.List.{List, [], ◌∷◌, ◌++◌}
use native.Mathlib.Omega.{arith}
use urdma.Prelude.Tests.{◌==◌}
use urdma.Prelude.Lists.{take, drop}
use urdma.Prelude.Distinct.{NotIn, Distinct}

abbrev pub bit : Bool → ℕ
bit true = 1
bit false = 0

pub bit-most : (b : Bool) → bit b ≤ 1
bit-most true = omega arith
bit-most false = omega arith

-- How often `n` stands in a list.
abbrev pub times : ℕ → List ℕ → ℕ
times n [] = 0
times n (m ∷ ms) = bit (n == m) + times n ms

pub times-append : (n : ℕ) (xs ys : List ℕ) → times n (xs ++ ys) ≡ times n xs + times n ys
times-append n [] ys = omega arith
times-append n (x ∷ xs) ys = omega (arith, times-append n xs ys)

pub times-take-drop :
    (n k : ℕ) (xs : List ℕ) → times n (take k xs) + times n (drop k xs) ≡ times n xs
times-take-drop n zero xs = omega arith
times-take-drop n (suc k) [] = omega arith
times-take-drop n (suc k) (x ∷ xs) = omega (arith, times-take-drop n k xs)

pub times_self : (n : ℕ) (xs : List ℕ) → times n (n ∷ xs) ≡ suc (times n xs)
times_self n xs = ground arith

pub times→NotIn : (n : ℕ) (xs : List ℕ) → times n xs ≡ 0 → NotIn n xs
times→NotIn n [] h = tt
times→NotIn n (x ∷ xs) h = (ground (arith, h), times→NotIn n xs (omega (arith, h)))

NotIn→times : (n : ℕ) (xs : List ℕ) → NotIn n xs → times n xs ≡ 0
NotIn→times n [] h = refl
NotIn→times n (x ∷ xs) h = ground (arith, h.0, NotIn→times n xs h.1)

pub times→Distinct : (xs : List ℕ) → ((n : ℕ) → times n xs ≤ 1) → Distinct xs
times→Distinct [] h = tt
times→Distinct (x ∷ xs) h = (
  times→NotIn x xs (omega (arith, h x, times_self x xs)),
  times→Distinct xs (λ n. omega (arith, h n)),
)

pub Distinct→times : (xs : List ℕ) → Distinct xs → (n : ℕ) → times n xs ≤ 1
Distinct→times [] h n = omega arith
Distinct→times (x ∷ xs) h n = ground (arith, Distinct→times xs h.1 n, NotIn→times x xs h.0)
