-- ===== src/Prelude/Distinct.antt =====
-- Lists of indices without repetition, and writes to an array at an index off the list.
use Prim.Native.Nat.{ℕ}
use mathlib.Core.Path.{◌≡◌, refl}
use mathlib.Core.Bool.{false}
use mathlib.Core.List.{List, [], ◌∷◌, ◌++◌, map}
use native.Mathlib.Omega.{arith}
use urdma.Prelude.Tests.{◌==◌, if◌then◌else◌}

abbrev pub NotIn : ℕ → List ℕ → Type 0
NotIn c [] = Unit
NotIn c (x ∷ xs) = ((x == c) ≡ false) × NotIn c xs

abbrev pub Distinct : List ℕ → Type 0
Distinct [] = Unit
Distinct (x ∷ xs) = NotIn x xs × Distinct xs

NotIn-middle : (x c : ℕ) (xs ys : List ℕ) → NotIn x (xs ++ c ∷ ys) → (x == c) ≡ false
NotIn-middle x c [] ys h = ground (arith, h.0)
NotIn-middle x c (z ∷ xs) ys h = NotIn-middle x c xs ys h.1

pub Distinct-middle : (c : ℕ) (xs ys : List ℕ) → Distinct (xs ++ c ∷ ys) → NotIn c xs
Distinct-middle c [] ys h = tt
Distinct-middle c (x ∷ xs) ys h = (NotIn-middle x c xs ys h.0, Distinct-middle c xs ys h.1)

module _ {ℓ} {A : Type ℓ} where
  -- A write at an index off the list is not seen through the list.
  pub map-update :
      (f : ℕ → A) (c : ℕ) (v : A) (xs : List ℕ)
      → NotIn c xs
      → map (λ j. if c == j then v else f j) xs ≡ map f xs
  map-update f c v [] h = refl
  map-update f c v (x ∷ xs) h = rw (map-update f c v xs h.1) (ground (arith, h.0))
