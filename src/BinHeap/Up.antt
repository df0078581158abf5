-- ===== src/BinHeap/Up.antt =====
-- src/util/binheap.c, push_down: the order of a heap whose last entry may be too small.
use urdma.Prelude.{ℕ, zero, suc, ◌≤◌, ◌<◌, ◌≢◌, inl, inr, arith, ltb, ◌==◌, Bool-cases}
use urdma.BinHeap.{array_swap, parent, push_down}
use urdma.BinHeap.Order.{IsHeap, IsBridged}

-- Only the edge above `i` may be out of order.
pub record UpInv (a : ℕ → ℕ) (n i : ℕ) : Type 0 where
  pub inside : i < n
  pub edges : (c : ℕ) → 0 < c → c < n → c ≢ i → a (parent c) ≤ a c
  pub bridged : IsBridged a n i

swap-UpInv :
    (a : ℕ → ℕ) (n i : ℕ)
    → UpInv a n i
    → 0 < i
    → a i < a (parent i)
    → UpInv (array_swap a i (parent i)) n (parent i)
unfolding array_swap
swap-UpInv a n i v pos below = record {
  inside = omega arith;
  edges = λ c p q r. ground (arith, v.edges c, v.bridged c);
  bridged = λ c p q r s. ground (arith, v.edges c, v.edges (parent i));
}

pub push_down_restores :
    (fuel : ℕ) (a : ℕ → ℕ) (n i : ℕ) → i < fuel → UpInv a n i → IsHeap (push_down fuel a i) n
unfolding push_down
push_down_restores zero a n i f v = absurd (omega arith)
push_down_restores (suc fuel) a n i f v = elim (Bool-cases (i == 0)) [
  | inl root ↦ rw root (λ c p q. v.edges c p q (ground arith))
  | inr below ↦ rw below (elim (Bool-cases (ltb (a i) (a (parent i)))) [
    | inl less ↦ rw less (
        push_down_restores fuel (array_swap a i (parent i)) n (parent i) (ground arith)
          (swap-UpInv a n i v (ground arith) (ground arith)))
    | inr settled ↦ rw settled (λ c p q. ground (arith, v.edges c))
  ])
]
