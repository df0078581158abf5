-- ===== src/BinHeap/Down.antt =====
-- src/util/binheap.c, the loop of binheap_pop: the order of a heap whose root may be too large.
use urdma.Prelude.{
  ℕ, zero, suc, ◌+◌, ◌*◌, ◌≤◌, ◌<◌, ◌≡◌, ◌≢◌, ◌⊎◌, inl, inr, arith, ltb, ◌==◌, Bool-cases,
}
use urdma.BinHeap.{array_swap, parent, least_of, sift}
use urdma.BinHeap.Order.{IsHeap, IsBridged}

-- Only the edges below `i` may be out of order.
pub record DownInv (a : ℕ → ℕ) (n i : ℕ) : Type 0 where
  pub edges : (c : ℕ) → 0 < c → c < n → parent c ≢ i → a (parent c) ≤ a c
  pub bridged : IsBridged a n i

-- `m` is `i` or one of its children, and holds the least of their values.
record IsLeast (a : ℕ → ℕ) (n i m : ℕ) : Type 0 where
  inside : m < n
  near : (m ≡ i) ⊎ ((0 < m) × (parent m ≡ i))
  strict : m ≢ i → a m < a i
  least : (c : ℕ) → 0 < c → c < n → parent c ≡ i → a m ≤ a c
  least_self : a m ≤ a i

least_of-IsLeast : (a : ℕ → ℕ) (n i : ℕ) → i * 2 + 1 < n → IsLeast a n i (least_of a n i)
unfolding least_of
least_of-IsLeast a n i h = record {
  inside = ground arith;
  near = ground arith;
  strict = ground arith;
  least = λ c p q e.
      let side : (c ≡ i * 2 + 1) ⊎ (c ≡ i * 2 + 1 + 1) = omega arith in
      elim side [ inl l ↦ rw l (ground arith) | inr r ↦ rw r (ground arith) ];
  least_self = ground arith;
}

swap-DownInv :
    (a : ℕ → ℕ) (n i m : ℕ)
    → DownInv a n i
    → IsLeast a n i m
    → m ≢ i
    → DownInv (array_swap a i m) n m
unfolding array_swap
swap-DownInv a n i m v s e = record {
  edges = λ c p q r. ground (arith, v.edges c, v.bridged m, s.least c);
  bridged = λ c p q r t. ground (arith, v.edges c);
}

pub sift_restores :
    (fuel : ℕ) (a : ℕ → ℕ) (n i : ℕ) → n < fuel + i → DownInv a n i → IsHeap (sift fuel a n i) n
unfolding sift
sift_restores zero a n i f v = λ c p q. v.edges c p q (omega arith)
sift_restores (suc fuel) a n i f v = elim (Bool-cases (ltb (i * 2 + 1) n)) [
  | inr leaf ↦ rw leaf (λ c p q. v.edges c p q (ground arith))
  | inl inner ↦
      let s = least_of-IsLeast a n i (ground arith) in
      rw inner (elim (Bool-cases (least_of a n i == i)) [
        | inl settled ↦ rw settled (λ c p q. ground (arith, v.edges c, s.least c))
        | inr moved ↦ rw moved (
            sift_restores fuel (array_swap a i (least_of a n i)) n (least_of a n i)
              (ground (arith, s.near)) (swap-DownInv a n i (least_of a n i) v s (ground arith)))
      ])
]
