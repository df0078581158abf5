-- ===== src/BinHeap/Order.antt =====
-- The order of the heap: every entry but the root is at least its parent.
use urdma.Prelude.{ℕ, zero, suc, ◌≤◌, ◌<◌, ◌≡◌, arith}
use urdma.BinHeap.{BinHeap, parent}

abbrev pub IsHeap : (ℕ → ℕ) → ℕ → Type 0
IsHeap a n = (c : ℕ) → 0 < c → c < n → a (parent c) ≤ a c

-- The entries past `i`, from its parent to its children, are in order.
abbrev pub IsBridged : (ℕ → ℕ) → ℕ → ℕ → Type 0
IsBridged a n i = (c : ℕ) → 0 < c → c < n → parent c ≡ i → 0 < i → a (parent i) ≤ a c

pub record IsValid (h : BinHeap) : Type 0 where
  pub fits : h.size ≤ h.capacity
  pub order : IsHeap h.arr h.size

root_least_below : (k : ℕ) (a : ℕ → ℕ) (n i : ℕ) → IsHeap a n → i < k → i < n → a 0 ≤ a i
root_least_below zero a n i h f p = absurd (omega arith)
root_least_below (suc k) a n i h f p = ground (arith, h i, root_least_below k a n (parent i) h)

pub root_least : (a : ℕ → ℕ) (n i : ℕ) → IsHeap a n → i < n → a 0 ≤ a i
root_least a n i h p = root_least_below (suc i) a n i h (omega arith) p
