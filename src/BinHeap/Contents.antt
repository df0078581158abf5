-- ===== src/BinHeap/Contents.antt =====
-- What a heap holds, as a multiset: how often each value stands among its entries.
use urdma.Prelude.{
  ℕ, zero, suc, ◌+◌, ◌*◌, ◌≤◌, ◌<◌, ◌≡◌, refl, ◌∙◌, inl, inr, arith, ltb, ◌==◌, if◌then◌else◌,
  Bool-cases,
}
use urdma.BinHeap.{store, array_swap, parent, push_down, least_of, sift}

abbrev pub hit : ℕ → ℕ → ℕ
hit x v = if x == v then 1 else 0

-- How often `v` stands among the first `n` entries.
pub count : ℕ → (ℕ → ℕ) → ℕ → ℕ
count zero a v = 0
count (suc n) a v = count n a v + hit (a n) v

count-store_past : (n i x v : ℕ) (a : ℕ → ℕ) → n ≤ i → count n (store a i x) v ≡ count n a v
unfolding count
count-store_past zero i x v a h = refl
count-store_past (suc n) i x v a h = ground (arith, count-store_past n i x v a)

count-store :
    (n i x v : ℕ) (a : ℕ → ℕ)
    → i < n
    → count n (store a i x) v + hit (a i) v ≡ count n a v + hit x v
unfolding count
count-store zero i x v a h = absurd (omega arith)
count-store (suc n) i x v a h = elim (Bool-cases (i == n)) [
  | inl last ↦ ground (arith, count-store_past n i x v a)
  | inr before ↦ ground (arith, count-store n i x v a)
]

count-swap : (n i j v : ℕ) (a : ℕ → ℕ) → i < n → j < n → count n (array_swap a i j) v ≡ count n a v
unfolding array_swap
count-swap n i j v a hi hj =
    ground (arith, count-store n i (a j) v a, count-store n j (a i) v (store a i (a j)))

pub count-push_down :
    (fuel n i v : ℕ) (a : ℕ → ℕ) → i < n → count n (push_down fuel a i) v ≡ count n a v
unfolding push_down
count-push_down zero n i v a h = refl
count-push_down (suc fuel) n i v a h = elim (Bool-cases (i == 0)) [
  | inl root ↦ rw root
  | inr below ↦ rw below (elim (Bool-cases (ltb (a i) (a (parent i)))) [
    | inl less ↦ rw less (
        count-push_down fuel n (parent i) v (array_swap a i (parent i)) (omega arith)
        ∙ count-swap n i (parent i) v a h (omega arith))
    | inr settled ↦ rw settled
  ])
]

least_of-lt : (a : ℕ → ℕ) (n i : ℕ) → i * 2 + 1 < n → least_of a n i < n
unfolding least_of
least_of-lt a n i h = ground arith

pub count-sift : (fuel n i v : ℕ) (a : ℕ → ℕ) → count n (sift fuel a n i) v ≡ count n a v
unfolding sift
count-sift zero n i v a = refl
count-sift (suc fuel) n i v a = elim (Bool-cases (ltb (i * 2 + 1) n)) [
  | inr leaf ↦ rw leaf
  | inl inner ↦
      let inside = least_of-lt a n i (ground arith) in
      rw inner (elim (Bool-cases (least_of a n i == i)) [
        | inl settled ↦ rw settled
        | inr moved ↦ rw moved (
            count-sift fuel n (least_of a n i) v (array_swap a i (least_of a n i))
            ∙ count-swap n i (least_of a n i) v a (ground arith) inside)
      ])
]

-- A write past the end adds the value.
pub count-store_last :
    (n x v : ℕ) (a : ℕ → ℕ) → count (suc n) (store a n x) v ≡ count n a v + hit x v
unfolding count
count-store_last n x v a = ground (arith, count-store_past n n x v a)

-- To swap the root with the last entry and cut it off takes away the root's value.
pub count-swap_root :
    (n v : ℕ) (a : ℕ → ℕ) → count (suc n) a v ≡ count n (array_swap a 0 n) v + hit (a 0) v
unfolding count array_swap
count-swap_root n v a = ground (arith, count-swap (suc n) 0 n v a (omega arith) (omega arith))
