-- ===== src/BinHeap.antt =====
-- src/util/binheap.c and binheap.h: the bounded min-heap of 32-bit numbers. The flexible array
-- `arr` is a function from indices, so that the contents that malloc leaves in it are arbitrary.
-- The loops take the current index (push_down) or the size (binheap_pop) as fuel.
pub mod Order
pub mod Up
pub mod Down
pub mod Contents
pub mod Operations
use urdma.Prelude.{
  ℕ, zero, suc, ◌+◌, ◌-◌, ◌*◌, ◌/◌, ◌≤◌, ◌≡◌, Bool, Option, none, some, ltb, ◌==◌, if◌then◌else◌,
}

pub record BinHeap : Type 0 where
  pub capacity : ℕ
  pub size : ℕ
  pub arr : ℕ → ℕ

abbrev pub store : (ℕ → ℕ) → ℕ → ℕ → ℕ → ℕ
store a i v j = if i == j then v else a j

unfoldable pub array_min : (ℕ → ℕ) → ℕ → ℕ → ℕ
array_min a i j = if ltb (a j) (a i) then j else i

unfoldable pub array_swap : (ℕ → ℕ) → ℕ → ℕ → ℕ → ℕ
array_swap a i j = store (store a i (a j)) j (a i)

abbrev pub parent : ℕ → ℕ
parent c = (c - 1) / 2

-- push_down moves the entry towards the root. `index` falls in each round.
pub push_down : ℕ → (ℕ → ℕ) → ℕ → ℕ → ℕ
push_down zero a index = a
push_down (suc fuel) a index =
    let next = parent index in
    let rest = push_down fuel (array_swap a index next) next in
    if index == 0 then a else if ltb (a index) (a next) then rest else a

-- `none` is the result -1.
unfoldable pub insert : BinHeap → ℕ → Option BinHeap
unfolding push_down array_swap
insert h v =
    if h.size == h.capacity
    then none
    else some
        (record h { arr = push_down (suc h.size) (store h.arr h.size v) h.size; size = h.size + 1 })

unfoldable pub peek : BinHeap → Option ℕ
peek h = if h.size == 0 then none else some (h.arr 0)

-- The choice among an entry and its children; the left child exists.
unfoldable pub least_of : (ℕ → ℕ) → ℕ → ℕ → ℕ
unfolding array_min
least_of a size index =
    let left = index * 2 + 1 in
    let m = array_min a index left in if ltb (left + 1) size then array_min a m (left + 1) else m

pub sift : ℕ → (ℕ → ℕ) → ℕ → ℕ → ℕ → ℕ
sift zero a size index = a
sift (suc fuel) a size index =
    let m = least_of a size index in
    let rest = sift fuel (array_swap a index m) size m in
    if ltb (index * 2 + 1) size then (if m == index then a else rest) else a

unfoldable pub pop : BinHeap → Option BinHeap
unfolding sift least_of array_swap
pop h =
    if h.size == 0
    then none
    else let size = h.size - 1 in
      some (record h { size = size; arr = sift h.size (array_swap h.arr 0 size) size 0 })

unfoldable pub empty : BinHeap → Bool
empty h = h.size == 0

-- `garbage` is what the allocated array holds.
unfoldable pub new : ℕ → (ℕ → ℕ) → BinHeap
new capacity garbage = record { capacity = capacity; size = 0; arr = garbage }
