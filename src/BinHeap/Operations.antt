-- ===== src/BinHeap/Operations.antt =====
-- src/util/binheap.c: binheap_insert, binheap_peek and binheap_pop on a valid heap.
use urdma.Prelude.{ℕ, suc, ◌+◌, ◌-◌, ◌≤◌, ◌<◌, ◌≡◌, refl, none, some, arith}
use urdma.BinHeap.{BinHeap, store, array_swap, insert, peek, pop, push_down, sift}
use urdma.BinHeap.Order.{IsHeap, IsValid, root_least}
use urdma.BinHeap.Up.{push_down_restores}
use urdma.BinHeap.Down.{DownInv, sift_restores}
use urdma.BinHeap.Contents.{
  count, hit, count-push_down, count-sift, count-store_last, count-swap_root,
}

-- `h'` is a valid heap of the same capacity that holds `v` once more than `h`, and nothing else.
pub record Inserted (h : BinHeap) (v : ℕ) (h' : BinHeap) : Type 0 where
  pub valid : IsValid h'
  pub grown : h'.size ≡ h.size + 1
  pub capacity : h'.capacity ≡ h.capacity
  pub holds : (w : ℕ) → count h'.size h'.arr w ≡ count h.size h.arr w + hit v w

-- binheap_insert into a valid heap with room returns a valid heap that holds exactly the old
-- values and the new one.
pub insert_correct :
    (h : BinHeap) (v : ℕ)
    → IsValid h
    → h.size < h.capacity
    → (h' : BinHeap) × (insert h v ≡ some h') × Inserted h v h'
unfolding insert
insert_correct h v valid room = (
  record h { arr = push_down (suc h.size) (store h.arr h.size v) h.size; size = h.size + 1 },
  ground arith,
  record {
    valid = record {
      fits = omega arith;
      order =
          push_down_restores (suc h.size) (store h.arr h.size v) (h.size + 1) h.size (omega arith)
            (record {
              inside = omega arith;
              edges = λ c p q r. ground (arith, valid.order c);
              bridged = omega arith;
            });
    };
    grown = refl;
    capacity = refl;
    holds = λ w. ground (
      arith,
      count-push_down (suc h.size) (suc h.size) h.size w (store h.arr h.size v) (omega arith),
      count-store_last h.size v w h.arr,
    );
  },
)

-- binheap_insert into a full heap returns -1.
pub insert-full : (h : BinHeap) (v : ℕ) → h.size ≡ h.capacity → insert h v ≡ none
unfolding insert
insert-full h v full = ground arith

-- `h'` is a valid heap of the same capacity that holds `least` once less than `h`.
pub record Popped (h : BinHeap) (least : ℕ) (h' : BinHeap) : Type 0 where
  pub valid : IsValid h'
  pub shrunk : h.size ≡ h'.size + 1
  pub capacity : h'.capacity ≡ h.capacity
  pub holds : (w : ℕ) → count h.size h.arr w ≡ count h'.size h'.arr w + hit least w
  pub minimum : (i : ℕ) → i < h.size → least ≤ h.arr i

swap_root-DownInv : (a : ℕ → ℕ) (n : ℕ) → IsHeap a (suc n) → DownInv (array_swap a 0 n) n 0
unfolding array_swap
swap_root-DownInv a n h = record { edges = λ c p q r. ground (arith, h c); bridged = omega arith }

swap_last : (a : ℕ → ℕ) (n : ℕ) → array_swap a 0 n n ≡ a 0
unfolding array_swap
swap_last a n = ground arith

-- On a valid heap that is not empty, binheap_peek returns a least value of those that it holds,
-- and binheap_pop returns a valid heap that holds exactly the others.
pub pop-peek_correct :
    (h : BinHeap)
    → IsValid h
    → 0 < h.size
    → (least : ℕ) × (h' : BinHeap) × (peek h ≡ some least) × (pop h ≡ some h') × Popped h least h'
unfolding pop peek
pop-peek_correct h valid pos =
    let n = h.size - 1 in
    let size : h.size ≡ suc n = omega arith in
    let b = array_swap h.arr 0 n in
    (
      h.arr 0,
      record h { size = n; arr = sift h.size b n 0 },
      ground arith,
      ground arith,
      record {
        valid = record {
          fits = omega (arith, valid.fits);
          order =
              sift_restores h.size b n 0 (omega arith)
                (swap_root-DownInv h.arr n (λ c p q. valid.order c p (omega arith)));
        };
        shrunk = omega arith;
        capacity = refl;
        holds = λ w. holds_of w;
        minimum = λ i p. root_least h.arr h.size i valid.order p;
      },
    )
  where
    holds_of :
        (w : ℕ)
        → count h.size h.arr w
          ≡ count (h.size - 1) (sift h.size (array_swap h.arr 0 (h.size - 1)) (h.size - 1) 0) w
            + hit (h.arr 0) w
    holds_of w = ground (
      arith,
      count-swap_root (h.size - 1) w h.arr,
      count-sift h.size (h.size - 1) 0 w (array_swap h.arr 0 (h.size - 1)),
    )

-- binheap_pop and binheap_peek on an empty heap return -1.
pub pop-peek_empty : (h : BinHeap) → h.size ≡ 0 → (pop h ≡ none) × (peek h ≡ none)
unfolding pop peek
pop-peek_empty h e = ground arith
