-- ===== src/Iov/Slice.antt =====
-- Pieces of a range of memory.
use urdma.Prelude.{ℕ, zero, suc, ◌+◌, ◌-◌, ◌≤◌, ◌≡◌, refl, ◌∙◌, ap, ◌∷◌, arith, take, drop}
use urdma.Iov.{Memory, load}

pub take-load : (m : Memory) (k a n : ℕ) → k ≤ n → take k (load m a n) ≡ load m a k
unfolding load
take-load m zero a n h = refl
take-load m (suc k) a zero h = absurd (omega arith)
take-load m (suc k) a (suc n) h = ap (λ r. m a ∷ r) (take-load m k (a + 1) n (omega arith))

pub drop-load : (m : Memory) (b a n : ℕ) → b ≤ n → drop b (load m a n) ≡ load m (a + b) (n - b)
unfolding load
drop-load m zero a n h =
    ap (λ x. load m x n) {x = a} {y = a + 0} (omega arith)
    ∙ ap (load m (a + 0)) {x = n} {y = n - 0} (omega arith)
drop-load m (suc b) a zero h = absurd (omega arith)
drop-load m (suc b) a (suc n) h =
    drop-load m b (a + 1) n (omega arith)
    ∙ ap (λ x. load m x (n - b)) {x = a + 1 + b} {y = a + suc b} (omega arith)
    ∙ ap (load m (a + suc b)) {x = n - b} {y = suc n - suc b} (omega arith)
