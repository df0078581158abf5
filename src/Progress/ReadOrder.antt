-- ===== src/Progress/ReadOrder.antt =====
-- src/liburdma/interface.c, progress_qp: the end of a read response that arrives while an earlier request holds up a read
-- request that is already complete.
use urdma.Prelude.{
  ℕ, ◌≡◌, ◌≢◌, refl, sym, ◌∙◌, ap, false, some, List, ◌∷◌, arith, ◌==◌, Bool-cases, inl, inr, ==→eq,
}
use urdma.Host.{Host, Laws}
use urdma.Qp.{Qp, SendWqe, SendState, update}
use urdma.Completion.{find_first_rdma_read, try_complete_wqe, is_top}
use urdma.Completion.Order.{leave_early, is_top-cons}
use urdma.Sweep.{set_send_wqe}
use urdma.Progress.{complete_first_read}

first_read :
    (h : Host) (q : Qp) (i : ℕ)
    → find_first_rdma_read q.sq.storage q.sq.active ≡ some i
    → complete_first_read h q
      ≡ try_complete_wqe h
          (set_send_wqe q i (record (q.sq.storage i) { state = SendState.complete }))
          i
unfolding complete_first_read
first_read h q i e = rw (e, complete_first_read) refl

-- Let the first active read request be complete already, and not be the oldest active request.
-- Then the end of a further read response changes no request, posts no completion and gives no
-- read credit back, though the read request that it belongs to is a later one.
pub complete_first_read-lost :
    (h : Host) (q : Qp) (i j : ℕ) (l : List ℕ)
    → Laws h
    → find_first_rdma_read q.sq.storage q.sq.active ≡ some i
    → (q.sq.storage i).state ≡ SendState.complete
    → q.sq.active ≡ j ∷ l
    → j ≢ i
    → ((k : ℕ) → (complete_first_read h q).sq.storage k ≡ q.sq.storage k)
      × ((complete_first_read h q).sq.active ≡ q.sq.active)
      × ((complete_first_read h q).cqs ≡ q.cqs)
      × ((complete_first_read h q).ord_active ≡ q.ord_active)
complete_first_read-lost h q i j l laws first state a ne =
    let w = q.sq.storage i in
    let q1 = set_send_wqe q i (record w { state = SendState.complete }) in
    let late : (j == i) ≡ false = ground arith in
    let top : is_top h q1.sq.active i ≡ false = is_top-cons h q1.sq.active l i j laws a ∙ late in
    let whole = first_read h q i first ∙ leave_early h q1 i top in
    let same : record w { state = SendState.complete } ≡ w =
      ap (λ s. record w { state = s }) {x = SendState.complete} {y = w.state} (sym state) in
    (
      λ k.
          ap (λ x. x.sq.storage k) whole
          ∙ ap (λ x. update q.sq.storage i x k) same
          ∙ kept q.sq.storage i k,
      ap (λ x. x.sq.active) whole,
      ap (λ x. x.cqs) whole,
      ap (λ x. x.ord_active) whole,
    )
  where
    kept : (f : ℕ → SendWqe) (i k : ℕ) → update f i (f i) k ≡ f k
    kept f i k = elim (Bool-cases (i == k)) [
      | inl e ↦ rw e (ap f (==→eq i k e))
      | inr e ↦ rw e refl
    ]
