-- ===== src/Completion/Order.antt =====
-- src/liburdma/interface.c: try_complete_wqe and the order of the active send requests.
use urdma.Prelude.{
  ℕ, ◌≡◌, ◌≢◌, refl, sym, ◌∙◌, ap, inl, inr, ==→eq, true, false, List, [], ◌∷◌, ◌++◌, arith, ◌==◌,
  if◌then◌else◌, Bool-cases,
}
use mathlib.Core.Path.{subst}
use mathlib.Core.List.{append-nil}
use urdma.Host.{Host, Laws, erase, head?, uncons}
use urdma.Qp.{Qp, Completion, WcStatus, update}
use urdma.Completion.{
  post_entry, finish_post_cqe, get_ibv_send_wc_opcode, qp_free_send_wqe, post_send_cqe,
  try_complete_wqe, is_top, is_read,
}
use urdma.Completion.Flush.{posted, IsValidCq, post_entry-Posted}

-- The completion of the request `i` in the entry `c`, which keeps its old byte_len.
abbrev pub send_wc : Qp → ℕ → ℕ → WcStatus → Completion
send_wc q i c status = record ((q.cqs q.send_cq).storage c) {
  wr_context = (q.sq.storage i).wr_context;
  status = status;
  opcode = get_ibv_send_wc_opcode (q.sq.storage i).opcode;
  qp_num = q.qp_num;
}

-- What the call for request `i` makes of a queue pair whose oldest active request is `j`.
pub data Attempt (q : Qp) (i j : ℕ) (l : List ℕ) (c : ℕ) : Qp → Type 0 where
  too_early : i ≢ j → Attempt q i j l c q
  completed :
      {q' : Qp}
      → i ≡ j
      → q'.sq.active ≡ l
      → posted (q'.cqs q.send_cq)
        ≡ posted (q.cqs q.send_cq)
          ++ (if (q.sq.storage i).signaled then send_wc q i c WcStatus.success ∷ [] else [])
      → Attempt q i j l c q'

pub is_top-cons :
    (h : Host) (active l : List ℕ) (i j : ℕ)
    → Laws h
    → active ≡ j ∷ l
    → is_top h active i ≡ (j == i)
is_top-cons h active l i j laws a = rw (laws.top active ∙ ap head? a, is_top) refl

free-active :
    (h : Host) (q : Qp) (i : ℕ) (l : List ℕ)
    → Laws h
    → q.sq.active ≡ i ∷ l
    → (qp_free_send_wqe h q i).sq.active ≡ l
unfolding qp_free_send_wqe
free-active h q i l laws a =
    let gone : erase (i ∷ l) i ≡ l = ground arith in
    laws.del q.sq.active i ∙ ap (λ x. erase x i) a ∙ gone

module _ (h : Host) (q : Qp) (i c : ℕ) (l free : List ℕ) (laws : Laws h)
    (v : IsValidCq (q.cqs q.send_cq)) (a : q.sq.active ≡ i ∷ l)
    (e : (q.cqs q.send_cq).free_ring ≡ c ∷ free) where
  post_send_cqe-free :
      (status : WcStatus)
      → post_send_cqe h q i status
        ≡ finish_post_cqe h (qp_free_send_wqe h q i) q.send_cq c (send_wc q i c status) free
  unfolding post_send_cqe
  post_send_cqe-free status =
      rw (laws.dequeue (q.cqs q.send_cq).free_ring ∙ ap uncons e, post_send_cqe)

  finish-active :
      (wc : Completion)
      → (finish_post_cqe h (qp_free_send_wqe h q i) q.send_cq c wc free).sq.active ≡ l
  unfolding finish_post_cqe
  finish-active wc = free-active h q i l laws a

  finish-posted :
      (wc : Completion)
      → posted ((finish_post_cqe h (qp_free_send_wqe h q i) q.send_cq c wc free).cqs q.send_cq)
        ≡ posted (q.cqs q.send_cq) ++ wc ∷ []
  unfolding finish_post_cqe qp_free_send_wqe
  finish-posted wc =
      let cq = q.cqs q.send_cq in
      let cq' = post_entry h cq c wc free in
      let read_back : update q.cqs q.send_cq cq' q.send_cq ≡ cq' = ground arith in
      ap posted read_back ∙ (post_entry-Posted h cq c wc free laws v e).added

  -- The oldest request, completed.
  done_active :
      (if (q.sq.storage i).signaled
        then post_send_cqe h q i WcStatus.success
        else qp_free_send_wqe h q i).sq.active
      ≡ l
  done_active = elim (Bool-cases (q.sq.storage i).signaled) [
    | inl s ↦ rw s (
        ap (λ x. x.sq.active) (post_send_cqe-free WcStatus.success)
        ∙ finish-active (send_wc q i c WcStatus.success))
    | inr s ↦ rw s (free-active h q i l laws a)
  ]

  done_posted :
      posted (
        (if (q.sq.storage i).signaled
            then post_send_cqe h q i WcStatus.success
            else qp_free_send_wqe h q i).cqs
          q.send_cq)
      ≡ posted (q.cqs q.send_cq)
        ++ (if (q.sq.storage i).signaled then send_wc q i c WcStatus.success ∷ [] else [])
  done_posted = elim (Bool-cases (q.sq.storage i).signaled) [
    | inl s ↦ rw s (
        ap (λ x. posted (x.cqs q.send_cq)) (post_send_cqe-free WcStatus.success)
        ∙ finish-posted (send_wc q i c WcStatus.success))
    | inr s ↦ rw s (unfold qp_free_send_wqe in sym (append-nil (posted (q.cqs q.send_cq))))
  ]

  complete_top : is_top h q.sq.active i ≡ true → Attempt q i i l c (try_complete_wqe h q i)
  unfolding try_complete_wqe
  complete_top top = rw top (elim (Bool-cases (is_read (q.sq.storage i).opcode)) [
    | inl read ↦ rw read (Attempt.completed refl done_active done_posted)
    | inr other ↦ rw other (Attempt.completed refl done_active done_posted)
  ])

pub leave_early :
    (h : Host) (q : Qp) (i : ℕ) → is_top h q.sq.active i ≡ false → try_complete_wqe h q i ≡ q
unfolding try_complete_wqe
leave_early h q i e = rw e refl

-- Let a completion entry be free. try_complete_wqe for the oldest active request takes it off the
-- active list, and posts one success that carries its context if it is signaled and nothing if it
-- is not; for any other request it changes nothing.
pub try_complete_wqe-in_order :
    (h : Host) (q : Qp) (i j c : ℕ) (l free : List ℕ)
    → Laws h
    → IsValidCq (q.cqs q.send_cq)
    → q.sq.active ≡ j ∷ l
    → (q.cqs q.send_cq).free_ring ≡ c ∷ free
    → Attempt q i j l c (try_complete_wqe h q i)
try_complete_wqe-in_order h q i j c l free laws v a e = elim (Bool-cases (j == i)) [
  | inl same ↦
      let eq : j ≡ i = ==→eq j i same in
      let a' : q.sq.active ≡ i ∷ l = a ∙ ap (λ x. x ∷ l) eq in
      subst (λ k. Attempt q i k l c (try_complete_wqe h q i)) (sym eq)
        (complete_top h q i c l free laws v a' e (is_top-cons h q.sq.active l i j laws a ∙ same))
  | inr other ↦
      subst (λ x. Attempt q i j l c x)
        (sym (leave_early h q i (is_top-cons h q.sq.active l i j laws a ∙ other)))
        (Attempt.too_early (ground arith))
]
