-- ===== src/Completion/Consistent.antt =====
-- src/liburdma/interface.c: the invariant of what a queue pair shares with its user, the entries
-- of the receive queue and those of the completion queues, through the functions that post
-- completions.
use mathlib.Core.Path.{subst}
use urdma.Prelude.{
  ℕ, zero, suc, ◌+◌, ◌≤◌, ◌<◌, ◌≡◌, ap, ◌∙◌, inl, inr, some, none, Option, Bool, true, false, List,
  [], ◌∷◌, ◌==◌, if◌then◌else◌, arith, length, List-cases,
}
use urdma.Prelude.Counts.{times, bit, times_self}
use urdma.Host.{Host, Laws, uncons}
use urdma.Qp.{Qp, CompletionQueue, Completion, WcStatus, RecvQueue}
use urdma.Completion.{
  enqueue, finish_post_cqe, post_recv_cqe, post_send_cqe, qp_free_recv_wqe, qp_free_send_wqe,
  try_complete_wqe, activate_recv, take_recv, rq_flush, post_recv_all, take_send, post_send_all,
  sq_flush, dequeue_recv_wqes, is_top, is_read,
}
use urdma.Completion.Flush.{IsValidCq, post_entry-Posted, enqueue-room}
use urdma.Completion.Owned.{
  Owned, RecvOwned, release-Owned, activate-Owned, times-erase, length-erase,
}

-- Every entry of the receive queue is free, waits or is active, once; and no entry of a completion
-- queue stands twice in its rings.
pub record Accounted (size : ℕ) (ring free active : List ℕ) (cqs : ℕ → CompletionQueue)
    : Type 0 where
  pub owned : Owned [] size ring free active
  pub queues : (id : ℕ) → IsValidCq (cqs id)

pub record Consistent (q : Qp) : Type 0 where
  pub held : Accounted q.rq0.max_wr q.rq0.ring q.rq0.free_ring q.rq0.active q.cqs

pub if-Consistent :
    (b : Bool) {x y : Qp} → Consistent x → Consistent y → Consistent (if b then x else y)
if-Consistent true u v = u
if-Consistent false u v = v

pub option-Consistent {ℓ} :
    {A : Type ℓ} (o : Option A) {x : Qp} {f : A → Qp}
    → Consistent x
    → ((a : A) → Consistent (f a))
    → Consistent (elim o [ none ↦ x | some a ↦ f a ])
option-Consistent none u v = u
option-Consistent (some a) u v = v a

finish_post_cqe-queues :
    (h : Host) (q : Qp) (id c : ℕ) (wc : Completion) (free : List ℕ)
    → Laws h
    → ((n : ℕ) → IsValidCq (q.cqs n))
    → (q.cqs id).free_ring ≡ c ∷ free
    → (n : ℕ) → IsValidCq ((finish_post_cqe h q id c wc free).cqs n)
unfolding finish_post_cqe
finish_post_cqe-queues h q id c wc free laws v e n =
    let new = (post_entry-Posted h (q.cqs id) c wc free laws (v id) e).valid in
    update-IsValidCq (id == n) new (v n)
  where
    update-IsValidCq :
        (b : Bool) {x y : CompletionQueue}
        → IsValidCq x
        → IsValidCq y
        → IsValidCq (if b then x else y)
    update-IsValidCq true u w = u
    update-IsValidCq false u w = w

enqueue_free-Owned :
    (h : Host) (r : RecvQueue) (i : ℕ)
    → Laws h
    → RecvOwned r
    → 0 < times i r.active
    → Owned [] r.max_wr r.ring (enqueue h r.max_wr r.free_ring i) (h.list_del r.active i)
enqueue_free-Owned h r i laws o p =
    let done = release-Owned i p o in
    let room : length r.free_ring < r.max_wr = omega (arith, o.all, length-erase i r.active p) in
    rw (enqueue-room h r.max_wr r.free_ring i laws room, laws.del r.active i) done

pub post_send_cqe-Consistent :
    (h : Host) (q : Qp) (i : ℕ) (status : WcStatus)
    → Laws h
    → Consistent q
    → Consistent (post_send_cqe h q i status)
unfolding post_send_cqe finish_post_cqe qp_free_send_wqe
post_send_cqe-Consistent h q i status laws v = elim (List-cases (q.cqs q.send_cq).free_ring) [
  | inl e ↦ rw (laws.dequeue (q.cqs q.send_cq).free_ring ∙ ap uncons e, post_send_cqe) v
  | inr (c, free, e) ↦
      rw (laws.dequeue (q.cqs q.send_cq).free_ring ∙ ap uncons e, post_send_cqe)
        (record {
          held = record {
            owned = v.held.owned;
            queues = finish_post_cqe-queues h q q.send_cq c _ free laws v.held.queues e;
          };
        })
]

pub post_recv_cqe-Consistent :
    (h : Host) (q : Qp) (i : ℕ) (status : WcStatus)
    → Laws h
    → 0 < times i q.rq0.active
    → Consistent q
    → Consistent (post_recv_cqe h q i status)
unfolding post_recv_cqe finish_post_cqe qp_free_recv_wqe
post_recv_cqe-Consistent h q i status laws p v = elim (List-cases (q.cqs q.recv_cq).free_ring) [
  | inl e ↦ rw (laws.dequeue (q.cqs q.recv_cq).free_ring ∙ ap uncons e, post_recv_cqe) v
  | inr (c, free, e) ↦
      rw (laws.dequeue (q.cqs q.recv_cq).free_ring ∙ ap uncons e, post_recv_cqe)
        (record {
          held = record {
            owned = enqueue_free-Owned h q.rq0 i laws v.held.owned p;
            queues = finish_post_cqe-queues h q q.recv_cq c _ free laws v.held.queues e;
          };
        })
]

pub try_complete_wqe-Consistent :
    (h : Host) (q : Qp) (i : ℕ) → Laws h → Consistent q → Consistent (try_complete_wqe h q i)
unfolding try_complete_wqe qp_free_send_wqe
try_complete_wqe-Consistent h q i laws v =
    let w = q.sq.storage i in
    let done =
      if-Consistent w.signaled (post_send_cqe-Consistent h q i WcStatus.success laws v)
        (record { held = v.held }) in
    if-Consistent (is_top h q.sq.active i)
      (if-Consistent (is_read w.opcode) (record { held = done.held }) done) v

-- The completions of a list of active requests.
post_recv_cqe-active :
    (h : Host) (q : Qp) (i : ℕ) (status : WcStatus) (n : ℕ)
    → Laws h
    → 0 < times i q.rq0.active
    → times n q.rq0.active ≤ times n (post_recv_cqe h q i status).rq0.active + bit (n == i)
unfolding post_recv_cqe finish_post_cqe qp_free_recv_wqe
post_recv_cqe-active h q i status n laws p = elim (List-cases (q.cqs q.recv_cq).free_ring) [
  | inl e ↦ rw (laws.dequeue (q.cqs q.recv_cq).free_ring ∙ ap uncons e, post_recv_cqe) (omega arith)
  | inr (c, free, e) ↦
      rw (laws.dequeue (q.cqs q.recv_cq).free_ring ∙ ap uncons e, post_recv_cqe)
        (rw (laws.del q.rq0.active i) (omega (arith, times-erase n i q.rq0.active p)))
]

post_recv_all-Consistent :
    (h : Host) (l : List ℕ) (q : Qp)
    → Laws h
    → ((n : ℕ) → times n l ≤ times n q.rq0.active)
    → Consistent q
    → Consistent (post_recv_all h l q)
unfolding post_recv_all
post_recv_all-Consistent h [] q laws p v = v
post_recv_all-Consistent h (i ∷ l) q laws p v =
    let there : 0 < times i q.rq0.active = omega (arith, p i, times_self i l) in
    post_recv_all-Consistent h l (post_recv_cqe h q i WcStatus.wr_flush_err) laws
      (λ n. omega (arith, p n, post_recv_cqe-active h q i WcStatus.wr_flush_err n laws there))
      (post_recv_cqe-Consistent h q i WcStatus.wr_flush_err laws there v)

-- A receive queue by itself.
activate_recv-Owned :
    (h : Host) (r : RecvQueue) (i : ℕ) (ring : List ℕ)
    → Laws h
    → RecvOwned r
    → r.ring ≡ i ∷ ring
    → RecvOwned (activate_recv h (record r { ring = ring }) i)
unfolding activate_recv
activate_recv-Owned h r i ring laws o e =
    rw (laws.add_tail r.active i)
      (activate-Owned i (subst (λ l. Owned [] r.max_wr l r.free_ring r.active) e o))

take_recv-Owned :
    (h : Host) (fuel : ℕ) (r : RecvQueue) → Laws h → RecvOwned r → RecvOwned (take_recv h fuel r)
unfolding take_recv
take_recv-Owned h zero r laws o = o
take_recv-Owned h (suc fuel) r laws o = elim (List-cases r.ring) [
  | inl e ↦ rw (laws.dequeue r.ring ∙ ap uncons e, take_recv) o
  | inr (i, ring, e) ↦
      rw (laws.dequeue r.ring ∙ ap uncons e, take_recv)
        (take_recv-Owned h fuel (activate_recv h (record r { ring = ring }) i) laws
          (activate_recv-Owned h r i ring laws o e))
]

pub dequeue_recv_wqes-Consistent :
    (h : Host) (q : Qp) → Laws h → Consistent q → Consistent (dequeue_recv_wqes h q)
unfolding dequeue_recv_wqes
dequeue_recv_wqes-Consistent h q laws v = record {
  held = record {
    owned = take_recv-Owned h (length q.rq0.ring + 1) q.rq0 laws v.held.owned;
    queues = v.held.queues;
  };
}

pub rq_flush-Consistent : (h : Host) (q : Qp) → Laws h → Consistent q → Consistent (rq_flush h q)
unfolding rq_flush dequeue_recv_wqes
rq_flush-Consistent h q laws v =
    post_recv_all-Consistent h _ (dequeue_recv_wqes h q) laws (λ n. omega arith)
      (dequeue_recv_wqes-Consistent h q laws v)

post_send_all-Consistent :
    (h : Host) (l : List ℕ) (q : Qp) → Laws h → Consistent q → Consistent (post_send_all h l q)
unfolding post_send_all
post_send_all-Consistent h [] q laws v = v
post_send_all-Consistent h (i ∷ l) q laws v =
    post_send_all-Consistent h l (post_send_cqe h q i WcStatus.wr_flush_err) laws
      (post_send_cqe-Consistent h q i WcStatus.wr_flush_err laws v)

pub sq_flush-Consistent : (h : Host) (q : Qp) → Laws h → Consistent q → Consistent (sq_flush h q)
unfolding sq_flush
sq_flush-Consistent h q laws v =
    let sq = take_send h (length q.sq.ring + 1) q.sq in
    post_send_all-Consistent h sq.active (record q { sq = sq }) laws (record { held = v.held })
