-- ===== src/Verbs/Session/Invariant.antt =====
-- Every pass of the progress thread and every call of a verb keeps the entries of the receive
-- queue and of the completion queues accounted for.
use mathlib.Core.Path.{subst}
use urdma.Prelude.{
  ℕ, zero, suc, sym, ap, Bool, true, false, Option, none, some, List, [], ◌∷◌, ltb, ◌==◌, length,
  inl, inr, Bool-cases, Option-cases,
}
use urdma.Host.{Host, Laws}
use urdma.Qp.{Qp, SendWqe, CompletionQueue}
use urdma.Completion.Flush.{IsValidCq}
use urdma.Completion.Consistent.{Consistent}
use urdma.Progress.Consistent.{kni_step-Consistent}
use urdma.Verbs.Requests.{plus, SendWr, RecvWr, PostResult, refused}
use urdma.Verbs.Send.{
  Prepared, ready, put_back, kept, prepare, set_flags, qp_get_next_send_wqe, sge_limit,
  post_send_loop, usiw_post_send, queue_send, free_unused_wqe, store_send, send_entry, is_closed,
}
use urdma.Verbs.PostRecv.{
  Outcome, all_queued, in_error, too_many_sges, no_entry, Queued, usiw_post_recv-Outcome,
}
use urdma.Verbs.Poll.{usiw_req_notify_cq}
use urdma.Verbs.PollOrder.{usiw_poll_cq-Polled}
use urdma.Verbs.State.{QpState, usiw_modify_qp, modify_to}
use urdma.Verbs.Session.{
  after, set_cq, Step, pass, tick, connection, posts_recv, posts_send, polls, arms, modifies, Reach,
  start, next, Fresh,
}
use urdma.Verbs.Session.Start.{Fresh-Consistent}

Queued-Consistent : {q q' : Qp} (wrs : List RecvWr) → Queued q wrs q' → Consistent q → Consistent q'
Queued-Consistent {q} {q'} wrs k v = record {
  held = record {
    owned = k.owned;
    queues =
        subst (λ cqs. (id : ℕ) → IsValidCq (cqs id)) (sym (ap (λ p. p.cqs) k.rest)) v.held.queues;
  };
}

Outcome-Consistent :
    {q : Qp} {wrs : List RecvWr} (r : PostResult RecvWr)
    → Outcome q wrs r
    → Consistent q
    → Consistent (after r)
Outcome-Consistent {q} {wrs} _ (all_queued q' alive k) v = Queued-Consistent wrs k v
Outcome-Consistent _ (in_error e) v = v
Outcome-Consistent _ (too_many_sges before wr bad q' alive e k over) v =
    Queued-Consistent before k v
Outcome-Consistent _ (no_entry before wr bad q' alive e k none_left) v =
    Queued-Consistent before k v

queue_send-Consistent :
    (h : Host) (q : Qp) (i : ℕ) (wqe : SendWqe) → Consistent q → Consistent (queue_send h q i wqe)
unfolding queue_send
queue_send-Consistent h q i wqe v = record { held = v.held }

-- An entry that is queued goes on with the rest of the requests; the others end the call.
prepared-Consistent :
    (h : Host) (wr : SendWr) (wrs : List SendWr) (q : Qp) (i : ℕ) (p : Prepared)
    → Consistent q
    → ((wqe : SendWqe)
        → Consistent (after (post_send_loop h (queue_send h q i (send_entry wqe wr)) wrs)))
    → Consistent (
        after {Wr = SendWr} (elim p [
          | kept wqe e ↦ refused (store_send q i wqe) (plus e) (wr ∷ wrs)
          | put_back wqe e ↦ refused (free_unused_wqe h (store_send q i wqe) i) (plus e) (wr ∷ wrs)
          | ready wqe ↦ post_send_loop h (queue_send h q i (send_entry wqe wr)) wrs
        ]))
unfolding free_unused_wqe
prepared-Consistent h wr wrs q i (kept wqe e) v later = record { held = v.held }
prepared-Consistent h wr wrs q i (put_back wqe e) v later = record { held = v.held }
prepared-Consistent h wr wrs q i (ready wqe) v later = later wqe

post_send_loop-Consistent :
    (h : Host) (wrs : List SendWr) (q : Qp)
    → Consistent q
    → Consistent (after (post_send_loop h q wrs))
unfolding post_send_loop qp_get_next_send_wqe
post_send_loop-Consistent h [] q v = v
post_send_loop-Consistent h (wr ∷ wrs) q v =
    elim (Bool-cases (ltb (sge_limit q wr.opcode) (length wr.sg_list))) [
      | inl over ↦ rw (over, post_send_loop) v
      | inr fits ↦ elim (Option-cases (h.ring_dequeue q.sq.free_ring)) [
        | inl e ↦ rw (fits, e, post_send_loop) v
        | inr ((i, free), e) ↦
            let q1 = record q { sq = record (q.sq) { free_ring = free } } in
            let p = prepare q1 (set_flags q1 (q1.sq.storage i) wr) wr wr.opcode in
            let v1 : Consistent q1 = record { held = v.held } in
            rw (fits, e, post_send_loop)
              (prepared-Consistent h wr wrs q1 i p v1 (λ wqe.
                post_send_loop-Consistent h wrs (queue_send h q1 i (send_entry wqe wr))
                  (queue_send-Consistent h q1 i (send_entry wqe wr) v1)))
      ]
    ]

usiw_post_send-Consistent :
    (h : Host) (wrs : List SendWr) (q : Qp)
    → Consistent q
    → Consistent (after (usiw_post_send h q wrs))
unfolding usiw_post_send
usiw_post_send-Consistent h [] q v = v
usiw_post_send-Consistent h (wr ∷ wrs) q v = elim (Bool-cases (is_closed q.shm.conn_state)) [
  | inl closed ↦ rw closed v
  | inr alive ↦ rw alive (post_send_loop-Consistent h (wr ∷ wrs) q v)
]

-- Replacing one completion queue by a well-formed one.
set_cq-Consistent :
    (q : Qp) (id : ℕ) (cq : CompletionQueue)
    → IsValidCq cq
    → Consistent q
    → Consistent (set_cq q id cq)
set_cq-Consistent q id cq new v = record {
  held = record {
    owned = v.held.owned;
    queues = λ n. elim (Bool-cases (id == n)) [
      | inl same ↦ rw same new
      | inr other ↦ rw other (v.held.queues n)
    ];
  };
}

usiw_req_notify_cq-IsValidCq :
    (channel solicited : Bool) (cq : CompletionQueue)
    → IsValidCq cq
    → IsValidCq (usiw_req_notify_cq channel solicited cq).1
unfolding usiw_req_notify_cq
usiw_req_notify_cq-IsValidCq false solicited cq v = v
usiw_req_notify_cq-IsValidCq true true cq v = v
usiw_req_notify_cq-IsValidCq true false cq v = record { distinct = v.distinct; room = v.room }

modify_to-Consistent : (q : Qp) (s : QpState) → Consistent q → Consistent (modify_to q s)
unfolding modify_to
modify_to-Consistent q QpState.sqd v = record { held = v.held }
modify_to-Consistent q QpState.err v = record { held = v.held }
modify_to-Consistent q QpState.reset v = v
modify_to-Consistent q QpState.init v = v
modify_to-Consistent q QpState.rtr v = v
modify_to-Consistent q QpState.rts v = v
modify_to-Consistent q QpState.sqe v = v
modify_to-Consistent q QpState.unknown v = v

usiw_modify_qp-Consistent :
    (ret : ℕ) (s : Option QpState) (q : Qp) → Consistent q → Consistent (usiw_modify_qp ret s q).1
unfolding usiw_modify_qp
usiw_modify_qp-Consistent zero none q v = v
usiw_modify_qp-Consistent zero (some s) q v = modify_to-Consistent q s v
usiw_modify_qp-Consistent (suc ret) s q v = v

Step-Consistent : {h : Host} {q q' : Qp} → Laws h → Consistent q → Step h q q' → Consistent q'
Step-Consistent {h} laws v (pass q memory_left garbage burst) =
    kni_step-Consistent h q memory_left garbage burst laws v
Step-Consistent laws v (tick q now) = record { held = v.held }
Step-Consistent laws v (connection q s) = record { held = v.held }
Step-Consistent {h} laws v (posts_recv q wrs) =
    Outcome-Consistent _ (usiw_post_recv-Outcome h q wrs laws v.held.owned) v
Step-Consistent {h} laws v (posts_send q wrs) = usiw_post_send-Consistent h wrs q v
Step-Consistent {h} laws v (polls q id n) =
    set_cq-Consistent q id _ (usiw_poll_cq-Polled h (q.cqs id) n laws (v.held.queues id)).valid v
Step-Consistent laws v (arms q id channel solicited) =
    set_cq-Consistent q id _
      (usiw_req_notify_cq-IsValidCq channel solicited (q.cqs id) (v.held.queues id)) v
Step-Consistent laws v (modifies q ret s) = usiw_modify_qp-Consistent ret s q v

-- From a fresh queue pair and fresh completion queues, after any number of passes of the progress
-- thread with any received packets, and calls of usiw_post_recv, usiw_post_send, usiw_poll_cq,
-- usiw_req_notify_cq and usiw_modify_qp, in any order, whatever the connection does: every entry
-- of the receive queue is free, waits or is active, exactly once, no entry of a completion queue
-- stands twice in its rings, and the rings have room for all entries.
pub Reach-Consistent : (h : Host) (q0 q : Qp) → Laws h → Fresh h q0 → Reach h q0 q → Consistent q
Reach-Consistent h q0 _ laws f (start q) = Fresh-Consistent h q0 laws f
Reach-Consistent h q0 _ laws f (next r s) =
    Step-Consistent laws (Reach-Consistent h q0 _ laws f r) s
