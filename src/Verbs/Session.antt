-- ===== src/Verbs/Session.antt =====
-- A queue pair with its completion queues in use: passes of the progress thread
-- (src/liburdma/interface.c) and calls of the verbs (src/liburdma/verbs.c), in any order and
-- number. Each step is one pass or one call, under the locks that it takes. Connecting and
-- disconnecting, which urdmad and the kernel do, is a step that sets the connection state.
pub mod Start
pub mod Invariant
use mathlib.Core.Path.{subst}
use urdma.Prelude.{
  ℕ, zero, suc, ◌+◌, ◌≤◌, ◌≡◌, refl, sym, ◌∙◌, Bool, true, false, Option, none, some, List, [], ◌∷◌,
  ◌++◌, ltb, ◌==◌, if◌then◌else◌, arith, length, length-append, inl, inr, Bool-cases,
}
use urdma.Prelude.Counts.{bit, times, times-append, times→Distinct, bit-most}
use urdma.Host.{Host, Laws}
use urdma.Qp.{Qp, ConnState, Iovec, RecvWqe, Completion, CompletionQueue, update}
use urdma.Completion.{enqueue}
use urdma.Completion.Flush.{IsValidCq, enqueue-room}
use urdma.Completion.Owned.{Owned}
use urdma.Completion.Consistent.{Consistent, Accounted}
use urdma.Packet.{Packet}
use urdma.Progress.{kni_step}
use urdma.Progress.Consistent.{kni_step-Consistent}
use urdma.Verbs.Requests.{SendWr, RecvWr, PostResult, accepted, refused, AcclResult, done, failed}
use urdma.Verbs.Recv.{usiw_post_recv, fill_ring, usiw_recv_wqe_queue_init}
use urdma.Verbs.Send.{
  Prepared, ready, put_back, kept, prepare, set_flags, qp_get_next_send_wqe, sge_limit,
  post_send_loop, usiw_post_send, queue_send, free_unused_wqe, store_send, send_entry,
}
use urdma.Verbs.PostRecv.{
  Outcome, all_queued, in_error, too_many_sges, no_entry, Queued, usiw_post_recv-Outcome,
}
use urdma.Verbs.Poll.{usiw_poll_cq, usiw_req_notify_cq, init_cq}
use urdma.Verbs.PollOrder.{usiw_poll_cq-Polled}
use urdma.Verbs.State.{QpState, usiw_modify_qp, set_state}

-- The queue pair after a call that posts requests.
abbrev pub after : {Wr : Type 0} → PostResult Wr → Qp
after (accepted q) = q
after (refused q ret bad) = q

abbrev pub set_cq : Qp → ℕ → CompletionQueue → Qp
set_cq q id cq = record q { cqs = update q.cqs id cq }

pub data Step (h : Host) : Qp → Qp → Type 0 where
  pass :
      (q : Qp) (memory_left : Bool) (garbage : ℕ → ℕ) (burst : List Packet)
      → Step h q (kni_step h q memory_left garbage burst).0
  tick : (q : Qp) (now : ℕ) → Step h q (record q { cycles = now })
  connection : (q : Qp) (s : ConnState) → Step h q (set_state q s)
  posts_recv : (q : Qp) (wrs : List RecvWr) → Step h q (after (usiw_post_recv h q wrs))
  posts_send : (q : Qp) (wrs : List SendWr) → Step h q (after (usiw_post_send h q wrs))
  polls : (q : Qp) (id n : ℕ) → Step h q (set_cq q id (usiw_poll_cq h (q.cqs id) n).1)
  arms :
      (q : Qp) (id : ℕ) (channel solicited : Bool)
      → Step h q (set_cq q id (usiw_req_notify_cq channel solicited (q.cqs id)).1)
  modifies : (q : Qp) (ret : ℕ) (s : Option QpState) → Step h q (usiw_modify_qp ret s q).1

pub data Reach (h : Host) : Qp → Qp → Type 0 where
  start : (q : Qp) → Reach h q q
  next : {q q1 q2 : Qp} → Reach h q q1 → Step h q1 q2 → Reach h q q2

-- What usiw_create_qp and usiw_create_cq set up.
pub record Fresh (h : Host) (q : Qp) : Type 0 where
  pub zeroed : RecvWqe
  pub max_wr : ℕ
  pub max_sge : ℕ
  pub rq0 : q.rq0 ≡ usiw_recv_wqe_queue_init h zeroed max_wr max_sge
  pub size : ℕ → ℕ
  pub cqs : (id : ℕ) → q.cqs id ≡ init_cq h (q.cqs id).storage (q.cqs id).cq_id (size id)
