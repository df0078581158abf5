-- ===== src/Verbs/Closing.antt =====
-- src/liburdma/verbs.c: usiw_modify_qp to SQD or ERR, and usiw_destroy_qp, against the state that
-- usiw_query_qp reports and the other calls see.
use urdma.Prelude.{ℕ, ◌≤◌, ◌≡◌, refl, Bool, true, false, some, List, ◌∷◌, arith}
use urdma.Host.{Host}
use urdma.Qp.{Qp, ConnState}
use urdma.Packet.{Packet}
use urdma.Progress.{kni_by_state, kni_step}
use urdma.Verbs.Requests.{plus, Errno, SendWr, refused}
use urdma.Verbs.Send.{usiw_post_send}
use urdma.Verbs.State.{QpState, modified, modify_to, usiw_modify_qp, queried, set_state}

-- The order in which a connection passes through its states.
abbrev pub rank : ConnState → ℕ
rank ConnState.unbound = 0
rank ConnState.connected = 1
rank ConnState.running = 2
rank ConnState.shutdown = 3
rank ConnState.error = 4

abbrev pub is_closing : QpState → Bool
is_closing QpState.sqd = true
is_closing QpState.err = true
is_closing QpState.reset = false
is_closing QpState.init = false
is_closing QpState.rtr = false
is_closing QpState.rts = false
is_closing QpState.sqe = false
is_closing QpState.unknown = false

-- What the user and the progress thread see of a connection that is closed.
pub record IsClosed (h : Host) (before after : Qp) : Type 0 where
  pub forward : rank before.shm.conn_state ≤ rank after.shm.conn_state
  pub reported : is_closing (queried after.shm.conn_state) ≡ true
  pub no_sends :
      (wr : SendWr) (wrs : List SendWr)
      → usiw_post_send h after (wr ∷ wrs) ≡ refused after (plus Errno.einval) (wr ∷ wrs)
  pub last_pass :
      (memory_left : Bool) (garbage : ℕ → ℕ) (burst : List Packet)
      → (kni_step h after memory_left garbage burst).1 ≡ false

in_state-IsClosed :
    (h : Host) (q : Qp) (s : ConnState)
    → rank q.shm.conn_state ≤ rank s
    → 3 ≤ rank s
    → IsClosed h q (set_state q s)
unfolding queried usiw_post_send kni_step kni_by_state
in_state-IsClosed h q ConnState.shutdown p c = record {
  forward = p;
  reported = refl;
  no_sends = λ wr wrs. refl;
  last_pass = λ m g b. refl;
}
in_state-IsClosed h q ConnState.error p c = record {
  forward = p;
  reported = refl;
  no_sends = λ wr wrs. refl;
  last_pass = λ m g b. refl;
}
in_state-IsClosed h q ConnState.unbound p c = absurd (omega (arith, c))
in_state-IsClosed h q ConnState.connected p c = absurd (omega (arith, c))
in_state-IsClosed h q ConnState.running p c = absurd (omega (arith, c))

modified_forward : (s : ConnState) → (rank s ≤ rank (modified s)) × (3 ≤ rank (modified s))
unfolding modified
modified_forward ConnState.unbound = (omega arith, omega arith)
modified_forward ConnState.connected = (omega arith, omega arith)
modified_forward ConnState.running = (omega arith, omega arith)
modified_forward ConnState.shutdown = (omega arith, omega arith)
modified_forward ConnState.error = (omega arith, omega arith)

-- Let the kernel accept the change of a queue pair to SQD or ERR. Then usiw_modify_qp succeeds and
-- takes the connection forward in its life and never back, usiw_query_qp reports SQD or ERR,
-- usiw_post_send refuses every request, and the next pass of the progress thread is the last one.
pub usiw_modify_qp-IsClosed :
    (h : Host) (q : Qp) (target : QpState)
    → is_closing target ≡ true
    → ((usiw_modify_qp 0 (some target) q).0 ≡ 0) × IsClosed h q (usiw_modify_qp 0 (some target) q).1
unfolding usiw_modify_qp modify_to
usiw_modify_qp-IsClosed h q QpState.sqd e =
    let f = modified_forward q.shm.conn_state in (refl, in_state-IsClosed h q _ f.0 f.1)
usiw_modify_qp-IsClosed h q QpState.err e =
    let f = modified_forward q.shm.conn_state in (refl, in_state-IsClosed h q _ f.0 f.1)
usiw_modify_qp-IsClosed h q QpState.reset e = absurd (ground (arith, e))
usiw_modify_qp-IsClosed h q QpState.init e = absurd (ground (arith, e))
usiw_modify_qp-IsClosed h q QpState.rtr e = absurd (ground (arith, e))
usiw_modify_qp-IsClosed h q QpState.rts e = absurd (ground (arith, e))
usiw_modify_qp-IsClosed h q QpState.sqe e = absurd (ground (arith, e))
usiw_modify_qp-IsClosed h q QpState.unknown e = absurd (ground (arith, e))
