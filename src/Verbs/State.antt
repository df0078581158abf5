-- ===== src/Verbs/State.antt =====
-- src/liburdma/verbs.c: usiw_query_qp, usiw_modify_qp and what usiw_destroy_qp makes of the
-- connection state. A compare and exchange succeeds on the state that was read last; the calls of
-- libibverbs are inputs.
use urdma.Prelude.{ℕ, zero, suc, Bool, Option, none, some, if◌then◌else◌}
use urdma.Qp.{Qp, ConnState}
use urdma.Verbs.Requests.{Ret, Errno, minus}

-- enum ibv_qp_state
pub data QpState : Type 0 where
  reset init rtr rts sqd sqe err unknown : QpState

-- The state that the exchange of usiw_modify_qp stores.
unfoldable pub modified : ConnState → ConnState
modified ConnState.unbound = ConnState.error
modified ConnState.connected = ConnState.error
modified ConnState.error = ConnState.error
modified ConnState.running = ConnState.shutdown
modified ConnState.shutdown = ConnState.shutdown

abbrev pub set_state : Qp → ConnState → Qp
set_state q s = record q { shm = record (q.shm) { conn_state = s } }

-- Only SQD and ERR change the state.
unfoldable pub modify_to : Qp → QpState → Qp
unfolding modified
modify_to q QpState.sqd = set_state q (modified q.shm.conn_state)
modify_to q QpState.err = set_state q (modified q.shm.conn_state)
modify_to q QpState.reset = q
modify_to q QpState.init = q
modify_to q QpState.rtr = q
modify_to q QpState.rts = q
modify_to q QpState.sqe = q
modify_to q QpState.unknown = q

-- By the result of ibv_cmd_modify_qp, and the state if IBV_QP_STATE is in the mask.
unfoldable pub usiw_modify_qp : ℕ → Option QpState → Qp → ℕ × Qp
unfolding modify_to
usiw_modify_qp zero none q = (0, q)
usiw_modify_qp zero (some target) q = (0, modify_to q target)
usiw_modify_qp (suc ret) target q = (suc ret, q)

-- usiw_destroy_qp, under conn_event_lock
unfoldable pub destroyed : ConnState → ConnState
destroyed ConnState.connected = ConnState.error
destroyed ConnState.running = ConnState.error
destroyed ConnState.unbound = ConnState.unbound
destroyed ConnState.shutdown = ConnState.shutdown
destroyed ConnState.error = ConnState.error

-- struct ibv_qp_cap
pub record QpCap : Type 0 where
  pub max_send_wr : ℕ
  pub max_recv_wr : ℕ
  pub max_send_sge : ℕ
  pub max_recv_sge : ℕ
  pub max_inline_data : ℕ

-- The attributes that depend on the queue pair.
pub record QpAttr : Type 0 where
  pub qp_state : QpState
  pub cap : QpCap
  pub sq_sig_all : Bool

unfoldable pub queried : ConnState → QpState
queried ConnState.unbound = QpState.init
queried ConnState.connected = QpState.rts
queried ConnState.running = QpState.rts
queried ConnState.shutdown = QpState.sqd
queried ConnState.error = QpState.err

-- What is returned and filled in; the first argument is whether the mask asks for an attribute
-- that is not supported.
unfoldable pub usiw_query_qp : Bool → Qp → Option Ret × Option QpAttr
unfolding queried
usiw_query_qp unsupported q = if unsupported then (some (minus Errno.eopnotsupp), none) else (
  none,
  some (record {
    qp_state = queried q.shm.conn_state;
    cap = record {
      max_send_wr = q.sq.max_wr;
      max_recv_wr = q.rq0.max_wr;
      max_send_sge = q.sq.max_sge;
      max_recv_sge = q.rq0.max_sge;
      max_inline_data = q.sq.max_inline;
    };
    sq_sig_all = q.sig_all;
  }),
)
