-- ===== src/Cm/Work.antt =====
-- src/kmod/cm.c: siw_accept_newconn, siw_cm_work_handler, siw_qp_cm_drop and siw_drop_listeners;
-- src/kmod/qp.c: siw_qp_llp_close.
use urdma.Prelude.{List, map, ◌++◌, ℕ, Bool, true, false, Option, none, some, if◌then◌else◌}
use urdma.Proto.{Bytes}
use urdma.Cm.{
  siw_cep_alloc, Cep, CepState, KernelQp, KernelQpState, CmEvent, CmStatus, siw_cm_upcall,
}
use urdma.Cm.Handshake.{without_private_data, qps_of, siw_cancel_timer, siw_proc_trpreply}
use urdma.Cm.Passive.{siw_proc_trpreq}

-- What siw_accept_newconn makes of a datagram that a listening endpoint received: the new endpoint,
-- if there is one. The new socket is there and binds.
unfoldable pub siw_accept_newconn : (ℕ → ℕ) → Bool → Bool → Cep → Bytes → Option Cep
unfolding siw_proc_trpreq
siw_accept_newconn htons sends handled cep datagram =
    let new_cep = record (siw_cep_alloc cep.max_ird cep.max_ord) {
      state = CepState.await_mpareq;
      timer = true;
      sock = true;
    } in
    let (on, c) = siw_proc_trpreq htons sends handled new_cep datagram in
    elim cep.state [ CepState.listening ↦ if on then some c else none | _ ↦ none ]

unfoldable pub closed_state : KernelQpState → KernelQpState
closed_state KernelQpState.idle = KernelQpState.error
closed_state KernelQpState.rtr = KernelQpState.error
closed_state KernelQpState.rts = KernelQpState.error
closed_state KernelQpState.terminate = KernelQpState.error
closed_state KernelQpState.closing = KernelQpState.idle
closed_state KernelQpState.error = KernelQpState.error
closed_state KernelQpState.moribund = KernelQpState.moribund
closed_state KernelQpState.undef = KernelQpState.undef

unfoldable pub siw_qp_llp_close : KernelQp → KernelQp
unfolding closed_state
siw_qp_llp_close qp = record qp { state = closed_state qp.state }

-- enum siw_cm_work, but for the work of a listening endpoint; a read has its datagram.
pub data Work : Type 0 where
  read_mpahdr : Bytes → Work
  close_llp : Work
  peer_close : Work
  timeout : Work

-- if (release_cep)
unfoldable pub release : Cep → Cep
unfolding siw_qp_llp_close
release cep = record cep {
  timer = false;
  state = CepState.closed;
  qp = none;
  sock = false;
  cm_id = false;
  released = cep.released ++ map siw_qp_llp_close (qps_of cep.qp);
}

abbrev pub if_cm_id : Cep → Cep → Cep
if_cm_id cep told = if cep.cm_id then told else cep

-- The event for a peer that closes, by the state; only with an IWCM id.
unfoldable pub peer_close_upcalls : Cep → CepState → Cep
unfolding siw_cm_upcall
peer_close_upcalls cep CepState.await_mparep =
    siw_cm_upcall cep CmEvent.connect_reply CmStatus.econnreset
peer_close_upcalls cep CepState.rdma_mode =
    siw_cm_upcall (siw_cm_upcall cep CmEvent.disconnect CmStatus.good) CmEvent.close CmStatus.good
peer_close_upcalls cep CepState.idle = cep
peer_close_upcalls cep CepState.listening = cep
peer_close_upcalls cep CepState.connecting = cep
peer_close_upcalls cep CepState.await_mpareq = cep
peer_close_upcalls cep CepState.recvd_mpareq = cep
peer_close_upcalls cep CepState.recvd_mparep = cep
peer_close_upcalls cep CepState.accepting = cep
peer_close_upcalls cep CepState.closed = cep

-- The event for a timeout, by the state.
unfoldable pub timeout_upcalls : Cep → CepState → Cep
unfolding siw_cm_upcall
timeout_upcalls cep CepState.await_mparep =
    let c1 = without_private_data cep in
    if_cm_id c1 (siw_cm_upcall c1 CmEvent.connect_reply CmStatus.etimedout)
timeout_upcalls cep CepState.recvd_mparep =
    siw_cm_upcall cep CmEvent.connect_reply CmStatus.etimedout
timeout_upcalls cep CepState.accepting = siw_cm_upcall cep CmEvent.established CmStatus.etimedout
timeout_upcalls cep CepState.idle = cep
timeout_upcalls cep CepState.listening = cep
timeout_upcalls cep CepState.connecting = cep
timeout_upcalls cep CepState.await_mpareq = cep
timeout_upcalls cep CepState.recvd_mpareq = cep
timeout_upcalls cep CepState.rdma_mode = cep
timeout_upcalls cep CepState.closed = cep

-- A read: only an endpoint that waits for the reply looks at the datagram.
unfoldable pub read_by_state : Bool → Cep → KernelQp → Bytes → CepState → Cep
unfolding siw_proc_trpreply release
read_by_state connects cep qp datagram CepState.await_mparep =
    let (good, c) = siw_proc_trpreply connects cep qp datagram in if good then c else release c
read_by_state connects cep qp datagram CepState.idle = cep
read_by_state connects cep qp datagram CepState.listening = cep
read_by_state connects cep qp datagram CepState.connecting = cep
read_by_state connects cep qp datagram CepState.await_mpareq = cep
read_by_state connects cep qp datagram CepState.recvd_mpareq = cep
read_by_state connects cep qp datagram CepState.recvd_mparep = cep
read_by_state connects cep qp datagram CepState.accepting = cep
read_by_state connects cep qp datagram CepState.rdma_mode = cep
read_by_state connects cep qp datagram CepState.closed = cep

-- siw_cm_work_handler; `qp` is the queue pair of the endpoint.
unfoldable pub siw_cm_work_handler : Bool → KernelQp → Cep → Work → Cep
unfolding read_by_state peer_close_upcalls timeout_upcalls siw_cm_upcall release
siw_cm_work_handler connects qp cep (read_mpahdr datagram) =
    read_by_state connects cep qp datagram cep.state
siw_cm_work_handler connects qp cep close_llp =
    release (if_cm_id cep (siw_cm_upcall cep CmEvent.close CmStatus.good))
siw_cm_work_handler connects qp cep peer_close =
    release (if_cm_id cep (peer_close_upcalls cep cep.state))
siw_cm_work_handler connects qp cep timeout =
    release (timeout_upcalls (siw_cancel_timer cep) cep.state)

unfoldable pub drop_upcalls : Cep → CepState → Cep
unfolding siw_cm_upcall
drop_upcalls cep CepState.await_mparep = siw_cm_upcall cep CmEvent.connect_reply CmStatus.einval
drop_upcalls cep CepState.rdma_mode = siw_cm_upcall cep CmEvent.close CmStatus.good
drop_upcalls cep CepState.idle = cep
drop_upcalls cep CepState.listening = cep
drop_upcalls cep CepState.connecting = cep
drop_upcalls cep CepState.await_mpareq = cep
drop_upcalls cep CepState.recvd_mpareq = cep
drop_upcalls cep CepState.recvd_mparep = cep
drop_upcalls cep CepState.accepting = cep
drop_upcalls cep CepState.closed = cep

-- The close of siw_qp_cm_drop that is not scheduled, of an endpoint that is not closed.
abbrev pub close_now : Cep → Cep
close_now cep =
    let told = if_cm_id cep (drop_upcalls cep cep.state) in
    record told {
      cm_id = false;
      state = CepState.closed;
      sock = false;
      qp = none;
      released = told.released ++ qps_of told.qp;
    }

unfoldable pub siw_qp_cm_drop : Cep → Cep
unfolding drop_upcalls
siw_qp_cm_drop cep = elim cep.state [ CepState.closed ↦ cep | _ ↦ close_now cep ]

-- siw_drop_listeners, for each listening endpoint
abbrev pub drop_listener : Cep → Cep
drop_listener cep = record cep { cm_id = false; sock = false; state = CepState.closed }

abbrev pub siw_drop_listeners : List Cep → List Cep
siw_drop_listeners ceps = map drop_listener ceps
