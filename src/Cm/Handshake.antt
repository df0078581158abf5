-- ===== src/Cm/Handshake.antt =====
-- src/kmod/cm.c: siw_connect, siw_qp_rtr, siw_qp_rtr_fail and siw_proc_trpreply;
-- src/kmod/qp.c: the step of siw_qp_modify to RTS, which they take. The daemon is there to be
-- notified of an established connection.
use urdma.Prelude.{
  ℕ, ◌%◌, ◌^◌, ◌++◌, zero, suc, Bool, true, false, ◌||◌, not, Option, none, some, List, [], ◌∷◌,
  ltb, ◌==◌, if◌then◌else◌, length, min,
}
use urdma.Proto.{Bytes}
use urdma.Cm.{
  Cep, CepState, KernelQp, KernelQpState, CmEvent, CmStatus, siw_cm_upcall, trp_req, trp_accept,
  pdata_len_max,
}
use urdma.Cm.Messages.{siw_send_trpreqrep, siw_recv_trp_rr}

-- Every message of a handshake has the numbers 0.
abbrev pub with_opcode : Cep → ℕ → Cep
with_opcode cep opcode =
    let r = cep.hdr in record cep { hdr = record r { psn = 0; ack_psn = 0; opcode = opcode } }

abbrev pub siw_cancel_timer : Cep → Cep
siw_cancel_timer cep = record cep { timer = false }

-- siw_cm_queue_work(cep, SIW_CM_WORK_TIMEOUT)
abbrev pub start_timer : Cep → Cep
start_timer cep = record cep { timer = true }

abbrev pub or_one : ℕ → ℕ
or_one zero = 1
or_one (suc n) = suc n

abbrev pub max : ℕ → ℕ → ℕ
max a b = if ltb a b then b else a

-- siw_qp_modify from IDLE or RTR to RTS
unfoldable pub modify_to_rts : KernelQp → ℕ → ℕ → KernelQp
modify_to_rts qp irq orq = record qp {
  state = KernelQpState.rts;
  irq_size = or_one (irq % 2 ^ 16);
  orq_size = or_one (orq % 2 ^ 16);
}

-- qp->attrs.state > SIW_QP_STATE_RTR
abbrev pub past_rtr : KernelQpState → Bool
past_rtr KernelQpState.idle = false
past_rtr KernelQpState.rtr = false
past_rtr KernelQpState.rts = true
past_rtr KernelQpState.closing = true
past_rtr KernelQpState.terminate = true
past_rtr KernelQpState.error = true
past_rtr KernelQpState.moribund = true
past_rtr KernelQpState.undef = true

-- siw_connect on a new endpoint, if the socket calls before the send succeed. `none` is an error.
unfoldable pub siw_connect : Bool → Cep → KernelQp → ℕ → ℕ → Bytes → Option Cep
unfolding siw_send_trpreqrep
siw_connect sends cep qp ird ord private_data =
    let made = record cep {
      cm_id = true;
      sock = true;
      qp = some qp;
      ird = ird % 2 ^ 16;
      ord = ord % 2 ^ 16;
      state = CepState.await_mparep;
    } in
    let r = made.hdr in
    let req =
      with_opcode (record made { hdr = record r { ird = made.ird; ord = made.ord } }) trp_req in
    let done = siw_send_trpreqrep sends req private_data in
    let r' = done.hdr in
    if ltb pdata_len_max (length private_data)
    then none
    else if sends
    then some (start_timer (record done { hdr = record r' { pd_len = 0 } }))
    else none

abbrev pub without_private_data : Cep → Cep
without_private_data cep = let r = cep.hdr in record cep { hdr = record r { pd_len = 0 } }

abbrev pub irq_of : Option KernelQp → ℕ
irq_of none = 0
irq_of (some qp) = qp.irq_size

abbrev pub orq_of : Option KernelQp → ℕ
orq_of none = 0
orq_of (some qp) = qp.orq_size

abbrev pub qps_of : Option KernelQp → List KernelQp
qps_of none = []
qps_of (some qp) = qp ∷ []

-- accept_error: of siw_qp_rtr
abbrev pub rtr_abandon : Cep → Cep
rtr_abandon cep = record cep {
  sock = false;
  state = CepState.closed;
  cm_id = false;
  qp = none;
  released = cep.released ++ qps_of cep.qp;
}

-- The reply that siw_qp_rtr builds.
abbrev pub accept_message : Cep → Cep
accept_message cep =
    let r = cep.hdr in
    with_opcode
      (record cep { hdr = record r { ird = irq_of cep.qp % 2 ^ 16; ord = orq_of cep.qp % 2 ^ 16 } })
      trp_accept

-- siw_qp_rtr by the state of the endpoint.
unfoldable pub rtr_by_state : Bool → Bool → Cep → CepState → Cep
unfolding siw_send_trpreqrep siw_cm_upcall
rtr_by_state sends handled cep CepState.accepting =
    let c1 = siw_send_trpreqrep sends (accept_message cep) cep.send_pdata in
    let c2 = siw_cm_upcall c1 CmEvent.established CmStatus.good in
    if sends
    then (if handled then record c2 { state = CepState.rdma_mode } else rtr_abandon c2)
    else c1
rtr_by_state sends handled cep CepState.recvd_mparep =
    let c1 = siw_cm_upcall cep CmEvent.connect_reply CmStatus.good in
    if handled then record c1 { state = CepState.rdma_mode } else c1
rtr_by_state sends handled cep CepState.idle = cep
rtr_by_state sends handled cep CepState.listening = cep
rtr_by_state sends handled cep CepState.connecting = cep
rtr_by_state sends handled cep CepState.await_mpareq = cep
rtr_by_state sends handled cep CepState.recvd_mpareq = cep
rtr_by_state sends handled cep CepState.await_mparep = cep
rtr_by_state sends handled cep CepState.rdma_mode = cep
rtr_by_state sends handled cep CepState.closed = cep

unfoldable pub siw_qp_rtr : Bool → Bool → Cep → Cep
unfolding rtr_by_state
siw_qp_rtr sends handled cep = rtr_by_state sends handled (siw_cancel_timer cep) cep.state

unfoldable pub rtr_fail_upcall : Cep → CepState → Cep
unfolding siw_cm_upcall
rtr_fail_upcall cep CepState.accepting = siw_cm_upcall cep CmEvent.established CmStatus.econnaborted
rtr_fail_upcall cep CepState.recvd_mparep =
    siw_cm_upcall cep CmEvent.connect_reply CmStatus.econnaborted
rtr_fail_upcall cep CepState.idle = cep
rtr_fail_upcall cep CepState.listening = cep
rtr_fail_upcall cep CepState.connecting = cep
rtr_fail_upcall cep CepState.await_mpareq = cep
rtr_fail_upcall cep CepState.recvd_mpareq = cep
rtr_fail_upcall cep CepState.await_mparep = cep
rtr_fail_upcall cep CepState.rdma_mode = cep
rtr_fail_upcall cep CepState.closed = cep

unfoldable pub siw_qp_rtr_fail : Cep → Cep
unfolding rtr_fail_upcall
siw_qp_rtr_fail cep =
    let c1 = rtr_fail_upcall (siw_cancel_timer cep) cep.state in
    record c1 { state = CepState.closed }

-- siw_proc_trpreply on what siw_recv_trp_rr returns; the result is whether rv is 0.
unfoldable pub reply_received : Bool → KernelQp → Bool × Cep → Bool × Cep
unfolding siw_cm_upcall modify_to_rts
reply_received connects qp (whole, c) =
    let c1 = siw_cancel_timer c in
    let out_err : Bool × Cep = (false, siw_cm_upcall c1 CmEvent.connect_reply CmStatus.einval) in
    let r = c1.hdr in
    let up = record c1 {
      qp = some (modify_to_rts qp (max r.ord c1.ird) (min r.ird c1.ord));
      state = CepState.recvd_mparep;
    } in
    if not whole
    then out_err
    else if not (r.opcode == trp_accept)
    then (false, siw_cm_upcall c1 CmEvent.connect_reply CmStatus.econnreset)
    else if ltb c1.max_ird r.ord || ltb c1.max_ord r.ird
    then (false, c1)
    else if not connects || past_rtr qp.state
    then out_err
    else (true, start_timer up)

unfoldable pub siw_proc_trpreply : Bool → Cep → KernelQp → Bytes → Bool × Cep
unfolding siw_recv_trp_rr reply_received
siw_proc_trpreply connects cep qp datagram =
    reply_received connects qp (siw_recv_trp_rr cep datagram)
