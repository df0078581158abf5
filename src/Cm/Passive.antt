-- ===== src/Cm/Passive.antt =====
-- src/kmod/cm.c: siw_proc_trpreq, siw_accept and siw_reject, the side that listens.
use urdma.Prelude.{
  ℕ, ◌++◌, Bool, true, false, ◌||◌, not, none, some, [], ◌∷◌, ltb, ◌==◌, if◌then◌else◌, length, min,
}
use urdma.Proto.{Bytes}
use urdma.Cm.{
  Cep, CepState, KernelQp, CmEvent, CmStatus, siw_cm_upcall, trp_req, trp_reject, pdata_len_max,
}
use urdma.Cm.Messages.{siw_send_trpreqrep, siw_recv_trp_rr}
use urdma.Cm.Handshake.{
  with_opcode, siw_cancel_timer, start_timer, modify_to_rts, past_rtr, without_private_data,
}

-- reject: of siw_proc_trpreq
abbrev pub reject_request : Bool → Cep → Bool × Cep
reject_request sends cep = (false, siw_send_trpreqrep sends (with_opcode cep trp_reject) [])

-- siw_proc_trpreq on what siw_recv_trp_rr returns. `handled` is whether the event handler takes
-- the event; the result is whether the request goes on to accept or reject.
unfoldable pub request_received : (ℕ → ℕ) → Bool → Bool → Bool × Cep → Bool × Cep
unfolding siw_send_trpreqrep siw_cm_upcall
request_received htons sends handled (whole, c) =
    let c1 = siw_cancel_timer c in
    let c2 = record c1 { state = CepState.recvd_mpareq; ird = c1.hdr.ord; ord = c1.hdr.ird } in
    let c3 = record c2 {
      ird = htons (min c2.ird c2.max_ird);
      ord = htons (min c2.ord c2.max_ord);
    } in
    if not whole || not (c1.hdr.opcode == trp_req)
    then reject_request sends c1
    else if ltb c2.max_ird c2.ird || ltb c2.max_ord c2.ord
    then reject_request sends c3
    else (handled, siw_cm_upcall c2 CmEvent.connect_request CmStatus.good)

unfoldable pub siw_proc_trpreq : (ℕ → ℕ) → Bool → Bool → Cep → Bytes → Bool × Cep
unfolding siw_recv_trp_rr request_received
siw_proc_trpreq htons sends handled cep datagram =
    request_received htons sends handled (siw_recv_trp_rr cep datagram)

-- error: of siw_accept, with the queue pair as it is then.
abbrev pub abandon : Cep → KernelQp → Cep
abandon cep qp = record cep {
  sock = false;
  state = CepState.closed;
  cm_id = false;
  qp = none;
  released = cep.released ++ qp ∷ [];
}

-- siw_accept on an endpoint that is not closed.
unfoldable pub accept_open : Bool → Bool → Cep → KernelQp → ℕ → ℕ → Bytes → Bool × Cep
unfolding modify_to_rts
accept_open connects memory_left cep qp ird ord private_data =
    let ready = record cep {
      cm_id = true;
      qp = some (modify_to_rts qp ird ord);
      send_pdata = private_data;
      state = CepState.accepting;
    } in
    if past_rtr qp.state
      || ltb cep.ord ord
      || ltb cep.max_ird ird
      || ltb pdata_len_max (length private_data)
      || not connects
    then (false, abandon cep qp)
    else if memory_left
    then (true, start_timer ready)
    else (false, abandon cep (modify_to_rts qp ird ord))

-- The first inputs are whether the socket connects and whether memory for the private data is
-- there. The result is whether siw_accept succeeds.
unfoldable pub siw_accept : Bool → Bool → Cep → KernelQp → ℕ → ℕ → Bytes → Bool × Cep
unfolding accept_open
siw_accept connects memory_left cep qp ird ord private_data =
    let c1 = without_private_data cep in
    elim cep.state [
      | CepState.closed ↦ (false, c1)
      | _ ↦ accept_open connects memory_left c1 qp ird ord private_data
    ]

-- siw_reject on an endpoint that is not closed.
unfoldable pub reject_open : Bool → Cep → Bytes → Cep
unfolding siw_send_trpreqrep
reject_open sends cep pdata =
    let c1 = siw_send_trpreqrep sends (with_opcode cep trp_reject) pdata in
    record c1 { sock = false; state = CepState.closed }

unfoldable pub siw_reject : Bool → Cep → Bytes → Cep
unfolding reject_open
siw_reject sends cep pdata = elim cep.state [
  | CepState.closed ↦ cep
  | _ ↦ reject_open sends cep pdata
]
