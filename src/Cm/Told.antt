-- ===== src/Cm/Told.antt =====
-- src/kmod/cm.c: how often the IWCM is told how a connection went.
use urdma.Prelude.{ℕ, ◌≡◌, refl, ap, Bool, true, false, some, arith}
use urdma.Proto.{Bytes}
use urdma.Cm.QpState.{
  Change, changes, refuses, drops_connection, carried_out, change_state, siw_qp_modify,
}
use urdma.Cm.{siw_cep_alloc, Cep, CepState, KernelQp, CmEvent, CmStatus, siw_cm_upcall}
use urdma.Cm.Messages.{siw_send_trpreqrep, siw_recv_trp_rr}
use urdma.Cm.Handshake.{
  siw_connect, siw_qp_rtr, rtr_by_state, siw_qp_rtr_fail, accept_message, siw_cancel_timer,
}
use urdma.Cm.Passive.{
  siw_proc_trpreq, request_received, siw_accept, accept_open, siw_reject, reject_open,
}
use urdma.Cm.Work.{
  Work, read_mpahdr, close_llp, peer_close, timeout, siw_accept_newconn, siw_cm_work_handler,
  siw_qp_cm_drop, release, peer_close_upcalls, timeout_upcalls, drop_upcalls, close_now, if_cm_id,
}
use urdma.Cm.Life.{
  Step, works, drops, becomes_ready, fails, accepts, modifies, rejects, Reach, connected, arrived,
  next,
}
use urdma.Cm.Answers.{
  answers, unanswered, ToldOnce, Closing, answers-told, if_cm_id-Closing, peer_close-Closing,
  timeout-Closing, drop-Closing, rtr_fail-Closing,
}
use urdma.Cm.Replies.{recv-keeps, read-ToldOnce}

release-ToldOnce : (c told : Cep) → ToldOnce c → Closing c c.state told → ToldOnce (release told)
unfolding release
release-ToldOnce c told v p = omega (arith, v, p)

work-ToldOnce :
    (up : Bool) (qp : KernelQp) (c : Cep) (w : Work)
    → ToldOnce c
    → ToldOnce (siw_cm_work_handler up qp c w)
unfolding siw_cm_work_handler
work-ToldOnce up qp c (read_mpahdr d) v = read-ToldOnce up qp c d c.state refl v
work-ToldOnce up qp c close_llp v =
    let told = siw_cm_upcall c CmEvent.close CmStatus.good in
    release-ToldOnce c (if_cm_id c told) v
      (if_cm_id-Closing c told c.state (omega (arith, answers-told c CmEvent.close CmStatus.good)))
work-ToldOnce up qp c peer_close v =
    release-ToldOnce c (if_cm_id c (peer_close_upcalls c c.state)) v
      (if_cm_id-Closing c (peer_close_upcalls c c.state) c.state (peer_close-Closing c c.state))
work-ToldOnce up qp c timeout v =
    release-ToldOnce c (timeout_upcalls (siw_cancel_timer c) c.state) v
      (timeout-Closing (siw_cancel_timer c) c.state)

drop-ToldOnce : (c : Cep) → ToldOnce c → ToldOnce (siw_qp_cm_drop c)
unfolding siw_qp_cm_drop
drop-ToldOnce c v =
    let closing = if_cm_id-Closing c (drop_upcalls c c.state) c.state (drop-Closing c c.state) in
    elim c.state as (λ k. ToldOnce (elim k [ CepState.closed ↦ c | _ ↦ close_now c ])) [
      | CepState.closed ↦ v
      | _ ↦ omega (arith, v, closing)
    ]

rtr_by_state-ToldOnce :
    (sends : Bool) (c : Cep) (s : CepState)
    → c.state ≡ s
    → ToldOnce c
    → ToldOnce (rtr_by_state sends true c s)
unfolding rtr_by_state siw_send_trpreqrep
rtr_by_state-ToldOnce sends c s e v =
    let sent = siw_send_trpreqrep sends (accept_message c) c.send_pdata in
    elim s as (λ k. c.state ≡ k → ToldOnce (rtr_by_state sends true c k)) [
      | CepState.accepting ↦
          λ w. ground (arith, v, w, answers-told sent CmEvent.established CmStatus.good)
      | CepState.recvd_mparep ↦
          λ w. omega (arith, v, ap unanswered w, answers-told c CmEvent.connect_reply CmStatus.good)
      | _ ↦ λ w. v
    ]
      e

fail-ToldOnce : (c : Cep) → ToldOnce c → ToldOnce (siw_qp_rtr_fail c)
unfolding siw_qp_rtr_fail
fail-ToldOnce c v = omega (arith, v, rtr_fail-Closing (siw_cancel_timer c) c.state)

accept-ToldOnce :
    (up memory_left : Bool) (c : Cep) (qp : KernelQp) (ird ord : ℕ) (pd : Bytes)
    → c.state ≡ CepState.recvd_mpareq
    → ToldOnce c
    → ToldOnce (siw_accept up memory_left c qp ird ord pd).1
unfolding siw_accept accept_open
accept-ToldOnce up memory_left c qp ird ord pd e v = grind (arith, e, v)

reject-ToldOnce :
    (sends : Bool) (c : Cep) (pd : Bytes) → ToldOnce c → ToldOnce (siw_reject sends c pd)
unfolding siw_reject reject_open siw_send_trpreqrep
reject-ToldOnce sends c pd v =
    elim c.state as (λ k. ToldOnce (elim k [ CepState.closed ↦ c | _ ↦ reject_open sends c pd ])) [
      | CepState.closed ↦ v
      | _ ↦ omega (arith, v)
    ]

carried_out-ToldOnce :
    (c : Cep) (qp : KernelQp) (change : Change) → ToldOnce c → ToldOnce (carried_out c qp change).1
carried_out-ToldOnce c qp (changes qp') v = v
carried_out-ToldOnce c qp (drops_connection qp') v = drop-ToldOnce (record c { qp = some qp' }) v
carried_out-ToldOnce c qp refuses v = v

Step-ToldOnce : {c c' : Cep} → ToldOnce c → Step c c' → ToldOnce c'
unfolding siw_qp_rtr siw_qp_modify
Step-ToldOnce v (works c up qp w) = work-ToldOnce up qp c w v
Step-ToldOnce v (drops c) = drop-ToldOnce c v
Step-ToldOnce v (becomes_ready c sends) =
    rtr_by_state-ToldOnce sends (siw_cancel_timer c) c.state refl v
Step-ToldOnce v (fails c) = fail-ToldOnce c v
Step-ToldOnce v (accepts c up memory_left qp ird ord pd e) =
    accept-ToldOnce up memory_left c qp ird ord pd e v
Step-ToldOnce v (modifies c full qp attrs) =
    carried_out-ToldOnce c qp (change_state full qp attrs) v
Step-ToldOnce v (rejects c sends pd) = reject-ToldOnce sends c pd v

connect-ToldOnce :
    (max_ird max_ord : ℕ) (c : Cep) (sends : Bool) (qp : KernelQp) (ird ord : ℕ) (pd : Bytes)
    → siw_connect sends (siw_cep_alloc max_ird max_ord) qp ird ord pd ≡ some c
    → ToldOnce c
unfolding siw_connect siw_send_trpreqrep answers
connect-ToldOnce max_ird max_ord c sends qp ird ord pd e = grind (arith, e)

request_received-ToldOnce :
    (htons : ℕ → ℕ) (sends handled whole : Bool) (c : Cep)
    → answers c.upcalls ≡ 0
    → (request_received htons sends handled (whole, c)).0 ≡ true
    → ToldOnce (request_received htons sends handled (whole, c)).1
unfolding request_received
request_received-ToldOnce htons sends handled whole c n e = ground (
  arith,
  n,
  e,
  answers-told
      (record c { timer = false; state = CepState.recvd_mpareq; ird = c.hdr.ord; ord = c.hdr.ird })
      CmEvent.connect_request CmStatus.good,
)

newconn-ToldOnce :
    (htons : ℕ → ℕ) (sends handled : Bool) (l c : Cep) (d : Bytes)
    → siw_accept_newconn htons sends handled l d ≡ some c
    → ToldOnce c
unfolding siw_accept_newconn siw_proc_trpreq answers
newconn-ToldOnce htons sends handled l c d e =
    let new_cep = record (siw_cep_alloc l.max_ird l.max_ord) {
      state = CepState.await_mpareq;
      timer = true;
      sock = true;
    } in
    let got = siw_recv_trp_rr new_cep d in
    let nothing : answers got.1.upcalls ≡ 0 = ap answers (recv-keeps new_cep d).0 in
    let on = request_received-ToldOnce htons sends handled got.0 got.1 nothing in
    grind (arith, e, on)

-- However the calls on an endpoint follow each other, the IWCM is told at most once how the
-- connection went, by a CONNECT_REPLY or an ESTABLISHED event, and not before the endpoint is in RDMA
-- mode or closed. It accepts a request once, and takes the events for a connection that is up.
pub Reach-ToldOnce : (c : Cep) → Reach c → ToldOnce c
Reach-ToldOnce c (connected max_ird max_ord _ sends qp ird ord pd e) =
    connect-ToldOnce max_ird max_ord c sends qp ird ord pd e
Reach-ToldOnce c (arrived htons sends handled l _ d e) =
    newconn-ToldOnce htons sends handled l c d e
Reach-ToldOnce c (next r s) = Step-ToldOnce (Reach-ToldOnce _ r) s
