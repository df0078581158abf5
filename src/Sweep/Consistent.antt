-- ===== src/Sweep/Consistent.antt =====
-- src/liburdma/interface.c: acknowledgements and time-outs post completions of send requests.
use urdma.Prelude.{
  ℕ, zero, suc, ◌+◌, ◌&&◌, not, Option, none, some, inl, inr, Bool-cases, ltb, ◌==◌,
}
use urdma.Serial.{serial_less_32}
use urdma.Host.{Host, Laws}
use urdma.Trp.{Pending}
use urdma.Qp.{Qp, SendState, WcStatus}
use urdma.Completion.{is_read}
use urdma.Transmission.{ResendResult, resend_ddp_segment}
use urdma.Transmission.Keeps.{resend-Keeps}
use urdma.Completion.Consistent.{
  Consistent, if-Consistent, try_complete_wqe-Consistent, post_send_cqe-Consistent,
}
use urdma.Rdmap.Consistent.{Keeps-Consistent}
use urdma.Sack.{next_slot}
use urdma.Sweep.{
  set_send_wqe, do_process_ack, ack_owner, release_head, sweep_acked, fail_owner, fail_packet,
  failure_status, retransmit_packet, is_sent, sweep_timeouts, sweep_unacked_packets,
}

do_process_ack-Consistent :
    (h : Host) (q : Qp) (i : ℕ) (p : Pending)
    → Laws h
    → Consistent q
    → Consistent (do_process_ack h q i p)
unfolding do_process_ack
do_process_ack-Consistent h q i p laws v =
    let w = q.sq.storage i in
    let acked = record w { bytes_acked = w.bytes_acked + p.ddp_length } in
    let completed = set_send_wqe q i (record acked { state = SendState.complete }) in
    if-Consistent (not (is_read w.opcode) && acked.bytes_acked == w.total_length)
      (try_complete_wqe-Consistent h completed i laws (record { held = v.held }))
      (record { held = v.held })

ack_owner-Consistent :
    (h : Host) (q : Qp) (owner : Option ℕ) (p : Pending)
    → Laws h
    → Consistent q
    → Consistent (ack_owner h q owner p)
unfolding ack_owner
ack_owner-Consistent h q none p laws v = v
ack_owner-Consistent h q (some i) p laws v = do_process_ack-Consistent h q i p laws v

release_head-Consistent :
    (h : Host) (q : Qp) → Laws h → Consistent q → Consistent (release_head h q)
unfolding release_head
release_head-Consistent h q laws v =
    let p = q.mbufs (q.remote_ep.tx_pending q.remote_ep.tx_head) in
    record { held = (ack_owner-Consistent h q p.wqe p laws v).held }

sweep_acked-Consistent :
    (h : Host) (fuel : ℕ) (q : Qp) → Laws h → Consistent q → Consistent (sweep_acked h fuel q).0
unfolding sweep_acked
sweep_acked-Consistent h zero q laws v = v
sweep_acked-Consistent h (suc fuel) q laws v =
    let mbuf = q.remote_ep.tx_pending q.remote_ep.tx_head in
    let rest =
      sweep_acked-Consistent h fuel (release_head h q) laws (release_head-Consistent h q laws v) in
    elim (Bool-cases (mbuf == 0)) [
      | inl none_left ↦ rw none_left v
      | inr some_left ↦
          rw some_left
            (elim (Bool-cases (serial_less_32 (q.mbufs mbuf).psn q.remote_ep.send_last_acked_psn)) [
              | inl before ↦ rw before rest
              | inr after ↦ rw after v
            ])
    ]

fail_owner-Consistent :
    (h : Host) (q : Qp) (owner : Option ℕ) (status : WcStatus)
    → Laws h
    → Consistent q
    → Consistent (fail_owner h q owner status)
unfolding fail_owner
fail_owner-Consistent h q none status laws v = v
fail_owner-Consistent h q (some i) status laws v = post_send_cqe-Consistent h q i status laws v

fail_packet-Consistent :
    (h : Host) (q : Qp) (p : ℕ) (result : ResendResult)
    → Laws h
    → Consistent q
    → Consistent (fail_packet h q p result)
unfolding fail_packet
fail_packet-Consistent h q p result laws v =
    let pending = q.mbufs (q.remote_ep.tx_pending p) in
    let q1 = fail_owner h q pending.wqe (failure_status result) in
    let failed = fail_owner-Consistent h q pending.wqe (failure_status result) laws v in
    if-Consistent (p == q1.remote_ep.tx_head) (record { held = failed.held })
      (record { held = failed.held })

retransmit_packet-Consistent :
    (h : Host) (q : Qp) (now p : ℕ)
    → Laws h
    → Consistent q
    → Consistent (retransmit_packet h q now p)
unfolding retransmit_packet
retransmit_packet-Consistent h q now p laws v =
    let mbuf = q.remote_ep.tx_pending p in
    let resent = resend_ddp_segment h q mbuf in
    let kept = Keeps-Consistent q resent.0 (resend-Keeps h q mbuf).0 v in
    if-Consistent (ltb (q.mbufs mbuf).next_retransmit now)
      (if-Consistent (is_sent resent.1) kept
        (fail_packet-Consistent h resent.0 p resent.1 laws kept))
      v

sweep_timeouts-Consistent :
    (h : Host) (fuel : ℕ) (q : Qp) (now p : ℕ)
    → Laws h
    → Consistent q
    → Consistent (sweep_timeouts h fuel q now p)
unfolding sweep_timeouts
sweep_timeouts-Consistent h zero q now p laws v = v
sweep_timeouts-Consistent h (suc fuel) q now p laws v =
    if-Consistent (q.remote_ep.tx_pending p == 0) v (
      sweep_timeouts-Consistent h fuel (retransmit_packet h q now p) now
        (next_slot q.remote_ep.tx_pending_size p) laws
        (retransmit_packet-Consistent h q now p laws v))

pub sweep_unacked_packets-Consistent :
    (h : Host) (q : Qp) (now : ℕ)
    → Laws h
    → Consistent q
    → Consistent (sweep_unacked_packets h q now)
unfolding sweep_unacked_packets
sweep_unacked_packets-Consistent h q now laws v =
    let e = q.remote_ep in
    let acked = sweep_acked h e.tx_pending_size q in
    if-Consistent (e.tx_pending e.tx_head == 0) v (
      sweep_timeouts-Consistent h acked.1 acked.0 now acked.0.remote_ep.tx_head laws
        (sweep_acked-Consistent h e.tx_pending_size q laws v))
