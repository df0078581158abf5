-- ===== src/Sweep.antt =====
-- src/liburdma/interface.c: do_process_ack and sweep_unacked_packets. Both loops share the
-- counter `count`, which is the fuel here: the first hands on what it has not used. A field
-- `bytes_acked` is a size_t, wide enough for any message.
pub mod Consistent
pub mod Acked
use urdma.Prelude.{
  ℕ, zero, suc, ◌+◌, ◌-◌, ◌%◌, ◌^◌, ◌&&◌, Bool, true, false, not, Option, none, some, ltb, ◌==◌,
  if◌then◌else◌,
}
use urdma.Serial.{serial_less_32}
use urdma.Host.{Host}
use urdma.Trp.{Endpoint, Pending}
use urdma.Qp.{Qp, SendWqe, SendState, WcStatus, ConnState, update}
use urdma.Completion.{is_read, try_complete_wqe, post_send_cqe}
use urdma.Transmission.{ResendResult, resend_ddp_segment}
use urdma.Sack.{next_slot, uint64_max}

abbrev pub set_send_wqe : Qp → ℕ → SendWqe → Qp
set_send_wqe q i w = record q { sq = record (q.sq) { storage = update q.sq.storage i w } }

unfoldable pub do_process_ack : Host → Qp → ℕ → Pending → Qp
do_process_ack h q i pending =
    let w = q.sq.storage i in
    let acked = record w { bytes_acked = w.bytes_acked + pending.ddp_length } in
    let done =
      try_complete_wqe h (set_send_wqe q i (record acked { state = SendState.complete })) i in
    if not (is_read w.opcode) && acked.bytes_acked == w.total_length
    then done
    else set_send_wqe q i acked

abbrev pub uint32_max : ℕ
uint32_max = 2 ^ 32 - 1

-- The slot at the head is emptied and the head moves on.
abbrev pub drop_head : Endpoint → Endpoint
drop_head e = record e {
  tx_pending = update e.tx_pending e.tx_head 0;
  tx_head = next_slot e.tx_pending_size e.tx_head;
}

-- if (pending->wqe) do_process_ack(...)
unfoldable pub ack_owner : Host → Qp → Option ℕ → Pending → Qp
ack_owner h q none pending = q
ack_owner h q (some i) pending = do_process_ack h q i pending

-- The packet at the head was acknowledged.
unfoldable pub release_head : Host → Qp → Qp
release_head h q =
    let mbuf = q.remote_ep.tx_pending q.remote_ep.tx_head in
    let pending = q.mbufs mbuf in
    let q1 = ack_owner h q pending.wqe pending in
    record q1 {
      mbufs = update q1.mbufs mbuf (record pending { psn = uint32_max });
      remote_ep = drop_head q1.remote_ep;
    }

-- The first loop; the result has the rounds that are left.
unfoldable pub sweep_acked : Host → ℕ → Qp → Qp × ℕ
sweep_acked h zero q = (q, 0)
sweep_acked h (suc fuel) q =
    let mbuf = q.remote_ep.tx_pending q.remote_ep.tx_head in
    let rest = sweep_acked h fuel (release_head h q) in
    if mbuf == 0
    then (q, suc fuel)
    else if serial_less_32 (q.mbufs mbuf).psn q.remote_ep.send_last_acked_psn
    then rest
    else (q, suc fuel)

abbrev pub failure_status : ResendResult → WcStatus
failure_status ResendResult.eio = WcStatus.retry_exc_err
failure_status ResendResult.enomem = WcStatus.fatal_err
failure_status ResendResult.sent = WcStatus.success

-- if (pending->wqe) post_send_cqe(...)
unfoldable pub fail_owner : Host → Qp → Option ℕ → WcStatus → Qp
fail_owner h q none status = q
fail_owner h q (some i) status = post_send_cqe h q i status

-- The connection fails: the request is completed with an error, and the packet is given up, or,
-- behind the head of the ring, never retransmitted again.
unfoldable pub fail_packet : Host → Qp → ℕ → ResendResult → Qp
fail_packet h q p result =
    let mbuf = q.remote_ep.tx_pending p in
    let pending = q.mbufs mbuf in
    let q1 = fail_owner h q pending.wqe (failure_status result) in
    let q2 = record q1 { shm = record (q1.shm) { conn_state = ConnState.error } } in
    if p == q2.remote_ep.tx_head
    then record q2 { remote_ep = drop_head q2.remote_ep }
    else record q2 {
      mbufs = update q2.mbufs mbuf (record (q2.mbufs mbuf) { next_retransmit = uint64_max });
    }

abbrev pub is_sent : ResendResult → Bool
is_sent ResendResult.sent = true
is_sent ResendResult.eio = false
is_sent ResendResult.enomem = false

unfoldable pub retransmit_packet : Host → Qp → ℕ → ℕ → Qp
retransmit_packet h q now p =
    let mbuf = q.remote_ep.tx_pending p in
    let (q1, result) = resend_ddp_segment h q mbuf in
    if ltb (q.mbufs mbuf).next_retransmit now
    then (if is_sent result then q1 else fail_packet h q1 p result)
    else q

unfoldable pub sweep_timeouts : Host → ℕ → Qp → ℕ → ℕ → Qp
sweep_timeouts h zero q now p = q
sweep_timeouts h (suc fuel) q now p =
    let rest =
      sweep_timeouts h fuel (retransmit_packet h q now p) now
        (next_slot q.remote_ep.tx_pending_size p) in
    if q.remote_ep.tx_pending p == 0 then q else rest

unfoldable pub sweep_unacked_packets : Host → Qp → ℕ → Qp
sweep_unacked_packets h q now =
    let e = q.remote_ep in
    let (q1, fuel) = sweep_acked h e.tx_pending_size q in
    if e.tx_pending e.tx_head == 0 then q else sweep_timeouts h fuel q1 now q1.remote_ep.tx_head
