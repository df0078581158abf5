-- ===== src/Ddp/Untagged.antt =====
-- src/liburdma/interface.c: process_send. The loop over completions has the active requests as
-- fuel; the program spins there for ever if the completion queue is full.
use urdma.Prelude.{
  ℕ, zero, suc, ◌+◌, true, ◌&&◌, not, none, some, ltb, ◌==◌, if◌then◌else◌, length, drop,
}
use urdma.Prelude.Words.{u64}
use urdma.Serial.{serial_less_32}
use urdma.Host.{Host}
use urdma.Proto
use urdma.Proto.{Bytes, get_32}
use urdma.Proto.Headers.{rdmap_untagged_packet}
use urdma.Qp.{Qp, RecvWqe, WcStatus, update}
use urdma.Iov.{memcpy_to_iov}
use urdma.Completion.{post_recv_cqe, recv_lookup, dequeue_recv_wqes}
use urdma.Rdmap.{PacketContext, bytes_of, do_rdmap_terminate}
use urdma.Ddp.Context.{ddp_get_l_of, payload_size}

abbrev pub set_recv_wqe : Qp → ℕ → RecvWqe → Qp
set_recv_wqe q i w = record q { rq0 = record (q.rq0) { storage = update q.rq0.storage i w } }

-- Completions that were deferred are posted from the head of the queue on.
unfoldable pub post_completed : Host → ℕ → Qp → Qp
post_completed h zero q = q
post_completed h (suc fuel) q = elim (h.list_top q.rq0.active) [
  | none ↦ q
  | some i ↦
      let rest = post_completed h fuel (post_recv_cqe h q i WcStatus.success) in
      if (q.rq0.storage i).complete then rest else q
]

-- The request that an untagged segment belongs to, with the segment placed and counted.
unfoldable pub place_send : Qp → ℕ → PacketContext → ℕ → ℕ → Qp
place_send q i orig offset len =
    let w = q.rq0.storage i in
    let input = if ddp_get_l_of orig then u64 (offset + len) else w.input_size in
    let size = u64 (w.recv_size + len) in
    let w' = record w {
      input_size = input;
      recv_size = size;
      complete = if size == input then true else w.complete;
    } in
    let payload = bytes_of len (drop Proto.untagged_size orig.rdmap) in
    record (set_recv_wqe q i w') { memory = memcpy_to_iov q.memory w.iov payload offset }

-- A found request: the segment must fit it, and only one last segment is taken.
unfoldable pub receive_send : Host → Qp → ℕ → PacketContext → Qp
unfolding place_send
receive_send h q i orig =
    let w = q.rq0.storage i in
    let offset = (rdmap_untagged_packet orig.rdmap).mo in
    let len = payload_size orig Proto.untagged_size in
    let placed = place_send q i orig offset len in
    if ltb w.total_request_size (u64 (offset + len))
    then do_rdmap_terminate h q orig Proto.ddp_error_untagged_message_too_long
    else if ddp_get_l_of orig && not (w.input_size == 0)
    then q
    else if serial_less_32 orig.psn q.remote_ep.recv_ack_psn
    then post_completed h (length q.rq0.active + 1) placed
    else placed

unfoldable pub process_send : Host → Qp → PacketContext → Qp
unfolding receive_send
process_send h q orig =
    let q0 : Qp = elim (h.list_top q.rq0.active) [ none ↦ dequeue_recv_wqes h q | some _ ↦ q ] in
    let msn = (rdmap_untagged_packet orig.rdmap).msn in
    elim (recv_lookup q0.rq0.storage q0.rq0.active msn) [
      | some i ↦ receive_send h q0 i orig
      | none ↦ elim (h.list_top q0.rq0.active) [
        | some _ ↦ do_rdmap_terminate h q0 orig Proto.ddp_error_untagged_invalid_msn
        | none ↦ do_rdmap_terminate h q0 orig Proto.ddp_error_untagged_no_buffer
      ]
    ]
