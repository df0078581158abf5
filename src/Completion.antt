-- ===== src/Completion.antt =====
-- src/liburdma/interface.c: completions of work requests. get_next_cqe, finish_post_cqe,
-- post_recv_cqe, post_send_cqe, qp_free_send_wqe, qp_free_recv_wqe, try_complete_wqe, rq_flush,
-- sq_flush and the lookups in the active lists. A full free ring drops what is enqueued, since
-- the program ignores that result.
pub mod Flush
pub mod FlushRecv
pub mod Order
pub mod Owned
pub mod Consistent
use urdma.Prelude.{
  ℕ, zero, suc, ◌+◌, ◌-◌, ◌%◌, Bool, true, false, ◌&&◌, Option, none, some, List, [], ◌∷◌, ◌++◌,
  ◌==◌, if◌then◌else◌, length,
}
use mathlib.Core.Option.{get_or}
use urdma.Prelude.Words.{u32}
use urdma.Host.{Host}
use urdma.Qp.{
  Qp, SendWqe, RecvWqe, SendQueue, RecvQueue, Completion, CompletionQueue, SendOpcode, WcStatus,
  WcOpcode, update,
}

abbrev pub enqueue : Host → ℕ → List ℕ → ℕ → List ℕ
enqueue h size ring x = get_or (h.ring_enqueue size ring x) ring

abbrev pub is_top : Host → List ℕ → ℕ → Bool
is_top h active i = elim (h.list_top active) [ none ↦ false | some j ↦ j == i ]

abbrev pub is_read : SendOpcode → Bool
is_read SendOpcode.wr_read = true
is_read SendOpcode.wr_send = false
is_read SendOpcode.wr_write = false

-- The entry is filled in and goes on the ring, and the queue is no longer armed.
unfoldable pub post_entry : Host → CompletionQueue → ℕ → Completion → List ℕ → CompletionQueue
post_entry h cq c wc free = record cq {
  cqe_ring = enqueue h cq.capacity cq.cqe_ring c;
  free_ring = free;
  storage = update cq.storage c wc;
  notify_flag = false;
}

-- finish_post_cqe: an armed queue notifies once.
unfoldable pub finish_post_cqe : Host → Qp → ℕ → ℕ → Completion → List ℕ → Qp
unfolding post_entry
finish_post_cqe h q id c wc free =
    let cq = q.cqs id in
    record q {
      cqs = update q.cqs id (post_entry h cq c wc free);
      events = if cq.notify_flag then q.events ++ cq.cq_id ∷ [] else q.events;
    }

unfoldable pub qp_free_recv_wqe : Host → Qp → ℕ → Qp
qp_free_recv_wqe h q i = record q {
  rq0 = record (q.rq0) {
    active = h.list_del q.rq0.active i;
    free_ring = enqueue h q.rq0.max_wr q.rq0.free_ring i;
  };
}

unfoldable pub qp_free_send_wqe : Host → Qp → ℕ → Qp
qp_free_send_wqe h q i = record q {
  sq = record (q.sq) {
    active = h.list_del q.sq.active i;
    free_ring = enqueue h q.sq.max_wr q.sq.free_ring i;
  };
}

-- get_next_cqe fails when no entry of the completion queue is free; then nothing changes. The
-- byte_len is a uint32_t.
unfoldable pub post_recv_cqe : Host → Qp → ℕ → WcStatus → Qp
unfolding finish_post_cqe qp_free_recv_wqe
post_recv_cqe h q i status = elim (h.ring_dequeue (q.cqs q.recv_cq).free_ring) [
  | none ↦ q
  | some (c, free) ↦
      let wqe = q.rq0.storage i in
      let wc : Completion = record {
        wr_context = wqe.wr_context;
        status = status;
        opcode = WcOpcode.wc_recv;
        byte_len = u32 wqe.input_size;
        qp_num = q.qp_num;
      } in
      finish_post_cqe h (qp_free_recv_wqe h q i) q.recv_cq c wc free
]

abbrev pub get_ibv_send_wc_opcode : SendOpcode → WcOpcode
get_ibv_send_wc_opcode SendOpcode.wr_send = WcOpcode.wc_send
get_ibv_send_wc_opcode SendOpcode.wr_write = WcOpcode.wc_rdma_write
get_ibv_send_wc_opcode SendOpcode.wr_read = WcOpcode.wc_rdma_read

-- The byte_len of the entry is left as it was.
unfoldable pub post_send_cqe : Host → Qp → ℕ → WcStatus → Qp
unfolding finish_post_cqe qp_free_send_wqe
post_send_cqe h q i status = elim (h.ring_dequeue (q.cqs q.send_cq).free_ring) [
  | none ↦ q
  | some (c, free) ↦
      let wqe = q.sq.storage i in
      let old = (q.cqs q.send_cq).storage c in
      let wc : Completion = record old {
        wr_context = wqe.wr_context;
        status = status;
        opcode = get_ibv_send_wc_opcode wqe.opcode;
        qp_num = q.qp_num;
      } in
      finish_post_cqe h (qp_free_send_wqe h q i) q.send_cq c wc free
]

-- ord_active is a uint8_t.
unfoldable pub try_complete_wqe : Host → Qp → ℕ → Qp
try_complete_wqe h q i =
    let wqe = q.sq.storage i in
    let done =
      if wqe.signaled then post_send_cqe h q i WcStatus.success else qp_free_send_wqe h q i in
    if is_top h q.sq.active i
    then (if is_read wqe.opcode
        then record done { ord_active = (done.ord_active + 255) % 256 }
        else done)
    else q

-- usiw_recv_wqe_queue_lookup: the first active entry with the number.
unfoldable pub recv_lookup : (ℕ → RecvWqe) → List ℕ → ℕ → Option ℕ
recv_lookup storage [] msn = none
recv_lookup storage (i ∷ active) msn =
    if (storage i).msn == msn then some i else recv_lookup storage active msn

abbrev pub same_opcode : SendOpcode → SendOpcode → Bool
same_opcode SendOpcode.wr_send SendOpcode.wr_send = true
same_opcode SendOpcode.wr_write SendOpcode.wr_write = true
same_opcode SendOpcode.wr_read SendOpcode.wr_read = true
same_opcode _ _ = false

-- The field that usiw_send_wqe_queue_lookup compares with the key.
abbrev pub key_of : SendWqe → ℕ
key_of w = elim w.opcode [
  | SendOpcode.wr_send ↦ w.msn
  | SendOpcode.wr_write ↦ w.rkey
  | SendOpcode.wr_read ↦ w.local_stag
]

unfoldable pub send_lookup : (ℕ → SendWqe) → List ℕ → SendOpcode → ℕ → Option ℕ
send_lookup storage [] opcode key = none
send_lookup storage (i ∷ active) opcode key =
    if same_opcode (storage i).opcode opcode && key == key_of (storage i)
    then some i
    else send_lookup storage active opcode key

unfoldable pub find_first_rdma_read : (ℕ → SendWqe) → List ℕ → Option ℕ
find_first_rdma_read storage [] = none
find_first_rdma_read storage (i ∷ active) =
    if is_read (storage i).opcode then some i else find_first_rdma_read storage active

-- Each waiting receive request is numbered and made active.
pub activate_recv : Host → RecvQueue → ℕ → RecvQueue
activate_recv h r i = record r {
  storage = update r.storage i (record (r.storage i) { msn = r.next_msn });
  next_msn = u32 (r.next_msn + 1);
  active = h.list_add_tail r.active i;
}

-- while (rte_ring_dequeue(...) == 0), by the length of the ring as fuel.
unfoldable pub take_recv : Host → ℕ → RecvQueue → RecvQueue
unfolding activate_recv
take_recv h zero r = r
take_recv h (suc fuel) r = elim (h.ring_dequeue r.ring) [
  | none ↦ r
  | some (i, ring) ↦ take_recv h fuel (activate_recv h (record r { ring = ring }) i)
]

unfoldable pub post_recv_all : Host → List ℕ → Qp → Qp
post_recv_all h [] q = q
post_recv_all h (i ∷ rest) q = post_recv_all h rest (post_recv_cqe h q i WcStatus.wr_flush_err)

unfoldable pub rq_flush : Host → Qp → Qp
rq_flush h q =
    let rq0 = take_recv h (length q.rq0.ring + 1) q.rq0 in
    post_recv_all h rq0.active (record q { rq0 = rq0 })

unfoldable pub take_send : Host → ℕ → SendQueue → SendQueue
take_send h zero s = s
take_send h (suc fuel) s = elim (h.ring_dequeue s.ring) [
  | none ↦ s
  | some (i, ring) ↦
      take_send h fuel (record s { ring = ring; active = h.list_add_tail s.active i })
]

unfoldable pub post_send_all : Host → List ℕ → Qp → Qp
post_send_all h [] q = q
post_send_all h (i ∷ rest) q = post_send_all h rest (post_send_cqe h q i WcStatus.wr_flush_err)

unfoldable pub sq_flush : Host → Qp → Qp
sq_flush h q =
    let sq = take_send h (length q.sq.ring + 1) q.sq in
    post_send_all h sq.active (record q { sq = sq })

-- dequeue_recv_wqes takes bursts until the ring is empty, in the ring's order.
unfoldable pub dequeue_recv_wqes : Host → Qp → Qp
dequeue_recv_wqes h q = record q { rq0 = take_recv h (length q.rq0.ring + 1) q.rq0 }
