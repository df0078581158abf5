-- ===== src/Verbs/Poll.antt =====
-- src/liburdma/verbs.c: do_poll_cq, convert_cqes, usiw_poll_cq, usiw_req_notify_cq, and the
-- queues that usiw_create_cq sets up.
use urdma.Prelude.{ℕ, Bool, true, false, Option, none, some, List, [], map, if◌then◌else◌}
use urdma.Host.{Host}
use urdma.Qp.{Completion, CompletionQueue, WcStatus, WcOpcode}
use urdma.Verbs.Requests.{Ret, Errno, plus}
use urdma.Verbs.Recv.{fill_ring}

-- struct ibv_wc
pub record IbvWc : Type 0 where
  pub wr_id : ℕ
  pub status : WcStatus
  pub opcode : WcOpcode
  pub byte_len : ℕ
  pub qp_num : ℕ
  pub wc_flags : ℕ

-- The completions that are copied out, of which there are as many as the call counts.
unfoldable pub do_poll_cq : Host → CompletionQueue → ℕ → List Completion × CompletionQueue
do_poll_cq h cq num_entries =
    let (cqe, ring) = h.ring_dequeue_burst cq.cqe_ring num_entries in
    let (free, ret) = h.ring_enqueue_burst cq.capacity cq.free_ring cqe in
    (map cq.storage cqe, record cq { cqe_ring = ring; free_ring = free })

abbrev pub convert_cqe : Completion → IbvWc
convert_cqe c = record {
  wr_id = c.wr_context;
  status = c.status;
  opcode = c.opcode;
  byte_len = c.byte_len;
  qp_num = c.qp_num;
  wc_flags = 0;
}

unfoldable pub convert_cqes : List Completion → List IbvWc
convert_cqes cqe = map convert_cqe cqe

unfoldable pub usiw_poll_cq : Host → CompletionQueue → ℕ → List IbvWc × CompletionQueue
unfolding do_poll_cq convert_cqes
usiw_poll_cq h cq num_entries =
    let (cqe, cq1) = do_poll_cq h cq num_entries in (convert_cqes cqe, cq1)

-- The first argument is whether the queue has a completion channel; no result is success.
unfoldable pub usiw_req_notify_cq : Bool → Bool → CompletionQueue → Option Ret × CompletionQueue
usiw_req_notify_cq channel solicited_only cq =
    if channel
    then (if solicited_only then (none, cq) else (none, record cq { notify_flag = true }))
    else (some (plus Errno.einval), cq)

-- The queue that usiw_create_cq returns for a size that is one less than a power of two, if its
-- allocations succeed.
unfoldable pub init_cq : Host → (ℕ → Completion) → ℕ → ℕ → CompletionQueue
init_cq h storage cq_id size = record {
  cqe_ring = [];
  free_ring = fill_ring h size size;
  storage = storage;
  capacity = size;
  cq_id = cq_id;
  notify_flag = false;
}
