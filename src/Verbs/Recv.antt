-- ===== src/Verbs/Recv.antt =====
-- src/liburdma/verbs.c: usiw_post_recv and urdma_accl_post_recvv; src/liburdma/interface.c:
-- qp_get_next_recv_wqe and usiw_recv_wqe_queue_init. The asserts that an enqueue on the ring
-- succeeds are not part of the model; a full ring would drop the entry.
use urdma.Prelude.{
  ℕ, zero, suc, Bool, true, false, Option, none, some, List, [], ◌∷◌, ltb, if◌then◌else◌, length,
}
use urdma.Host.{Host}
use urdma.Qp.{Qp, ConnState, Iovec, RecvWqe, RecvQueue, update}
use urdma.Completion.{enqueue}
use urdma.Verbs.Requests.{
  plus, minus, Errno, RecvWr, PostResult, accepted, refused, AcclResult, done, failed, total,
}

-- `none` is -ENOSPC.
unfoldable pub qp_get_next_recv_wqe : Host → Qp → Option (ℕ × Qp)
qp_get_next_recv_wqe h q = elim (h.ring_dequeue q.rq0.free_ring) [
  | none ↦ none
  | some (i, free) ↦ some (i, record q { rq0 = record (q.rq0) { free_ring = free } })
]

-- What is written to an entry for the buffers `iov`.
abbrev pub recv_entry : ℕ → List Iovec → RecvWqe
recv_entry context iov = record {
  wr_context = context;
  msn = 0;
  complete = false;
  total_request_size = total 0 iov;
  recv_size = 0;
  input_size = 0;
  iov = iov;
}

-- The entry is filled in and waits on the ring.
unfoldable pub queue_recv : Host → Qp → ℕ → RecvWqe → Qp
queue_recv h q i wqe = record q {
  rq0 = record (q.rq0) {
    storage = update q.rq0.storage i wqe;
    ring = enqueue h q.rq0.max_wr q.rq0.ring i;
  };
}

unfoldable pub post_recv_loop : Host → Qp → List RecvWr → PostResult RecvWr
unfolding qp_get_next_recv_wqe queue_recv
post_recv_loop h q [] = accepted q
post_recv_loop h q (wr ∷ wrs) = elim (ltb q.rq0.max_sge (length wr.sg_list)) [
  | true ↦ refused q (plus Errno.einval) (wr ∷ wrs)
  | false ↦ elim (qp_get_next_recv_wqe h q) [
    | none ↦ refused q (plus Errno.enospc) (wr ∷ wrs)
    | some (i, q1) ↦ post_recv_loop h (queue_recv h q1 i (recv_entry wr.wr_id wr.sg_list)) wrs
  ]
]

abbrev pub is_error : ConnState → Bool
is_error ConnState.error = true
is_error ConnState.unbound = false
is_error ConnState.connected = false
is_error ConnState.running = false
is_error ConnState.shutdown = false

unfoldable pub usiw_post_recv : Host → Qp → List RecvWr → PostResult RecvWr
unfolding post_recv_loop
usiw_post_recv h q wrs =
    if is_error q.shm.conn_state then refused q (plus Errno.einval) wrs else post_recv_loop h q wrs

-- DPDK_VERBS_IOV_LEN_MAX
abbrev pub iov_len_max : ℕ
iov_len_max = 32

unfoldable pub urdma_accl_post_recvv : Host → Qp → List Iovec → ℕ → AcclResult
unfolding qp_get_next_recv_wqe queue_recv
urdma_accl_post_recvv h q iov context = elim (ltb iov_len_max (length iov)) [
  | true ↦ failed (minus Errno.einval)
  | false ↦ elim (qp_get_next_recv_wqe h q) [
    | none ↦ failed (minus Errno.enospc)
    | some (i, q1) ↦ done (queue_recv h q1 i (recv_entry context iov))
  ]
]

unfoldable pub urdma_accl_post_recv : Host → Qp → ℕ → ℕ → ℕ → AcclResult
unfolding urdma_accl_post_recvv
urdma_accl_post_recv h q addr len context =
    urdma_accl_post_recvv h q ((record { base = addr; len = len }) ∷ []) context

-- The indices from 0 below n are put on the free ring in order.
unfoldable pub fill_ring : Host → ℕ → ℕ → List ℕ
fill_ring h size zero = []
fill_ring h size (suc n) = enqueue h size (fill_ring h size n) n

-- usiw_recv_wqe_queue_init, if its allocations succeed; `zeroed` is the entry that calloc leaves.
unfoldable pub usiw_recv_wqe_queue_init : Host → RecvWqe → ℕ → ℕ → RecvQueue
unfolding fill_ring
usiw_recv_wqe_queue_init h zeroed max_recv_wr max_recv_sge = record {
  ring = [];
  free_ring = fill_ring h max_recv_wr max_recv_wr;
  active = [];
  next_msn = 1;
  max_wr = max_recv_wr;
  max_sge = max_recv_sge;
  storage = λ i. zeroed;
}
