-- ===== src/Verbs/Accl.antt =====
-- src/liburdma/verbs.c: qp_connected and the sends of the accelerated interface. They leave the
-- flags of the entry as the last request that used it left them.
use urdma.Prelude.{
  ℕ, Bool, true, false, ◌||◌, none, some, List, [], ◌∷◌, ltb, if◌then◌else◌, length,
}
use urdma.Host.{Host}
use urdma.Qp.{Qp, ConnState, Iovec, SendWqe, SendOpcode, SendState}
use urdma.Verbs.Requests.{Errno, minus, AcclResult, done, failed, total}
use urdma.Verbs.Recv.{iov_len_max}
use urdma.Verbs.Send.{qp_get_next_send_wqe, queue_send}

unfoldable pub qp_connected : ConnState → Bool
qp_connected ConnState.connected = true
qp_connected ConnState.running = true
qp_connected ConnState.unbound = false
qp_connected ConnState.shutdown = false
qp_connected ConnState.error = false

-- A free entry is filled in by `fill` and queued.
abbrev pub post_accl : Host → Qp → (SendWqe → SendWqe) → AcclResult
post_accl h q fill = elim (qp_get_next_send_wqe h q) [
  | none ↦ failed (minus Errno.enospc)
  | some (i, q1) ↦ done (queue_send h q1 i (fill (q1.sq.storage i)))
]

-- `ah` is whether the caller gives an address handle.
unfoldable pub urdma_accl_post_sendv : Host → Qp → List Iovec → Bool → ℕ → AcclResult
unfolding qp_connected qp_get_next_send_wqe queue_send
urdma_accl_post_sendv h q iov ah context =
    let post = post_accl h q (λ w. record w {
      opcode = SendOpcode.wr_send;
      wr_context = context;
      iov = iov;
      state = SendState.init;
      msn = 0;
      total_length = total 0 iov;
      bytes_sent = 0;
      bytes_acked = 0;
    }) in
    if ah || qp_connected q.shm.conn_state
    then (if ltb iov_len_max (length iov) then failed (minus Errno.einval) else post)
    else failed (minus Errno.einval)

unfoldable pub urdma_accl_post_send : Host → Qp → ℕ → ℕ → Bool → ℕ → AcclResult
unfolding urdma_accl_post_sendv
urdma_accl_post_send h q addr len ah context =
    urdma_accl_post_sendv h q ((record { base = addr; len = len }) ∷ []) ah context

unfoldable pub urdma_accl_post_write : Host → Qp → ℕ → ℕ → Bool → ℕ → ℕ → ℕ → AcclResult
unfolding qp_connected qp_get_next_send_wqe queue_send
urdma_accl_post_write h q addr len ah remote_addr rkey context =
    let post = post_accl h q (λ w. record w {
      opcode = SendOpcode.wr_write;
      wr_context = context;
      iov = (record { base = addr; len = len }) ∷ [];
      remote_addr = remote_addr;
      rkey = rkey;
      state = SendState.init;
      msn = 0;
      bytes_sent = 0;
      bytes_acked = 0;
      total_length = len;
    }) in
    if ah || qp_connected q.shm.conn_state then post else failed (minus Errno.einval)

-- bytes_acked is not reset.
unfoldable pub urdma_accl_post_read : Host → Qp → ℕ → ℕ → Bool → ℕ → ℕ → ℕ → AcclResult
unfolding qp_connected qp_get_next_send_wqe queue_send
urdma_accl_post_read h q addr len ah remote_addr rkey context =
    let post = post_accl h q (λ w. record w {
      opcode = SendOpcode.wr_read;
      wr_context = context;
      iov = (record { base = addr; len = len }) ∷ [];
      remote_addr = remote_addr;
      rkey = rkey;
      state = SendState.init;
      msn = 0;
      local_stag = 0;
      total_length = len;
      bytes_sent = 0;
    }) in
    if ah || qp_connected q.shm.conn_state then post else failed (minus Errno.einval)
