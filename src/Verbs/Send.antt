-- ===== src/Verbs/Send.antt =====
-- src/liburdma/verbs.c: do_inline and usiw_post_send; src/liburdma/interface.c:
-- qp_get_next_send_wqe, usiw_send_wqe_queue_init and qp_free_send_wqe of an entry that is not
-- active. In the program the inline data overlays the iov array of the entry; here they are two
-- fields, of which an inline request sets the one and any other request the other.
use urdma.Prelude.{
  ℕ, ◌+◌, ◌%◌, ◌/◌, Bool, true, false, ◌||◌, Option, none, some, List, [], ◌∷◌, ◌++◌, ltb, ◌==◌,
  if◌then◌else◌, length, take, drop,
}
use urdma.Prelude.Words.{u32}
use urdma.Host.{Host}
use urdma.Proto.{Bytes}
use urdma.Qp.{Qp, ConnState, Iovec, SendWqe, SendOpcode, SendState, SendQueue, MemoryRegion, update}
use urdma.Completion.{enqueue}
use urdma.Iov.{Memory, load}
use urdma.Region.{usiw_mr_lookup}
use urdma.Verbs.Requests.{
  plus, minus, Errno, SendWr, WrOpcode, PostResult, accepted, refused, total,
}
use urdma.Verbs.Recv.{fill_ring}

-- `none` is -ENOSPC.
unfoldable pub qp_get_next_send_wqe : Host → Qp → Option (ℕ × Qp)
qp_get_next_send_wqe h q = elim (h.ring_dequeue q.sq.free_ring) [
  | none ↦ none
  | some (i, free) ↦ some (i, record q { sq = record (q.sq) { free_ring = free } })
]

-- qp_free_send_wqe(qp, wqe, 0)
unfoldable pub free_unused_wqe : Host → Qp → ℕ → Qp
free_unused_wqe h q i = record q {
  sq = record (q.sq) { free_ring = enqueue h q.sq.max_wr q.sq.free_ring i };
}

unfoldable pub queue_send : Host → Qp → ℕ → SendWqe → Qp
queue_send h q i wqe = record q {
  sq = record (q.sq) {
    storage = update q.sq.storage i wqe;
    ring = enqueue h q.sq.max_wr q.sq.ring i;
  };
}

-- memcpy(dest + offset, ...)
abbrev pub write_at : Bytes → ℕ → Bytes → Bytes
write_at dest offset src = take offset dest ++ src ++ drop (offset + length src) dest

-- The bytes copied so far and the offset; too_long leaves what was copied before.
pub data Inlined : Type 0 where
  copied : Bytes → ℕ → Inlined
  too_long : Bytes → Inlined

-- The loop of do_inline. Both the test and the offset are on unsigned int.
unfoldable pub inline_loop : Memory → ℕ → Bytes → ℕ → List Iovec → Inlined
inline_loop m max_inline dest offset [] = copied dest offset
inline_loop m max_inline dest offset (sge ∷ sges) = elim (ltb max_inline (u32 (offset + sge.len))) [
  | true ↦ too_long dest
  | false ↦
      inline_loop m max_inline (write_at dest offset (load m sge.base sge.len))
        (u32 (offset + sge.len)) sges
]

-- What filling in an entry comes to: it is ready, or it is given up with an error, either put
-- back on the free ring (goto free_wqe) or not (goto errout).
pub data Prepared : Type 0 where
  ready : SendWqe → Prepared
  put_back : SendWqe → Errno → Prepared
  kept : SendWqe → Errno → Prepared

unfoldable pub do_inline : Qp → SendWqe → List Iovec → Prepared
unfolding inline_loop
do_inline q wqe sg_list = elim (inline_loop q.memory q.sq.max_inline wqe.inline_data 0 sg_list) [
  | copied data_bytes offset ↦
      ready (record wqe { is_inline = true; inline_data = data_bytes; total_length = offset })
  | too_long data_bytes ↦
      kept (record wqe { is_inline = true; inline_data = data_bytes }) Errno.einval
]

abbrev pub inline_if : Bool → Qp → SendWqe → List Iovec → Prepared
inline_if true q wqe sg_list = do_inline q wqe sg_list
inline_if false q wqe sg_list = ready wqe

-- access & IBV_ACCESS_REMOTE_WRITE
abbrev pub remote_write : MemoryRegion → Bool
remote_write mr = mr.access / 2 % 2 == 1

-- IBV_WR_RDMA_READ: the sink is a registered region.
abbrev pub read_sink : SendWqe → Option MemoryRegion → Prepared
read_sink w none = put_back w Errno.einval
read_sink w (some mr) =
    if remote_write mr then ready (record w { local_stag = mr.rkey }) else put_back w Errno.einval

unfoldable pub prepare_read : Qp → SendWqe → SendWr → Prepared
prepare_read q wqe wr =
    let w = record wqe {
      opcode = SendOpcode.wr_read;
      remote_addr = wr.remote_addr;
      rkey = wr.rkey;
    } in
    if wr.inline then kept wqe Errno.einval else read_sink w (usiw_mr_lookup q.pd wr.lkey)

-- The switch on the opcode.
unfoldable pub prepare : Qp → SendWqe → SendWr → WrOpcode → Prepared
unfolding do_inline prepare_read
prepare q wqe wr WrOpcode.send =
    inline_if wr.inline q (record wqe { opcode = SendOpcode.wr_send }) wr.sg_list
prepare q wqe wr WrOpcode.rdma_write =
    inline_if wr.inline q
      (record wqe { opcode = SendOpcode.wr_write; remote_addr = wr.remote_addr; rkey = wr.rkey })
      wr.sg_list
prepare q wqe wr WrOpcode.rdma_read = prepare_read q wqe wr
prepare q wqe wr WrOpcode.unknown = put_back wqe Errno.eopnotsupp

-- The flags are set first.
abbrev pub set_flags : Qp → SendWqe → SendWr → SendWqe
set_flags q wqe wr = record wqe { signaled = wr.signaled || q.sig_all; is_inline = false }

-- The rest of the entry, the same for every opcode.
abbrev pub send_entry : SendWqe → SendWr → SendWqe
send_entry wqe wr = record wqe {
  wr_context = wr.wr_id;
  state = SendState.init;
  msn = 0;
  iov = if wqe.is_inline then wqe.iov else wr.sg_list;
  total_length = if wqe.is_inline then wqe.total_length else total 0 wr.sg_list;
  bytes_sent = 0;
  bytes_acked = 0;
}

abbrev pub sge_limit : Qp → WrOpcode → ℕ
sge_limit q WrOpcode.rdma_read = 1
sge_limit q WrOpcode.send = q.sq.max_sge
sge_limit q WrOpcode.rdma_write = q.sq.max_sge
sge_limit q WrOpcode.unknown = q.sq.max_sge

abbrev pub store_send : Qp → ℕ → SendWqe → Qp
store_send q i wqe = record q { sq = record (q.sq) { storage = update q.sq.storage i wqe } }

unfoldable pub post_send_loop : Host → Qp → List SendWr → PostResult SendWr
unfolding qp_get_next_send_wqe free_unused_wqe queue_send prepare
post_send_loop h q [] = accepted q
post_send_loop h q (wr ∷ wrs) = elim (ltb (sge_limit q wr.opcode) (length wr.sg_list)) [
  | true ↦ refused q (plus Errno.einval) (wr ∷ wrs)
  | false ↦ elim (qp_get_next_send_wqe h q) [
    | none ↦ refused q (minus Errno.enospc) (wr ∷ wrs)
    | some (i, q1) ↦ elim (prepare q1 (set_flags q1 (q1.sq.storage i) wr) wr wr.opcode) [
      | kept wqe e ↦ refused (store_send q1 i wqe) (plus e) (wr ∷ wrs)
      | put_back wqe e ↦ refused (free_unused_wqe h (store_send q1 i wqe) i) (plus e) (wr ∷ wrs)
      | ready wqe ↦ post_send_loop h (queue_send h q1 i (send_entry wqe wr)) wrs
    ]
  ]
]

-- The states in which requests are refused at once; an unbound queue pair is not among them.
abbrev pub is_closed : ConnState → Bool
is_closed ConnState.shutdown = true
is_closed ConnState.error = true
is_closed ConnState.unbound = false
is_closed ConnState.connected = false
is_closed ConnState.running = false

unfoldable pub usiw_post_send : Host → Qp → List SendWr → PostResult SendWr
unfolding post_send_loop
usiw_post_send h q [] = refused q (plus Errno.einval) []
usiw_post_send h q (wr ∷ wrs) =
    if is_closed q.shm.conn_state
    then refused q (plus Errno.einval) (wr ∷ wrs)
    else post_send_loop h q (wr ∷ wrs)

-- usiw_send_wqe_queue_init, if its allocations succeed; usiw_create_qp sets max_inline.
unfoldable pub usiw_send_wqe_queue_init : Host → SendWqe → ℕ → ℕ → ℕ → SendQueue
usiw_send_wqe_queue_init h zeroed max_send_wr max_send_sge max_inline = record {
  ring = [];
  free_ring = fill_ring h max_send_wr max_send_wr;
  active = [];
  max_wr = max_send_wr;
  max_sge = max_send_sge;
  max_inline = max_inline;
  storage = λ i. zeroed;
}
