-- ===== src/Progress.antt =====
-- src/liburdma/interface.c: progress_send_wqe, process_receive_queue, progress_qp, start_qp and
-- the body of the loop of kni_loop for one queue pair. The burst of received packets and the
-- timer are inputs of a step. The allocations of start_qp are taken to succeed or fail together.
pub mod Consistent
pub mod ReadOrder
use urdma.Prelude.{
  ℕ, zero, suc, ◌+◌, ◌/◌, Bool, true, false, none, some, List, [], ◌∷◌, ltb, ◌==◌, if◌then◌else◌,
}
use urdma.Prelude.Words.{u32}
use urdma.BinHeap
use urdma.BinHeap.{BinHeap}
use urdma.Host.{Host}
use urdma.Trp.{Endpoint}
use urdma.Qp.{Qp, SendWqe, SendState, SendOpcode, ConnState, ReadResponse}
use urdma.Udp.{flush_tx_queue}
use urdma.Completion.{try_complete_wqe, find_first_rdma_read}
use urdma.Transmission.{send_trp_sack, send_trp_ack}
use urdma.Sweep.{set_send_wqe, sweep_unacked_packets}
use urdma.Rdmap.{is_transfer, do_rdmap_send, do_rdmap_write, do_rdmap_read_request}
use urdma.Ddp.Reads.{respond_rdma_read}
use urdma.Ddp.Failure.{qp_shutdown}
use urdma.Packet.{Packet, process_data_packet}

abbrev pub is_complete : SendState → Bool
is_complete SendState.complete = true
is_complete SendState.init = false
is_complete SendState.transfer = false
is_complete SendState.wait = false

unfoldable pub send_by_opcode : Host → Qp → ℕ → SendOpcode → Qp
send_by_opcode h q i SendOpcode.wr_send = do_rdmap_send h q i
send_by_opcode h q i SendOpcode.wr_write = do_rdmap_write h q i
send_by_opcode h q i SendOpcode.wr_read = do_rdmap_read_request h q i

unfoldable pub progress_send_wqe : Host → Qp → ℕ → Qp
unfolding send_by_opcode
progress_send_wqe h q i =
    let w = q.sq.storage i in
    if is_complete w.state then try_complete_wqe h q i else send_by_opcode h q i w.opcode

-- Every packet of the burst, in order.
unfoldable pub process_receive_queue : Host → Qp → List Packet → Qp
process_receive_queue h q [] = q
process_receive_queue h q (p ∷ ps) = process_receive_queue h (process_data_packet h q p) ps

-- One last segment of a read response was received: the first active read request is complete.
unfoldable pub complete_first_read : Host → Qp → Qp
complete_first_read h q = elim (find_first_rdma_read q.sq.storage q.sq.active) [
  | none ↦ q
  | some i ↦
      let w = q.sq.storage i in
      try_complete_wqe h (set_send_wqe q i (record w { state = SendState.complete })) i
]

abbrev pub pop_response : Qp → Qp
pop_response q =
    let e = q.remote_ep in
    let heap : BinHeap = elim (BinHeap.pop e.recv_rresp_last_psn) [
      | none ↦ e.recv_rresp_last_psn
      | some heap ↦ heap
    ] in
    record q { remote_ep = record e { recv_rresp_last_psn = heap } }

-- The test is `psn < recv_ack_psn` on the words. The entries of the heap are the fuel.
unfoldable pub complete_reads : Host → ℕ → Qp → Qp
unfolding complete_first_read
complete_reads h zero q = q
complete_reads h (suc fuel) q = elim (BinHeap.peek q.remote_ep.recv_rresp_last_psn) [
  | none ↦ q
  | some psn ↦
      let rest = complete_reads h fuel (pop_response (complete_first_read h q)) in
      if ltb psn q.remote_ep.recv_ack_psn then rest else q
]

-- The walk over the active requests, and how many are still in transfer after it.
unfoldable pub progress_active : Host → List ℕ → Qp → ℕ → Qp × ℕ
progress_active h [] q scount = (q, scount)
progress_active h (i ∷ active) q scount =
    let q1 = progress_send_wqe h q i in
    progress_active h active q1 (if is_transfer (q1.sq.storage i).state then scount + 1 else scount)

-- The sequence number that a request starts with, and the endpoint after it.
abbrev pub number_request : SendOpcode → SendWqe → Endpoint → SendWqe × Endpoint
number_request SendOpcode.wr_send w e =
    (record w { msn = e.next_send_msn }, record e { next_send_msn = u32 (e.next_send_msn + 1) })
number_request SendOpcode.wr_read w e =
    (record w { msn = e.next_read_msn }, record e { next_read_msn = u32 (e.next_read_msn + 1) })
number_request SendOpcode.wr_write w e = (w, e)

-- The next request leaves the ring and becomes active.
unfoldable pub start_request : Host → Qp → ℕ → List ℕ → Qp
start_request h q i ring =
    let w = q.sq.storage i in
    let (w', e) = number_request w.opcode (record w { state = SendState.transfer }) q.remote_ep in
    let q1 = set_send_wqe (record q { remote_ep = e }) i w' in
    let s = q1.sq in
    record q1 { sq = record s { ring = ring; active = h.list_add_tail s.active i } }

unfoldable pub start_next : Host → Qp → Qp
unfolding start_request
start_next h q = elim (h.ring_dequeue q.sq.ring) [
  | none ↦ q
  | some (i, ring) ↦ progress_send_wqe h (start_request h q i ring) i
]

-- if (trp_flags & trp_ack_update)
unfoldable pub acknowledge : Host → Qp → Qp
acknowledge h q =
    let e = q.remote_ep in
    if e.ack_update then (if e.recv_missing then send_trp_sack h q else send_trp_ack h q) else q

unfoldable pub progress_qp : Host → Qp → List Packet → Qp
unfolding process_receive_queue complete_reads progress_active start_next acknowledge
progress_qp h q burst =
    let q1 = process_receive_queue h q burst in
    let q2 = sweep_unacked_packets h q1 q1.cycles in
    let q3 = complete_reads h q2.remote_ep.recv_rresp_last_psn.size q2 in
    let (q4, scount) = progress_active h q3.sq.active q3 0 in
    let q5 = if scount == 0 then start_next h q4 else q4 in
    let q6 = acknowledge h (respond_rdma_read h q5) in record q6 { tx = flush_tx_queue h q6.tx }

-- What start_qp sets up; `memory_left` says whether its allocations succeed. An entry of a fresh
-- readresp_store is inactive, and every slot of tx_pending is NULL.
abbrev pub no_response : ReadResponse
no_response = record { vaddr = 0; msg_size = 0; sink_stag = 0; sink_offset = 0; active = false }

abbrev pub set_conn_state : Qp → ConnState → Qp
set_conn_state q s = record q { shm = record (q.shm) { conn_state = s } }

abbrev pub if_connected : ConnState → ConnState
if_connected ConnState.connected = ConnState.running
if_connected ConnState.unbound = ConnState.unbound
if_connected ConnState.running = ConnState.running
if_connected ConnState.shutdown = ConnState.shutdown
if_connected ConnState.error = ConnState.error

unfoldable pub start_qp : Qp → Bool → (ℕ → ℕ) → Qp
start_qp q memory_left garbage =
    let e = q.remote_ep in
    let size = q.shm.tx_desc_count / 2 in
    let e' = record e {
      send_max_psn = size;
      tx_pending_size = size;
      tx_pending = λ i. if ltb i size then 0 else garbage i;
      tx_head = 0;
      recv_rresp_last_psn = BinHeap.new q.shm.ord_max garbage;
    } in
    let t = q.tx in
    let started = record q {
      remote_ep = e';
      readresp_store = λ _. no_response;
      tx = record t { txq = [] };
    } in
    if memory_left
    then set_conn_state started (if_connected q.shm.conn_state)
    else set_conn_state q ConnState.error

-- What one pass of kni_loop does to a queue pair in each state, and whether the queue pair stays
-- on the active list.
unfoldable pub kni_by_state : Host → Qp → Bool → (ℕ → ℕ) → List Packet → ConnState → Qp × Bool
unfolding start_qp progress_qp
kni_by_state h q memory_left garbage burst ConnState.connected =
    let started = start_qp q memory_left garbage in
    if memory_left then (progress_qp h started burst, true) else (started, true)
kni_by_state h q memory_left garbage burst ConnState.running = (progress_qp h q burst, true)
kni_by_state h q memory_left garbage burst ConnState.shutdown = (qp_shutdown h q, false)
kni_by_state h q memory_left garbage burst ConnState.error = (q, false)
kni_by_state h q memory_left garbage burst ConnState.unbound = (q, true)

unfoldable pub kni_step : Host → Qp → Bool → (ℕ → ℕ) → List Packet → Qp × Bool
unfolding kni_by_state
kni_step h q memory_left garbage burst = kni_by_state h q memory_left garbage burst q.shm.conn_state
