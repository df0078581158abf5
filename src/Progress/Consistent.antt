-- ===== src/Progress/Consistent.antt =====
-- src/liburdma/interface.c: one pass of the progress thread over a queue pair, and any number of
-- passes with the calls of the user between them.
use urdma.Prelude.{ℕ, zero, suc, ◌+◌, Bool, true, false, List, [], ◌∷◌, ltb, ◌==◌, if◌then◌else◌}
use urdma.BinHeap
use urdma.Host.{Host, Laws}
use urdma.Qp.{Qp, SendOpcode, ConnState}
use urdma.Completion.Consistent.{
  Consistent, if-Consistent, option-Consistent, try_complete_wqe-Consistent,
}
use urdma.Udp.{send_udp_dgram}
use urdma.Transmission.{send_trp_sack, send_trp_ack}
use urdma.Sweep.{sweep_unacked_packets}
use urdma.Sweep.Consistent.{sweep_unacked_packets-Consistent}
use urdma.Rdmap.{is_transfer}
use urdma.Rdmap.Consistent.{
  do_rdmap_send-Consistent, do_rdmap_write-Consistent, do_rdmap_read_request-Consistent,
}
use urdma.Ddp.Reads.{respond_rdma_read}
use urdma.Ddp.ConsistentReads.{respond_rdma_read-Consistent, qp_shutdown-Consistent}
use urdma.Packet.{Packet, process_data_packet}
use urdma.Packet.Consistent.{process_data_packet-Consistent}
use urdma.Progress.{
  is_complete, send_by_opcode, progress_send_wqe, process_receive_queue, complete_first_read,
  pop_response, complete_reads, progress_active, start_request, start_next, acknowledge,
  progress_qp, start_qp, kni_by_state, kni_step,
}

send_by_opcode-Consistent :
    (h : Host) (q : Qp) (i : ℕ) (op : SendOpcode)
    → Consistent q
    → Consistent (send_by_opcode h q i op)
unfolding send_by_opcode
send_by_opcode-Consistent h q i SendOpcode.wr_send v = do_rdmap_send-Consistent h q i v
send_by_opcode-Consistent h q i SendOpcode.wr_write v = do_rdmap_write-Consistent h q i v
send_by_opcode-Consistent h q i SendOpcode.wr_read v = do_rdmap_read_request-Consistent h q i v

progress_send_wqe-Consistent :
    (h : Host) (q : Qp) (i : ℕ) → Laws h → Consistent q → Consistent (progress_send_wqe h q i)
unfolding progress_send_wqe
progress_send_wqe-Consistent h q i laws v =
    let w = q.sq.storage i in
    if-Consistent (is_complete w.state) (try_complete_wqe-Consistent h q i laws v)
      (send_by_opcode-Consistent h q i w.opcode v)

process_receive_queue-Consistent :
    (h : Host) (ps : List Packet) (q : Qp)
    → Laws h
    → Consistent q
    → Consistent (process_receive_queue h q ps)
unfolding process_receive_queue
process_receive_queue-Consistent h [] q laws v = v
process_receive_queue-Consistent h (p ∷ ps) q laws v =
    process_receive_queue-Consistent h ps (process_data_packet h q p) laws
      (process_data_packet-Consistent h q p laws v)

complete_first_read-Consistent :
    (h : Host) (q : Qp) → Laws h → Consistent q → Consistent (complete_first_read h q)
unfolding complete_first_read
complete_first_read-Consistent h q laws v =
    option-Consistent _ v λ i. try_complete_wqe-Consistent h _ i laws (record { held = v.held })

complete_reads-Consistent :
    (h : Host) (fuel : ℕ) (q : Qp) → Laws h → Consistent q → Consistent (complete_reads h fuel q)
unfolding complete_reads
complete_reads-Consistent h zero q laws v = v
complete_reads-Consistent h (suc fuel) q laws v =
    let first = complete_first_read-Consistent h q laws v in
    option-Consistent (BinHeap.peek q.remote_ep.recv_rresp_last_psn) v λ psn.
      if-Consistent (ltb psn q.remote_ep.recv_ack_psn)
        (complete_reads-Consistent h fuel (pop_response (complete_first_read h q)) laws
          (record { held = first.held }))
        v

progress_active-Consistent :
    (h : Host) (active : List ℕ) (q : Qp) (scount : ℕ)
    → Laws h
    → Consistent q
    → Consistent (progress_active h active q scount).0
unfolding progress_active
progress_active-Consistent h [] q scount laws v = v
progress_active-Consistent h (i ∷ active) q scount laws v =
    let q1 = progress_send_wqe h q i in
    progress_active-Consistent h active q1
      (if is_transfer (q1.sq.storage i).state then scount + 1 else scount) laws
      (progress_send_wqe-Consistent h q i laws v)

start_request-Consistent :
    (h : Host) (q : Qp) (i : ℕ) (ring : List ℕ)
    → Consistent q
    → Consistent (start_request h q i ring)
unfolding start_request
start_request-Consistent h q i ring v = record { held = v.held }

start_next-Consistent : (h : Host) (q : Qp) → Laws h → Consistent q → Consistent (start_next h q)
unfolding start_next
start_next-Consistent h q laws v = option-Consistent (h.ring_dequeue q.sq.ring) v λ p.
    progress_send_wqe-Consistent h (start_request h q p.0 p.1) p.0 laws
      (start_request-Consistent h q p.0 p.1 v)

acknowledge-Consistent : (h : Host) (q : Qp) → Consistent q → Consistent (acknowledge h q)
unfolding acknowledge send_trp_sack send_trp_ack send_udp_dgram
acknowledge-Consistent h q v =
    if-Consistent q.remote_ep.ack_update
      (if-Consistent q.remote_ep.recv_missing (record { held = v.held }) (record { held = v.held }))
      v

progress_qp-Consistent :
    (h : Host) (q : Qp) (burst : List Packet)
    → Laws h
    → Consistent q
    → Consistent (progress_qp h q burst)
unfolding progress_qp
progress_qp-Consistent h q burst laws v =
    let q1 = process_receive_queue h q burst in
    let v1 = process_receive_queue-Consistent h burst q laws v in
    let q2 = sweep_unacked_packets h q1 q1.cycles in
    let v2 = sweep_unacked_packets-Consistent h q1 q1.cycles laws v1 in
    let fuel = q2.remote_ep.recv_rresp_last_psn.size in
    let q3 = complete_reads h fuel q2 in
    let v3 = complete_reads-Consistent h fuel q2 laws v2 in
    let walked = progress_active h q3.sq.active q3 0 in
    let v4 = progress_active-Consistent h q3.sq.active q3 0 laws v3 in
    let q5 = if walked.1 == 0 then start_next h walked.0 else walked.0 in
    let v5 = if-Consistent (walked.1 == 0) (start_next-Consistent h walked.0 laws v4) v4 in
    let v6 =
      acknowledge-Consistent h (respond_rdma_read h q5) (respond_rdma_read-Consistent h q5 v5) in
    record { held = v6.held }

start_qp-Consistent :
    (q : Qp) (memory_left : Bool) (garbage : ℕ → ℕ)
    → Consistent q
    → Consistent (start_qp q memory_left garbage)
unfolding start_qp
start_qp-Consistent q memory_left garbage v =
    if-Consistent memory_left (record { held = v.held }) (record { held = v.held })

pub kni_by_state-Consistent :
    (h : Host) (q : Qp) (memory_left : Bool) (garbage : ℕ → ℕ) (burst : List Packet) (s : ConnState)
    → Laws h
    → Consistent q
    → Consistent (kni_by_state h q memory_left garbage burst s).0
unfolding kni_by_state
kni_by_state-Consistent h q true garbage burst ConnState.connected laws v =
    progress_qp-Consistent h (start_qp q true garbage) burst laws
      (start_qp-Consistent q true garbage v)
kni_by_state-Consistent h q false garbage burst ConnState.connected laws v =
    start_qp-Consistent q false garbage v
kni_by_state-Consistent h q memory_left garbage burst ConnState.running laws v =
    progress_qp-Consistent h q burst laws v
kni_by_state-Consistent h q memory_left garbage burst ConnState.shutdown laws v =
    qp_shutdown-Consistent h q laws v
kni_by_state-Consistent h q memory_left garbage burst ConnState.error laws v = v
kni_by_state-Consistent h q memory_left garbage burst ConnState.unbound laws v = v

pub kni_step-Consistent :
    (h : Host) (q : Qp) (memory_left : Bool) (garbage : ℕ → ℕ) (burst : List Packet)
    → Laws h
    → Consistent q
    → Consistent (kni_step h q memory_left garbage burst).0
unfolding kni_step
kni_step-Consistent h q memory_left garbage burst =
    kni_by_state-Consistent h q memory_left garbage burst q.shm.conn_state
