-- ===== src/Ddp/ConsistentReads.antt =====
-- src/liburdma/interface.c: the handlers of read requests and responses, of tagged data and of
-- TERMINATE keep the entries of the receive queue and of the completion queues accounted for.
use urdma.Prelude.{
  ℕ, zero, suc, ◌+◌, ◌-◌, ◌/◌, ◌%◌, ◌&&◌, ◌||◌, not, min, none, some, ltb, leb, ◌==◌, ◌++◌, drop,
  if◌then◌else◌,
}
use urdma.Prelude.Words.{u32, u64, u32_mod}
use urdma.Host.{Host, Laws}
use urdma.Proto
use urdma.Proto.Headers.{
  rdmap_packet, rdmap_tagged_packet, rdmap_terminate_packet, rdmap_readreq_packet, tagged_bytes,
}
use urdma.Qp.{Qp, ReadResponse, MemoryRegion, WcStatus, ConnState}
use urdma.Iov.{load, store}
use urdma.Region.{out_of_bounds}
use urdma.Udp.{send_udp_dgram}
use urdma.Transmission.{send_ddp_segment, send_trp_fin}
use urdma.Completion.{sq_flush}
use urdma.Completion.Consistent.{
  Consistent, if-Consistent, option-Consistent, post_send_cqe-Consistent, sq_flush-Consistent,
  rq_flush-Consistent,
}
use urdma.Rdmap.{PacketContext, bytes_of, has_credit, error_class}
use urdma.Rdmap.Consistent.{send_ddp_segment-Consistent, terminate-Consistent}
use urdma.Ddp.Context.{ddp_get_l_of, payload_size}
use urdma.Ddp.Reads.{
  set_read_response, response_header, respond_segments, finish_response, respond_from,
  respond_rdma_read, accept_read, process_rdma_read_request, process_rdma_read_response,
}
use urdma.Ddp.Failure.{
  qp_shutdown, fail_read, terminate_read, terminate_tagged, process_terminate, terminated,
}
use urdma.Ddp.Placement.{rdmap_opcode, write_tagged, ddp_place_tagged_data}

respond_segments-Consistent :
    (h : Host) (fuel : ℕ) (q : Qp) (j : ℕ) → Consistent q → Consistent (respond_segments h fuel q j)
unfolding respond_segments
respond_segments-Consistent h zero q j v = v
respond_segments-Consistent h (suc fuel) q j v =
    let r = q.readresp_store j in
    let len = min q.shm.mtu r.msg_size in
    let segment = tagged_bytes (response_header r q.shm.mtu) ++ load q.memory r.vaddr len in
    let q1 = send_ddp_segment h q segment (some j) none len in
    let sent = send_ddp_segment-Consistent h q segment (some j) none len v in
    let r' : ReadResponse = record r {
      vaddr = u64 (r.vaddr + len);
      msg_size = r.msg_size - len;
      sink_offset = u64 (r.sink_offset + len);
    } in
    if-Consistent (ltb 0 r.msg_size && has_credit q)
      (respond_segments-Consistent h fuel (set_read_response q1 j r') j
        (record { held = sent.held }))
      v

finish_response-Consistent : (q : Qp) (j : ℕ) → Consistent q → Consistent (finish_response q j)
unfolding finish_response
finish_response-Consistent q j v =
    if-Consistent ((q.readresp_store j).msg_size == 0) (record { held = v.held }) v

respond_from-Consistent :
    (h : Host) (rounds : ℕ) (q : Qp) (msn : ℕ)
    → Consistent q
    → Consistent (respond_from h rounds q msn)
unfolding respond_from
respond_from-Consistent h zero q msn v = v
respond_from-Consistent h (suc rounds) q msn v =
    let j = msn % q.shm.ird_max in
    let fuel = (q.readresp_store j).msg_size in
    let sent = respond_segments h fuel q j in
    if-Consistent (q.readresp_store j).active
      (respond_from-Consistent h rounds (finish_response sent j) (msn + 1)
        (finish_response-Consistent sent j (respond_segments-Consistent h fuel q j v)))
      v

pub respond_rdma_read-Consistent :
    (h : Host) (q : Qp) → Consistent q → Consistent (respond_rdma_read h q)
unfolding respond_rdma_read
respond_rdma_read-Consistent h q v = respond_from-Consistent h q.shm.ird_max q q.readresp_head_msn v

accept_read-Consistent :
    (h : Host) (q : Qp) (orig : PacketContext) (msn : ℕ) (mr : MemoryRegion)
    → Consistent q
    → Consistent (accept_read h q orig msn mr)
unfolding accept_read
accept_read-Consistent h q orig msn mr v =
    let req = rdmap_readreq_packet orig.rdmap in
    if-Consistent (out_of_bounds mr req.source_offset req.read_msg_size)
      (terminate-Consistent h q orig Proto.rdmap_error_base_or_bounds_violation v)
      (if-Consistent (q.readresp_store (msn % q.shm.ird_max)).active
        (terminate-Consistent h q orig Proto.rdmap_error_remote_stream_catastrophic v)
        (record { held = v.held }))

pub process_rdma_read_request-Consistent :
    (h : Host) (q : Qp) (orig : PacketContext)
    → Consistent q
    → Consistent (process_rdma_read_request h q orig)
unfolding process_rdma_read_request
process_rdma_read_request-Consistent h q orig v =
    let msn = (rdmap_readreq_packet orig.rdmap).untagged.msn in
    let e = q.remote_ep in
    let expected =
      if msn == e.expected_read_msn then u32 (e.expected_read_msn + 1) else e.expected_read_msn in
    let q1 = record q { remote_ep = record e { expected_read_msn = expected } } in
    if-Consistent
      (ltb msn e.expected_read_msn || leb (u32 (q.readresp_head_msn + q.shm.ird_max)) msn)
      (terminate-Consistent h q orig Proto.ddp_error_untagged_invalid_msn v)
      (option-Consistent _
        (terminate-Consistent h q1 orig Proto.rdmap_error_stag_invalid (record { held = v.held }))
        (λ mr. accept_read-Consistent h q1 orig msn mr (record { held = v.held })))

process_rdma_read_response-Consistent :
    (h : Host) (q : Qp) (orig : PacketContext)
    → Consistent q
    → Consistent (process_rdma_read_response h q orig)
unfolding process_rdma_read_response
process_rdma_read_response-Consistent h q orig v =
    option-Consistent _ (terminate-Consistent h q orig Proto.rdmap_error_opcode_unexpected v)
      λ _. if-Consistent (ddp_get_l_of orig) (record { held = v.held }) v

write_tagged-Consistent :
    (h : Host) (q : Qp) (orig : PacketContext) (mr : MemoryRegion)
    → Consistent q
    → Consistent (write_tagged h q orig mr)
unfolding write_tagged
write_tagged-Consistent h q orig mr v =
    let vaddr = (rdmap_tagged_packet orig.rdmap).offset in
    let rdma_length = payload_size orig Proto.tagged_size % u32_mod in
    let payload = bytes_of rdma_length (drop Proto.tagged_size orig.rdmap) in
    let q1 = record q { memory = store q.memory vaddr payload } in
    let v1 : Consistent q1 = record { held = v.held } in
    if-Consistent (out_of_bounds mr vaddr rdma_length)
      (terminate-Consistent h q orig Proto.ddp_error_tagged_base_or_bounds_violation v)
      (if-Consistent (rdmap_opcode orig == Proto.rdmap_opcode_rdma_write) v1 (
        if-Consistent (rdmap_opcode orig == Proto.rdmap_opcode_rdma_read_response)
          (process_rdma_read_response-Consistent h q1 orig v1)
          (terminate-Consistent h q1 orig Proto.rdmap_error_opcode_unexpected v1)))

pub ddp_place_tagged_data-Consistent :
    (h : Host) (q : Qp) (orig : PacketContext)
    → Consistent q
    → Consistent (ddp_place_tagged_data h q orig)
unfolding ddp_place_tagged_data
ddp_place_tagged_data-Consistent h q orig v =
    option-Consistent _ (terminate-Consistent h q orig Proto.ddp_error_tagged_stag_invalid v)
      λ mr. write_tagged-Consistent h q orig mr v

pub qp_shutdown-Consistent :
    (h : Host) (q : Qp) → Laws h → Consistent q → Consistent (qp_shutdown h q)
unfolding qp_shutdown send_trp_fin send_udp_dgram
qp_shutdown-Consistent h q laws v =
    let q1 = send_trp_fin h q in
    let q2 = record q1 { shm = record (q1.shm) { conn_state = ConnState.error } } in
    rq_flush-Consistent h (sq_flush h q2) laws
      (sq_flush-Consistent h q2 laws (record { held = v.held }))

fail_read-Consistent :
    (h : Host) (q : Qp) (i : ℕ) → Laws h → Consistent q → Consistent (fail_read h q i)
unfolding fail_read
fail_read-Consistent h q i laws v =
    post_send_cqe-Consistent h _ i WcStatus.rem_access_err laws (record { held = v.held })

terminate_read-Consistent :
    (h : Host) (q : Qp) (orig : PacketContext)
    → Laws h
    → Consistent q
    → Consistent (terminate_read h q orig)
unfolding terminate_read
terminate_read-Consistent h q orig laws v =
    option-Consistent _ v λ i. fail_read-Consistent h q i laws v

terminate_tagged-Consistent :
    (h : Host) (q : Qp) (orig : PacketContext)
    → Laws h
    → Consistent q
    → Consistent (terminate_tagged h q orig)
unfolding terminate_tagged
terminate_tagged-Consistent h q orig laws v =
    let head = rdmap_packet (terminated orig) in
    if-Consistent (Proto.rdmap_get_opcode head.rdmap_info == Proto.rdmap_opcode_rdma_write)
      (option-Consistent _ v λ i. post_send_cqe-Consistent h q i WcStatus.rem_access_err laws v) v

pub process_terminate-Consistent :
    (h : Host) (q : Qp) (orig : PacketContext)
    → Laws h
    → Consistent q
    → Consistent (process_terminate h q orig)
unfolding process_terminate
process_terminate-Consistent h q orig laws v =
    let t = rdmap_terminate_packet orig.rdmap in
    let shut = qp_shutdown-Consistent h q laws v in
    if-Consistent (not (t.hdrct / 2 % 2 == 1)) shut (
      if-Consistent (error_class t.error_code == 0x0100) (terminate_read-Consistent h q orig laws v)
        (if-Consistent (error_class t.error_code == 0x1100)
          (terminate_tagged-Consistent h q orig laws v) shut))
