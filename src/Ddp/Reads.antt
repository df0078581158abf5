-- ===== src/Ddp/Reads.antt =====
-- src/liburdma/interface.c: respond_rdma_read, process_rdma_read_request and
-- process_rdma_read_response. The loop that sends a response has the bytes left as fuel.
use urdma.Prelude.{
  ℕ, zero, suc, ◌+◌, ◌-◌, ◌%◌, min, true, false, ◌&&◌, ◌||◌, none, some, ◌++◌, ltb, leb, ◌==◌,
  if◌then◌else◌,
}
use mathlib.Core.Option
use urdma.Prelude.Words.{u32, u64}
use urdma.BinHeap
use urdma.Host.{Host}
use urdma.Proto
use urdma.Proto.{Bytes, get_32}
use urdma.Proto.Headers.{Tagged, tagged_bytes, rdmap_tagged_packet, rdmap_readreq_packet}
use urdma.Qp.{Qp, SendOpcode, ReadResponse, MemoryRegion, update}
use urdma.Iov.{load}
use urdma.Region.{usiw_mr_lookup, out_of_bounds}
use urdma.Completion.{send_lookup}
use urdma.Transmission.{send_ddp_segment}
use urdma.Rdmap.{PacketContext, has_credit, do_rdmap_terminate}
use urdma.Ddp.Context.{ddp_get_l_of}

abbrev pub set_read_response : Qp → ℕ → ReadResponse → Qp
set_read_response q j r = record q { readresp_store = update q.readresp_store j r }

unfoldable pub response_header : ReadResponse → ℕ → Tagged
response_header r mtu = record {
  head = record {
    ddp_flags = if leb r.msg_size mtu then Proto.ddp_v1_tagged_last_df else Proto.ddp_v1_tagged_df;
    rdmap_info = Proto.rdmap_opcode_rdma_read_response + Proto.rdmap_v1;
    sink_stag = r.sink_stag;
  };
  offset = r.sink_offset;
}

-- The segments of one read response, as far as the credits go.
unfoldable pub respond_segments : Host → ℕ → Qp → ℕ → Qp
unfolding response_header
respond_segments h zero q j = q
respond_segments h (suc fuel) q j =
    let r = q.readresp_store j in
    let len = min q.shm.mtu r.msg_size in
    let segment = tagged_bytes (response_header r q.shm.mtu) ++ load q.memory r.vaddr len in
    let q1 = send_ddp_segment h q segment (some j) none len in
    let r' = record r {
      vaddr = u64 (r.vaddr + len);
      msg_size = r.msg_size - len;
      sink_offset = u64 (r.sink_offset + len);
    } in
    let rest = respond_segments h fuel (set_read_response q1 j r') j in
    if ltb 0 r.msg_size && has_credit q then rest else q

-- A response that is sent whole frees its entry.
unfoldable pub finish_response : Qp → ℕ → Qp
finish_response q j =
    let r = q.readresp_store j in
    if r.msg_size == 0
    then record (set_read_response q j (record r { active = false })) {
      readresp_head_msn = u32 (q.readresp_head_msn + 1);
    }
    else q

unfoldable pub respond_from : Host → ℕ → Qp → ℕ → Qp
unfolding respond_segments finish_response
respond_from h zero q msn = q
respond_from h (suc rounds) q msn =
    let j = msn % q.shm.ird_max in
    let sent = respond_segments h (q.readresp_store j).msg_size q j in
    let rest = respond_from h rounds (finish_response sent j) (msn + 1) in
    if (q.readresp_store j).active then rest else q

unfoldable pub respond_rdma_read : Host → Qp → Qp
unfolding respond_from
respond_rdma_read h q = respond_from h q.shm.ird_max q q.readresp_head_msn

-- The request is good: it takes its entry of the store, unless that is in use.
unfoldable pub accept_read : Host → Qp → PacketContext → ℕ → MemoryRegion → Qp
accept_read h q orig msn mr =
    let req = rdmap_readreq_packet orig.rdmap in
    let j = msn % q.shm.ird_max in
    if out_of_bounds mr req.source_offset req.read_msg_size
    then do_rdmap_terminate h q orig Proto.rdmap_error_base_or_bounds_violation
    else if (q.readresp_store j).active
    then do_rdmap_terminate h q orig Proto.rdmap_error_remote_stream_catastrophic
    else set_read_response q j (record {
      vaddr = req.source_offset;
      msg_size = req.read_msg_size;
      sink_stag = req.untagged.head.sink_stag;
      sink_offset = req.sink_offset;
      active = true;
    })

unfoldable pub process_rdma_read_request : Host → Qp → PacketContext → Qp
unfolding accept_read
process_rdma_read_request h q orig =
    let req = rdmap_readreq_packet orig.rdmap in
    let msn = req.untagged.msn in
    let e = q.remote_ep in
    let expected =
      if msn == e.expected_read_msn then u32 (e.expected_read_msn + 1) else e.expected_read_msn in
    let q1 = record q { remote_ep = record e { expected_read_msn = expected } } in
    if ltb msn e.expected_read_msn || leb (u32 (q.readresp_head_msn + q.shm.ird_max)) msn
    then do_rdmap_terminate h q orig Proto.ddp_error_untagged_invalid_msn
    else elim (usiw_mr_lookup q.pd req.source_stag) [
      | none ↦ do_rdmap_terminate h q1 orig Proto.rdmap_error_stag_invalid
      | some mr ↦ accept_read h q1 orig msn mr
    ]

-- The last segment of a response is remembered by its sequence number, if the heap has room.
unfoldable pub process_rdma_read_response : Host → Qp → PacketContext → Qp
process_rdma_read_response h q orig =
    let t = rdmap_tagged_packet orig.rdmap in
    let e = q.remote_ep in
    let heap =
      Option.get_or (BinHeap.insert e.recv_rresp_last_psn orig.psn) e.recv_rresp_last_psn in
    elim (send_lookup q.sq.storage q.sq.active SendOpcode.wr_read t.head.sink_stag) [
      | none ↦ do_rdmap_terminate h q orig Proto.rdmap_error_opcode_unexpected
      | some _ ↦
          if ddp_get_l_of orig
          then record q { remote_ep = record e { recv_rresp_last_psn = heap } }
          else q
    ]
