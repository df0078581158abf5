-- ===== src/Packet/Consistent.antt =====
-- src/liburdma/interface.c: process_data_packet keeps the entries of the receive queue and of the
-- completion queues accounted for.
use urdma.Prelude.{◌-◌, not, leb, ◌==◌, get_or, if◌then◌else◌}
use urdma.Host.{Host, Laws}
use urdma.Proto
use urdma.Trp.Receive.{is_accepted, receive_psn}
use urdma.Qp.{Qp}
use urdma.Completion.Consistent.{Consistent, if-Consistent}
use urdma.Rdmap.{PacketContext}
use urdma.Rdmap.Consistent.{terminate-Consistent}
use urdma.Ddp.Placement.{rdmap_opcode}
use urdma.Ddp.Consistent.{process_send-Consistent}
use urdma.Ddp.ConsistentReads.{
  process_rdma_read_request-Consistent, process_terminate-Consistent,
  ddp_place_tagged_data-Consistent, qp_shutdown-Consistent,
}
use urdma.Packet.{
  Packet, is_send, take_ack, count_verdict, dispatch_untagged, dispatch_segment, process_normal,
  process_data_packet,
}

dispatch_untagged-Consistent :
    (h : Host) (q : Qp) (ctx : PacketContext)
    → Laws h
    → Consistent q
    → Consistent (dispatch_untagged h q ctx)
unfolding dispatch_untagged
dispatch_untagged-Consistent h q ctx laws v =
    let op = rdmap_opcode ctx in
    if-Consistent (is_send op) (process_send-Consistent h q ctx laws v) (
      if-Consistent (op == Proto.rdmap_opcode_rdma_read_request)
        (process_rdma_read_request-Consistent h q ctx v)
        (if-Consistent (op == Proto.rdmap_opcode_terminate)
          (process_terminate-Consistent h q ctx laws v)
          (terminate-Consistent h q ctx Proto.rdmap_error_opcode_unexpected v)))

dispatch_segment-Consistent :
    (h : Host) (q : Qp) (ctx : PacketContext)
    → Laws h
    → Consistent q
    → Consistent (dispatch_segment h q ctx)
unfolding dispatch_segment
dispatch_segment-Consistent h q ctx laws v =
    let flags = get_or ctx.rdmap 0 0 in
    let info = get_or ctx.rdmap 1 0 in
    let version =
      if Proto.ddp_get_t flags
      then Proto.ddp_error_tagged_version_invalid
      else Proto.ddp_error_untagged_version_invalid in
    if-Consistent (not (Proto.ddp_get_dv flags == 1)) (terminate-Consistent h q ctx version v) (
      if-Consistent (not (Proto.rdmap_get_rv info == 1))
        (terminate-Consistent h q ctx Proto.rdmap_error_version_invalid v)
        (if-Consistent (Proto.ddp_get_t flags) (ddp_place_tagged_data-Consistent h q ctx v)
          (dispatch_untagged-Consistent h q ctx laws v)))

process_normal-Consistent :
    (h : Host) (q : Qp) (p : Packet) → Laws h → Consistent q → Consistent (process_normal h q p)
unfolding process_normal
process_normal-Consistent h q p laws v =
    let q1 = record q { remote_ep = take_ack q.remote_ep p.trp.ack_psn } in
    let taken = receive_psn q1.remote_ep p.trp.psn in
    let q2 = record q1 { remote_ep = taken.0; stats = count_verdict taken.1 q.stats } in
    let ctx : PacketContext = record {
      psn = p.trp.psn;
      ddp_seg_length = p.dgram_len - 18;
      rdmap = p.segment;
    } in
    if-Consistent (leb p.dgram_len 18) (record { held = v.held })
      (if-Consistent (is_accepted taken.1)
        (dispatch_segment-Consistent h q2 ctx laws (record { held = v.held }))
        (record { held = v.held }))

pub process_data_packet-Consistent :
    (h : Host) (q : Qp) (p : Packet)
    → Laws h
    → Consistent q
    → Consistent (process_data_packet h q p)
unfolding process_data_packet
process_data_packet-Consistent h q p laws v =
    let op = Proto.trp_opcode_of p.trp.opcode in
    if-Consistent p.cksum_bad v (
      if-Consistent (op == 0) (process_normal-Consistent h q p laws v) (
        if-Consistent (op == Proto.trp_sack) (record { held = v.held })
          (if-Consistent (op == Proto.trp_fin) (qp_shutdown-Consistent h q laws v) v)))
