-- ===== src/Packet.antt =====
-- src/liburdma/interface.c: process_data_packet. A received packet is its headers and the bytes
-- behind the TRP header. The program logs a packet with another IP protocol, destination address
-- or UDP port as dropped, and goes on with it; so these fields are there and are not read.
pub mod Consistent
pub mod Duplicates
use urdma.Prelude.{ℕ, ◌+◌, ◌-◌, Bool, ◌||◌, not, leb, ◌==◌, if◌then◌else◌, get_or}
use urdma.Prelude.Words.{u32, u32_mod}
use urdma.Host.{Host}
use urdma.Proto
use urdma.Proto.{Bytes}
use urdma.Proto.Headers.{TrpHeader}
use urdma.Trp.{Endpoint}
use urdma.Trp.Receive.{Verdict, is_accepted, receive_psn}
use urdma.Qp.{Qp, Stats}
use urdma.Sack.{process_trp_sack}
use urdma.Rdmap.{PacketContext, do_rdmap_terminate}
use urdma.Ddp.Untagged.{process_send}
use urdma.Ddp.Reads.{process_rdma_read_request}
use urdma.Ddp.Failure.{qp_shutdown, process_terminate}
use urdma.Ddp.Placement.{rdmap_opcode, ddp_place_tagged_data}

pub record Packet : Type 0 where
  pub cksum_bad : Bool
  pub next_proto_id : ℕ
  pub dst_addr : ℕ
  pub dst_port : ℕ
  pub dgram_len : ℕ
  pub trp : TrpHeader
  pub segment : Bytes

-- The counters that follow from the sequence number.
abbrev pub count_verdict : Verdict → Stats → Stats
count_verdict Verdict.in_order s = s
count_verdict Verdict.gap_placed s = record s { recv_psn_gap_count = s.recv_psn_gap_count + 1 }
count_verdict Verdict.out_of_range s = record s { recv_psn_gap_count = s.recv_psn_gap_count + 1 }
count_verdict Verdict.gap_duplicate s = record s { recv_psn_gap_count = s.recv_psn_gap_count + 1 }
count_verdict Verdict.retransmission s = record s {
  recv_retransmit_count = s.recv_retransmit_count + 1;
}

-- The sender's state follows the acknowledgement that the packet carries.
unfoldable pub take_ack : Endpoint → ℕ → Endpoint
take_ack e ack_psn = record e {
  send_last_acked_psn = ack_psn;
  send_max_psn = u32 (ack_psn + e.tx_pending_size + u32_mod - 1);
}

abbrev pub is_send : ℕ → Bool
is_send op =
    op == Proto.rdmap_opcode_send
    || op == Proto.rdmap_opcode_send_inv
    || op == Proto.rdmap_opcode_send_se
    || op == Proto.rdmap_opcode_send_se_inv

unfoldable pub dispatch_untagged : Host → Qp → PacketContext → Qp
dispatch_untagged h q ctx =
    if is_send (rdmap_opcode ctx)
    then process_send h q ctx
    else if rdmap_opcode ctx == Proto.rdmap_opcode_rdma_read_request
    then process_rdma_read_request h q ctx
    else if rdmap_opcode ctx == Proto.rdmap_opcode_terminate
    then process_terminate h q ctx
    else do_rdmap_terminate h q ctx Proto.rdmap_error_opcode_unexpected

-- The DDP and RDMAP versions are checked before the message is looked at.
unfoldable pub dispatch_segment : Host → Qp → PacketContext → Qp
unfolding dispatch_untagged
dispatch_segment h q ctx =
    let flags = get_or ctx.rdmap 0 0 in
    let info = get_or ctx.rdmap 1 0 in
    if not (Proto.ddp_get_dv flags == 1)
    then do_rdmap_terminate h q ctx (
        if Proto.ddp_get_t flags
        then Proto.ddp_error_tagged_version_invalid
        else Proto.ddp_error_untagged_version_invalid)
    else if not (Proto.rdmap_get_rv info == 1)
    then do_rdmap_terminate h q ctx Proto.rdmap_error_version_invalid
    else if Proto.ddp_get_t flags
    then ddp_place_tagged_data h q ctx
    else dispatch_untagged h q ctx

-- A packet with opcode 0: an acknowledgement, and perhaps a segment.
unfoldable pub process_normal : Host → Qp → Packet → Qp
unfolding take_ack
process_normal h q p =
    let q1 = record q { remote_ep = take_ack q.remote_ep p.trp.ack_psn } in
    let (e, verdict) = receive_psn q1.remote_ep p.trp.psn in
    let q2 = record q1 { remote_ep = e; stats = count_verdict verdict q.stats } in
    let ctx : PacketContext = record {
      psn = p.trp.psn;
      ddp_seg_length = p.dgram_len - 18;
      rdmap = p.segment;
    } in
    if leb p.dgram_len 18 then q1 else if is_accepted verdict then dispatch_segment h q2 ctx else q2

unfoldable pub process_data_packet : Host → Qp → Packet → Qp
unfolding process_normal
process_data_packet h q p =
    let op = Proto.trp_opcode_of p.trp.opcode in
    let s = q.stats in
    let sacked = record q {
      stats = record s { recv_sack_count = s.recv_sack_count + 1 };
      remote_ep = process_trp_sack q.remote_ep p.trp.psn p.trp.ack_psn;
    } in
    if p.cksum_bad
    then q
    else if op == 0
    then process_normal h q p
    else if op == Proto.trp_sack
    then sacked
    else if op == Proto.trp_fin
    then qp_shutdown h q
    else q
