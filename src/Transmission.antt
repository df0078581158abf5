-- ===== src/Transmission.antt =====
-- src/liburdma/interface.c: resend_ddp_segment, tx_pending_entry, send_ddp_segment and the three
-- transport packets that carry no segment, send_trp_sack, send_trp_fin and send_trp_ack.
-- The assertions are not run; theorems state when they hold.
pub mod Resend
pub mod Ring
pub mod Keeps
use Prim.Native.Nat.{bit_and}
use urdma.Prelude.{
  ℕ, ◌+◌, ◌-◌, ◌/◌, ◌%◌, Bool, true, false, not, ◌||◌, Option, [], ltb, ◌==◌, if◌then◌else◌,
}
use urdma.Prelude.Words.{u16_mod, u32, u64}
use urdma.Host.{Host}
use urdma.Proto.{Bytes, trp_fin, trp_sack}
use urdma.Proto.Headers.{TrpHeader, trp_bytes}
use urdma.Trp.{Endpoint, Pending}
use urdma.Qp.{Qp, Device, update}
use urdma.Udp.{send_udp_dgram, flush_tx_queue}

abbrev pub retransmit_max : ℕ
retransmit_max = 5

-- The results 0, -EIO and -ENOMEM.
pub data ResendResult : Type 0 where
  sent eio enomem : ResendResult

-- `!qp->dev->flags & port_checksum_offload` reads as `(!flags) & 1`: no flag at all is set.
abbrev pub no_flags : Device → Bool
no_flags dev = not (dev.checksum_offload || dev.fdir)

-- The sum over segment and transport header that resend_ddp_segment hands to send_udp_dgram.
unfoldable pub payload_cksum : Host → Device → ℕ → TrpHeader → ℕ
payload_cksum h dev raw trp = if no_flags dev then u32 (raw + h.raw_cksum (trp_bytes trp)) else 0

-- The pending_datagram_info after the deadline is set and the transmission counted.
unfoldable pub count_transmit : Host → ℕ → Pending → Pending
count_transmit h cycles p = record p {
  next_retransmit = u64 (cycles + h.timer_hz / 100);
  transmit_count = (p.transmit_count + 1) % u16_mod;
}

-- An acknowledgement travels with the packet, unless a gap is still to be reported.
abbrev pub clear_ack_update : Endpoint → Endpoint
clear_ack_update e = record e { ack_update = if e.recv_missing then e.ack_update else false }

unfoldable pub resend_ddp_segment : Host → Qp → ℕ → Qp × ResendResult
unfolding count_transmit
resend_ddp_segment h q mbuf =
    let info = q.mbufs mbuf in
    let q1 = record q { mbufs = update q.mbufs mbuf (count_transmit h q.cycles info) } in
    let q2 = record q1 { allocs = q.allocs + 1 } in
    let trp : TrpHeader = record {
      psn = info.psn;
      ack_psn = q.remote_ep.recv_ack_psn;
      opcode = 0;
    } in
    let q3 = record q2 { remote_ep = clear_ack_update q.remote_ep } in
    let cksum = payload_cksum h q.dev info.ddp_raw_cksum trp in
    if ltb retransmit_max info.transmit_count
    then (q1, ResendResult.eio)
    else if h.hdr_alloc q.allocs
    then (send_udp_dgram h q3 trp info.segment cksum, ResendResult.sent)
    else (q2, ResendResult.enomem)

-- The index of the slot: psn & (tx_pending_size - 1).
abbrev pub tx_pending_entry : Endpoint → ℕ → ℕ
tx_pending_entry e psn = bit_and psn (e.tx_pending_size - 1)

-- A checksum that is not computed is left at 0; it is not read then.
unfoldable pub new_pending : Host → Qp → Bytes → Option ℕ → Option ℕ → ℕ → Pending
new_pending h q segment readresp wqe payload_length = record {
  next_retransmit = 0;
  wqe = wqe;
  readresp = readresp;
  transmit_count = 0;
  ddp_length = payload_length % u16_mod;
  ddp_raw_cksum = if no_flags q.dev then h.raw_cksum segment else 0;
  psn = q.remote_ep.send_next_psn;
  segment = segment;
}

-- The segment gets the next sequence number and its slot, and is transmitted for the first time.
unfoldable pub queue_segment : Host → Qp → Bytes → Option ℕ → Option ℕ → ℕ → Qp
unfolding new_pending
queue_segment h q segment readresp wqe payload_length =
    let e = q.remote_ep in
    let mbuf = h.ddp_alloc q.ddp_allocs in
    let e' = record e {
      send_next_psn = u32 (e.send_next_psn + 1);
      tx_pending = update e.tx_pending (tx_pending_entry e e.send_next_psn) mbuf;
    } in
    record q {
      remote_ep = e';
      ddp_allocs = q.ddp_allocs + 1;
      mbufs = update q.mbufs mbuf (new_pending h q segment readresp wqe payload_length);
    }

unfoldable pub send_ddp_segment : Host → Qp → Bytes → Option ℕ → Option ℕ → ℕ → Qp
unfolding queue_segment resend_ddp_segment
send_ddp_segment h q segment readresp wqe payload_length =
    let mbuf = h.ddp_alloc q.ddp_allocs in
    (resend_ddp_segment h (queue_segment h q segment readresp wqe payload_length) mbuf).0

abbrev pub trp_cksum : Host → Qp → TrpHeader → ℕ
trp_cksum h q trp = if q.dev.checksum_offload then 0 else h.raw_cksum (trp_bytes trp)

unfoldable pub send_trp_sack : Host → Qp → Qp
send_trp_sack h q =
    let e = q.remote_ep in
    let trp : TrpHeader = record { psn = e.sack_min; ack_psn = e.sack_max; opcode = trp_sack } in
    let q1 = record q { remote_ep = record e { ack_update = false } } in
    send_udp_dgram h q1 trp [] (trp_cksum h q trp)

unfoldable pub send_trp_ack : Host → Qp → Qp
send_trp_ack h q =
    let e = q.remote_ep in
    let trp : TrpHeader = record { psn = e.send_next_psn; ack_psn = e.recv_ack_psn; opcode = 0 } in
    let q1 = record q { remote_ep = record e { ack_update = false } } in
    send_udp_dgram h q1 trp [] (trp_cksum h q trp)

unfoldable pub send_trp_fin : Host → Qp → Qp
send_trp_fin h q =
    let e = q.remote_ep in
    let trp : TrpHeader = record {
      psn = e.send_next_psn;
      ack_psn = e.recv_ack_psn;
      opcode = trp_fin;
    } in
    let q1 = record q { remote_ep = clear_ack_update e } in
    let q2 = send_udp_dgram h q1 trp [] (trp_cksum h q trp) in
    record q2 { tx = flush_tx_queue h q2.tx }
