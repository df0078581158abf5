-- ===== src/Udp.antt =====
-- src/liburdma/interface.c: flush_tx_queue, enqueue_ether_frame, prepend_ipv4_header,
-- prepend_udp_header and send_udp_dgram. The loop of flush_tx_queue has one round for each
-- frame as fuel, which suffices when every burst takes a frame (Udp/Flush); a NIC that takes
-- nothing for ever keeps the program in the loop.
pub mod Checksum
pub mod Flush
use urdma.Prelude.{
  ℕ, zero, suc, ◌+◌, ◌-◌, ◌*◌, ◌/◌, ◌%◌, ◌^◌, Bool, true, false, List, [], ◌∷◌, ◌++◌, ltb, ◌==◌,
  if◌then◌else◌, length, take, drop,
}
use urdma.Prelude.Words.{u16_mod, u32}
use urdma.Host.{Host}
use urdma.Proto.{Bytes}
use urdma.Proto.Headers.{TrpHeader}
use urdma.Qp.{Qp, Frame, Transmit}

pub flush_loop : Host → ℕ → Transmit → Transmit
flush_loop h zero t = t
flush_loop h (suc fuel) t =
    let n = h.tx_burst t.tx_calls (length t.txq) in
    let t' = record t {
      wire = t.wire ++ take n t.txq;
      txq = drop n t.txq;
      tx_calls = t.tx_calls + 1;
    } in
    let rest = flush_loop h fuel t' in if length t'.txq == 0 then t' else rest

unfoldable pub flush_tx_queue : Host → Transmit → Transmit
unfolding flush_loop
flush_tx_queue h t = flush_loop h (length t.txq + 1) t

unfoldable pub enqueue_ether_frame : Host → ℕ → Frame → Transmit → Transmit
enqueue_ether_frame h burst f t =
    let t' = record t { txq = t.txq ++ f ∷ [] } in
    if length t'.txq == burst then flush_tx_queue h t' else t'

-- while (raw_cksum > UINT16_MAX) raw_cksum = (raw_cksum >> 16) + (raw_cksum & 0xffff)
unfoldable pub fold_carries : ℕ → ℕ → ℕ
fold_carries zero raw = raw
fold_carries (suc fuel) raw =
    let rest = fold_carries fuel (raw / 2 ^ 16 + raw % 2 ^ 16) in
    if ltb 0xffff raw then rest else raw

-- Three rounds suffice for any 32-bit sum (Udp/Checksum).
unfoldable pub finish_cksum : ℕ → ℕ
unfolding fold_carries
finish_cksum raw =
    let folded = fold_carries 3 raw in if folded == 0xffff then 0xffff else 0xffff - folded

abbrev pub trp_size : ℕ
trp_size = 10

abbrev pub udp_size : ℕ
udp_size = 8

abbrev pub ipv4_size : ℕ
ipv4_size = 20

-- The headers of a datagram; lengths are stored in 16 bits.
unfoldable pub dgram_frame : Host → Qp → TrpHeader → Bytes → ℕ → Frame
unfolding finish_cksum
dgram_frame h q trp segment raw_cksum =
    let offload = q.dev.checksum_offload in
    let dgram_len = (udp_size + (trp_size + length segment)) % u16_mod in
    let total_length = (ipv4_size + (udp_size + (trp_size + length segment))) % u16_mod in
    let src = q.dev.ipv4_addr in
    let dst = q.shm.remote_ipv4_addr in
    let phdr = h.phdr_cksum total_length src dst offload in
    let raw = u32 (
      raw_cksum
      + (phdr + q.shm.local_udp_port + q.shm.remote_udp_port + h.cpu_to_be_16 dgram_len)) in
    record {
      dst_ether = q.shm.remote_ether_addr;
      ip_total_length = total_length;
      hdr_checksum = if offload then 0 else h.ipv4_cksum total_length src dst;
      src_addr = src;
      dst_addr = dst;
      src_port = q.shm.local_udp_port;
      dst_port = q.shm.remote_udp_port;
      dgram_len = dgram_len;
      dgram_cksum = if offload then phdr else finish_cksum raw;
      cksum_offloaded = offload;
      trp = trp;
      segment = segment;
    }

unfoldable pub send_udp_dgram : Host → Qp → TrpHeader → Bytes → ℕ → Qp
send_udp_dgram h q trp segment raw_cksum = record q {
  tx = enqueue_ether_frame h q.shm.tx_burst_size (dgram_frame h q trp segment raw_cksum) q.tx;
}
