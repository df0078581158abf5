-- ===== src/Tests/Messages.antt =====
-- The theorems on messages at concrete inputs.
use urdma.Prelude.{
  ◌*◌, ◌/◌, ◌^◌, if◌then◌else◌, ℕ, ◌+◌, ◌-◌, ◌≤◌, ◌<◌, ◌≡◌, ◌⊎◌, refl, some, [], ◌∷◌, ◌++◌, ◌==◌,
  arith, take, drop,
}
use urdma.Prelude.Words.{u64_mod}
use urdma.Tests.Scenario.{host, host-Laws, qp, send_wqe}
use urdma.Proto
use urdma.Proto.Headers.{
  ReadRequest, readreq_bytes, ReadRequest, readreq_bytes, untagged_bytes, tagged_bytes,
  rdmap_packet, rdmap_tagged_packet,
}
use urdma.Qp.{Qp, SendWqe, SendOpcode, SendState, MemoryRegion}
use urdma.Region.{usiw_mr_lookup}
use urdma.Rdmap.{PacketContext, terminate_segment, do_rdmap_send, do_rdmap_write}
use urdma.Rdmap.Segments.{message}
use urdma.Rdmap.Transfer.{
  send_header_at, write_header_at, Transferred, do_rdmap_send-Transferred,
  do_rdmap_write-Transferred,
}
use urdma.Rdmap.Payloads.{payloads, do_rdmap_send-payloads}
use urdma.Ddp.Placement.{ddp_place_tagged_data}
use urdma.Ddp.Failure.{terminated}
use urdma.Ddp.Echo.{terminate-misread}
use urdma.Completion.{try_complete_wqe, find_first_rdma_read}
use urdma.Completion.Order.{Attempt, try_complete_wqe-in_order}
use urdma.Progress.{complete_first_read}
use urdma.Progress.ReadOrder.{complete_first_read-lost}
use urdma.Ddp.Confined.{ddp_place_tagged_data-confined}

-- A request of six bytes, none of which is sent, at an MTU of 4.
abbrev to_send : ℕ → SendWqe
to_send i = record (send_wqe i) { bytes_sent = 0 }

abbrev sender : Qp
sender = record qp { sq = record (qp.sq) { storage = to_send } }

do_rdmap_send_example :
    Transferred sender 0
      (λ w mtu. untagged_bytes (send_header_at w mtu))
      (do_rdmap_send host sender 0)
do_rdmap_send_example =
    do_rdmap_send-Transferred host sender 0 (λ call. refl) (omega arith) (omega arith)

do_rdmap_write_example :
    Transferred sender 0
      (λ w mtu. tagged_bytes (write_header_at w mtu))
      (do_rdmap_write host sender 0)
do_rdmap_write_example =
    do_rdmap_write-Transferred host sender 0 (λ call. refl) (omega arith) (omega arith)

payloads_example :
    let t = do_rdmap_send-Transferred host sender 0 (λ call. refl) (omega arith) (omega arith) in
    payloads Proto.untagged_size t.segs ≡ take (t.to - 0) (drop 0 (message sender (to_send 0)))
payloads_example = do_rdmap_send-payloads host sender 0 (λ call. refl) (omega arith) (omega arith)

-- An RDMA WRITE of two bytes to the address 1001 of the region 5.
abbrev write_segment : PacketContext
write_segment = record {
  psn = 7;
  ddp_seg_length = 16;
  rdmap = 0xc1 ∷ 0x40 ∷ 0 ∷ 0 ∷ 0 ∷ 5 ∷ 0 ∷ 0 ∷ 0 ∷ 0 ∷ 0 ∷ 0 ∷ 3 ∷ 0xe9 ∷ 7 ∷ 8 ∷ [];
}

found :
    (mr : MemoryRegion)
    → usiw_mr_lookup qp.pd (rdmap_packet write_segment.rdmap).sink_stag ≡ some mr
    → (mr.addr + mr.length < u64_mod) × ((2000 < mr.addr) ⊎ (mr.addr + mr.length ≤ 2000))
unfolding usiw_mr_lookup urdma.Region.find_mr rdmap_packet urdma.Proto.get_32
found mr e = ground (arith, e)

confined_example : (ddp_place_tagged_data host qp write_segment).memory 2000 ≡ qp.memory 2000
unfolding rdmap_tagged_packet rdmap_packet urdma.Proto.get_64 urdma.Proto.get_32
confined_example = ddp_place_tagged_data-confined host qp write_segment 2000 (omega arith) found

-- A refused request to read 64 bytes.
abbrev refused : ReadRequest
refused = record {
  untagged = record {
    head = record { ddp_flags = 0x41; rdmap_info = 0x41; sink_stag = 0x12345678 };
    qn = 1;
    msn = 1;
    mo = 0;
  };
  sink_offset = 4096;
  read_msg_size = 64;
  source_stag = 77;
  source_offset = 8192;
}

terminate-misread_example :
    (rdmap_packet (
      terminated (record {
        psn = 7;
        ddp_seg_length = 42;
        rdmap =
            terminate_segment
              (record { psn = 7; ddp_seg_length = 42; rdmap = readreq_bytes refused ++ [] })
              0x0101;
      }))).sink_stag
    ≡ 0x41 * 2 ^ 24 + 0x41 * 2 ^ 16 + 0x12345678 / 2 ^ 16
terminate-misread_example = terminate-misread refused [] 7 42 0x0101 refl (omega arith)

try_complete_wqe_example : Attempt qp 0 0 [] 1 (try_complete_wqe host qp 0)
try_complete_wqe_example =
    try_complete_wqe-in_order host qp 0 0 1 [] (2 ∷ 3 ∷ []) host-Laws
      (record { distinct = ground arith; room = omega arith }) refl refl

-- Request 0 is a SEND that waits, and request 1 is a read that is complete.
abbrev behind : ℕ → SendWqe
behind i =
    if i == 0
    then send_wqe 0
    else record (send_wqe i) { opcode = SendOpcode.wr_read; state = SendState.complete }

abbrev reader : Qp
reader = record qp { sq = record (qp.sq) { storage = behind; active = 0 ∷ 1 ∷ 2 ∷ [] } }

first_is_complete : find_first_rdma_read behind (0 ∷ 1 ∷ 2 ∷ []) ≡ some 1
unfolding find_first_rdma_read
first_is_complete = refl

complete_first_read_example :
    ((k : ℕ) → (complete_first_read host reader).sq.storage k ≡ behind k)
    × ((complete_first_read host reader).sq.active ≡ 0 ∷ 1 ∷ 2 ∷ [])
    × ((complete_first_read host reader).cqs ≡ reader.cqs)
    × ((complete_first_read host reader).ord_active ≡ 0)
complete_first_read_example =
    complete_first_read-lost host reader 1 0 (1 ∷ 2 ∷ []) host-Laws first_is_complete refl refl
      (omega arith)
