-- ===== src/Tests/Requests.antt =====
-- The theorems on read requests and duplicates at concrete inputs.
use urdma.Prelude.{[], ◌∷◌, ◌≡◌, ℕ, refl, true, false, arith}
use urdma.Tests.Scenario.{host, qp, recv_wqe, send_wqe, segment}
use urdma.Trp.Window.{Window, IsWindow, Represents}
use urdma.Qp.{Qp, SendWqe, SendOpcode}
use urdma.Proto.Headers.{readreq_bytes}
use urdma.Rdmap.{PacketContext, do_rdmap_read_request}
use urdma.Rdmap.ReadLimit.{ReadAttempt, do_rdmap_read_request-ReadAttempt}
use urdma.Prelude.Distinct.{NotIn}
use urdma.Iov.Copy.{addresses}
use urdma.Ddp.Untagged.{receive_send}
use urdma.Ddp.Buffers.{receive_send-confined}
use urdma.Ddp.Reads.{process_rdma_read_request, respond_segments}
use urdma.Ddp.Answer.{Answered, respond_segments-Answered}
use urdma.Ddp.Admission.{Admission, process_rdma_read_request-Admission}
use urdma.Packet.{Packet, process_data_packet}
use urdma.Packet.Duplicates.{Ignored, process_data_packet-duplicate}

abbrev read_wqe : ℕ → SendWqe
read_wqe i = record (send_wqe i) { opcode = SendOpcode.wr_read }

abbrev read_qp : Qp
read_qp = record qp { sq = record (qp.sq) { storage = read_wqe } }

do_rdmap_read_request_example : ReadAttempt read_qp 0 (do_rdmap_read_request host read_qp 0)
do_rdmap_read_request_example =
    do_rdmap_read_request-ReadAttempt host read_qp 0 (λ call. refl) (omega arith)

-- A request for 32 bytes of the region 5.
abbrev read_request : PacketContext
read_request = record {
  psn = 7;
  ddp_seg_length = 42;
  rdmap = readreq_bytes (record {
    untagged = record {
      head = record { ddp_flags = 0x41; rdmap_info = 0x41; sink_stag = 11 };
      qn = 1;
      msn = 1;
      mo = 0;
    };
    sink_offset = 4096;
    read_msg_size = 32;
    source_stag = 5;
    source_offset = 1010;
  });
}

process_rdma_read_request_example :
    Admission qp read_request (process_rdma_read_request host qp read_request)
process_rdma_read_request_example =
    process_rdma_read_request-Admission host qp read_request (λ call. refl)

abbrev seen : Window
seen = record { ack = 7; missing = false; lo = 0; hi = 0 }

seen-IsWindow : IsWindow seen
seen-IsWindow = record {
  above = λ e. absurd (ground arith);
  holds_some = λ e. absurd (ground arith);
  narrow = λ e. absurd (ground arith);
}

qp-Represents : Represents qp.remote_ep seen
qp-Represents = record {
  ack = refl;
  missing = refl;
  lo = λ e. absurd (ground arith);
  hi = λ e. absurd (ground arith);
}

-- The packet 5 once more.
abbrev duplicate : Packet
duplicate = record {
  cksum_bad = false;
  next_proto_id = 17;
  dst_addr = 1;
  dst_port = 4791;
  dgram_len = 21;
  trp = record { psn = 5; ack_psn = 1; opcode = 0 };
  segment = segment;
}

duplicate_example : Ignored qp (process_data_packet host qp duplicate)
duplicate_example =
    process_data_packet-duplicate host qp duplicate seen 5 qp-Represents seen-IsWindow
      (omega arith, omega arith) refl refl refl refl

-- A response of ten bytes is owed in the slot 1.
abbrev owing : Qp
owing = record qp {
  readresp_store = λ j. record {
    vaddr = 1010;
    msg_size = 10;
    sink_stag = 11;
    sink_offset = 4096;
    active = true;
  };
}

respond_segments_example : Answered owing 1 (respond_segments host 10 owing 1)
respond_segments_example =
    respond_segments-Answered host owing 1 (λ call. refl) (omega arith) (omega arith) (omega arith)

-- Three bytes of a SEND at the offset 2 of its message.
abbrev send_segment : PacketContext
send_segment = record {
  psn = 7;
  ddp_seg_length = 21;
  rdmap =
      0x01 ∷ 0x43 ∷ 0 ∷ 0 ∷ 0 ∷ 0 ∷ 0 ∷ 0 ∷ 0 ∷ 0 ∷ 0 ∷ 0 ∷ 0 ∷ 1 ∷ 0 ∷ 0 ∷ 0 ∷ 2 ∷ 7 ∷ 8 ∷ 9 ∷ [];
}

before_buffer : NotIn 2999 (addresses (recv_wqe 0).iov)
unfolding addresses urdma.Iov.Copy.span
before_buffer = ground arith

receive_send_example : (receive_send host qp 0 send_segment).memory 2999 ≡ qp.memory 2999
receive_send_example = receive_send-confined host qp 0 send_segment 2999 before_buffer
