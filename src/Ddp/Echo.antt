-- ===== src/Ddp/Echo.antt =====
-- src/liburdma/interface.c: what process_terminate makes of the read request that do_rdmap_terminate puts behind the
-- TERMINATE header.
use urdma.Prelude.{ℕ, ◌+◌, ◌*◌, ◌/◌, ◌^◌, ◌<◌, ◌≡◌, ◌++◌, arith}
use urdma.Proto
use urdma.Proto.{Bytes}
use urdma.Proto.Headers.{ReadRequest, readreq_bytes, rdmap_packet}
use urdma.Rdmap.{PacketContext, error_class, terminate_segment, terminate_payload}
use urdma.Ddp.Failure.{terminated}

-- The bytes that stand where process_terminate expects the refused packet are shifted by the two
-- bytes of the segment length: the steering tag that it looks up is made of the flags, the
-- opcode and the upper half of the steering tag of the refused read request.
pub terminate-misread :
    (r : ReadRequest) (rest : Bytes) (psn len errcode : ℕ)
    → error_class errcode ≡ 0x0100
    → r.untagged.head.sink_stag < 2 ^ 32
    → let refused : PacketContext = record {
      psn = psn;
      ddp_seg_length = len;
      rdmap = readreq_bytes r ++ rest;
    } in
      let answer : PacketContext = record {
        psn = psn;
        ddp_seg_length = len;
        rdmap = terminate_segment refused errcode;
      } in
      (rdmap_packet (terminated answer)).sink_stag
      ≡ r.untagged.head.ddp_flags * 2 ^ 24
        + r.untagged.head.rdmap_info * 2 ^ 16
        + r.untagged.head.sink_stag / 2 ^ 16
unfolding terminate_segment terminate_payload rdmap_packet readreq_bytes urdma.Proto.get_32
    urdma.Proto.put_32 urdma.Proto.put_16 urdma.Proto.put_64 urdma.Proto.Headers.terminate_bytes
    urdma.Proto.Headers.untagged_bytes urdma.Proto.Headers.rdmap_bytes
terminate-misread r rest psn len errcode e small = rw e (omega arith)
