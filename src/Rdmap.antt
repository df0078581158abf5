-- ===== src/Rdmap.antt =====
-- src/liburdma/interface.c: the RDMAP messages that a queue pair sends. do_rdmap_send and
-- do_rdmap_write with their loops, do_rdmap_read_request, terminate_append_ddp_header and
-- do_rdmap_terminate. The loops have the bytes that are left as fuel, which suffices since the
-- MTU is not 0. The iovecs of a request describe `total_length` bytes.
pub mod Consistent
pub mod Segments
pub mod Rounds
pub mod Transfer
pub mod Payloads
pub mod ReadLimit
use urdma.Prelude.{
  ℕ, zero, suc, ◌+◌, ◌-◌, ◌*◌, ◌/◌, ◌%◌, ◌^◌, min, Bool, true, false, ◌&&◌, ◌||◌, none, some, List,
  [], ◌∷◌, ◌++◌, ltb, leb, ◌==◌, if◌then◌else◌, take, drop, replicate, get_or,
}
use urdma.Prelude.Words.{u32, u64}
use urdma.Serial.{serial_less_32, serial_greater_32}
use urdma.Host.{Host}
use urdma.Proto
use urdma.Proto.{Bytes, put_16}
use urdma.Proto.Headers.{
  Tagged, Untagged, ReadRequest, Terminate, untagged_bytes, tagged_bytes, readreq_bytes,
  terminate_bytes,
}
use urdma.Qp.{Qp, SendWqe, SendState, Iovec}
use urdma.Iov.{memcpy_from_iov}
use urdma.Transmission.{send_ddp_segment}
use urdma.Sweep.{set_send_wqe}

-- struct packet_context; src_ep is always the endpoint of the queue pair.
pub record PacketContext : Type 0 where
  pub psn : ℕ
  pub ddp_seg_length : ℕ
  pub rdmap : Bytes

-- The bytes of a segment from `bytes_sent` on.
unfoldable pub payload_at : Qp → SendWqe → ℕ → Bytes
payload_at q w len =
    if w.is_inline
    then take len (drop w.bytes_sent w.inline_data)
    else memcpy_from_iov q.memory len w.iov w.bytes_sent

abbrev pub has_credit : Qp → Bool
has_credit q = serial_less_32 q.remote_ep.send_next_psn q.remote_ep.send_max_psn

unfoldable pub send_header : SendWqe → ℕ → Untagged
send_header w mtu = record {
  head = record {
    ddp_flags =
        if leb (w.total_length - w.bytes_sent) mtu
        then Proto.ddp_v1_untagged_last_df
        else Proto.ddp_v1_untagged_df;
    rdmap_info = Proto.rdmap_opcode_send + Proto.rdmap_v1;
    sink_stag = 0;
  };
  qn = 0;
  msn = w.msn;
  mo = u32 w.bytes_sent;
}

unfoldable pub write_header : SendWqe → ℕ → Tagged
write_header w mtu = record {
  head = record {
    ddp_flags =
        if leb (w.total_length - w.bytes_sent) mtu
        then Proto.ddp_v1_tagged_last_df
        else Proto.ddp_v1_tagged_df;
    rdmap_info = Proto.rdmap_opcode_rdma_write + Proto.rdmap_v1;
    sink_stag = w.rkey;
  };
  offset = u64 (w.remote_addr + w.bytes_sent);
}

-- One round of the loops: a segment of at most the MTU goes out and is accounted for.
unfoldable pub send_round : Host → Qp → ℕ → (SendWqe → ℕ → Bytes) → Qp
send_round h q i header =
    let w = q.sq.storage i in
    let mtu = q.shm.mtu in
    let len = min mtu (w.total_length - w.bytes_sent) in
    let q1 = send_ddp_segment h q (header w mtu ++ payload_at q w len) none (some i) len in
    set_send_wqe q1 i (record w { bytes_sent = w.bytes_sent + len })

unfoldable pub send_loop : Host → ℕ → Qp → ℕ → (SendWqe → ℕ → Bytes) → Qp
send_loop h zero q i header = q
send_loop h (suc fuel) q i header =
    let w = q.sq.storage i in
    let rest = send_loop h fuel (send_round h q i header) i header in
    if ltb w.bytes_sent w.total_length && has_credit q then rest else q

-- if (wqe->bytes_sent == wqe->total_length) wqe->state = SEND_WQE_WAIT
unfoldable pub mark_sent : Qp → ℕ → Qp
mark_sent q i =
    let w = q.sq.storage i in
    if w.bytes_sent == w.total_length
    then set_send_wqe q i (record w { state = SendState.wait })
    else q

abbrev pub bytes_left : Qp → ℕ → ℕ
bytes_left q i = (q.sq.storage i).total_length - (q.sq.storage i).bytes_sent

unfoldable pub do_rdmap_send : Host → Qp → ℕ → Qp
unfolding send_header
do_rdmap_send h q i =
    mark_sent (send_loop h (bytes_left q i) q i (λ w mtu. untagged_bytes (send_header w mtu))) i

unfoldable pub do_rdmap_write : Host → Qp → ℕ → Qp
unfolding write_header
do_rdmap_write h q i =
    mark_sent (send_loop h (bytes_left q i) q i (λ w mtu. tagged_bytes (write_header w mtu))) i

abbrev pub is_transfer : SendState → Bool
is_transfer SendState.transfer = true
is_transfer SendState.init = false
is_transfer SendState.wait = false
is_transfer SendState.complete = false

abbrev pub first_iov : List Iovec → Iovec
first_iov [] = record { base = 0; len = 0 }
first_iov (v ∷ vs) = v

unfoldable pub readreq_of : SendWqe → ReadRequest
readreq_of w = record {
  untagged = record {
    head = record {
      ddp_flags = Proto.ddp_v1_untagged_last_df;
      rdmap_info = Proto.rdmap_opcode_rdma_read_request + Proto.rdmap_v1;
      sink_stag = w.local_stag;
    };
    qn = 1;
    msn = w.msn;
    mo = 0;
  };
  sink_offset = (first_iov w.iov).base;
  read_msg_size = (first_iov w.iov).len % 2 ^ 32;
  source_stag = w.rkey;
  source_offset = w.remote_addr;
}

-- Nothing is sent while ord_max requests are outstanding or the credits are used up.
unfoldable pub do_rdmap_read_request : Host → Qp → ℕ → Qp
unfolding readreq_of
do_rdmap_read_request h q i =
    let w = q.sq.storage i in
    let e = q.remote_ep in
    let q1 = record q { ord_active = (q.ord_active + 1) % 256 } in
    let q2 = send_ddp_segment h q1 (readreq_bytes (readreq_of w)) none (some i) 0 in
    let sent = set_send_wqe q2 i (record w { state = SendState.wait }) in
    if is_transfer w.state
    then (if leb q.shm.ord_max q.ord_active
        then q
        else if e.send_next_psn == e.send_max_psn
            || serial_greater_32 e.send_next_psn e.send_max_psn
        then q
        else sent)
    else q

-- memcpy of n bytes from a packet; what lies past its end is taken for 0.
abbrev pub bytes_of : ℕ → Bytes → Bytes
bytes_of n b = take n (b ++ replicate n 0)

-- errcode & 0xff00
abbrev pub error_class : ℕ → ℕ
error_class errcode = errcode / 2 ^ 8 * 2 ^ 8

-- What stands behind the terminate header: the bytes appended to the mbuf, the hdrct, and the
-- bytes written. terminate_append_ddp_header appends the size of the DDP header alone, and
-- writes the segment length in front of it.
pub record TerminatePayload : Type 0 where
  pub appended : ℕ
  pub hdrct : ℕ
  pub written : Bytes

unfoldable pub terminate_append_ddp_header : PacketContext → TerminatePayload
terminate_append_ddp_header orig =
    let hdr_size =
      if Proto.ddp_get_t (get_or orig.rdmap 0 0) then Proto.tagged_size else Proto.untagged_size in
    record {
      appended = hdr_size;
      hdrct = 3;
      written = put_16 orig.ddp_seg_length ++ bytes_of hdr_size orig.rdmap;
    }

unfoldable pub terminate_payload : PacketContext → ℕ → TerminatePayload
unfolding terminate_append_ddp_header
terminate_payload orig errcode =
    if error_class errcode == 0x0100
    then record {
      appended = 2 + Proto.readreq_size;
      hdrct = 7;
      written = put_16 orig.ddp_seg_length ++ bytes_of Proto.readreq_size orig.rdmap;
    }
    else if error_class errcode == 0x0200
        || error_class errcode == 0x1200
        || error_class errcode == 0x1000
        || error_class errcode == 0x1100
    then terminate_append_ddp_header orig
    else record { appended = 0; hdrct = 0; written = [] }

-- The segment holds what was appended; bytes written past that are not transmitted.
unfoldable pub terminate_segment : PacketContext → ℕ → Bytes
unfolding terminate_payload
terminate_segment orig errcode =
    let p = terminate_payload orig errcode in
    let header : Terminate = record {
      untagged = record {
        head = record {
          ddp_flags = Proto.ddp_v1_untagged_last_df;
          rdmap_info = Proto.rdmap_opcode_terminate + Proto.rdmap_v1;
          sink_stag = 0;
        };
        qn = 2;
        msn = 1;
        mo = 0;
      };
      error_code = errcode;
      hdrct = p.hdrct;
      reserved = 0;
    } in
    take (Proto.terminate_size + p.appended) (terminate_bytes header ++ p.written)

-- No caller passes a null packet.
unfoldable pub do_rdmap_terminate : Host → Qp → PacketContext → ℕ → Qp
unfolding terminate_segment
do_rdmap_terminate h q orig errcode =
    send_ddp_segment h q (terminate_segment orig errcode) none none 0
