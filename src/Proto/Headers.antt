-- ===== src/Proto/Headers.antt =====
-- include/proto.h: the structs that overlay a segment. One record for each; the functions named
-- after a struct read it from the bytes, as the casts of the program do, and those that end in
-- _bytes write it.
use urdma.Prelude.{ℕ, [], ◌∷◌, ◌++◌, get_or, drop}
use urdma.Proto.{Bytes, put_16, put_32, put_64, get_16, get_32, get_64}

-- struct rdmap_packet
pub record Rdmap : Type 0 where
  pub ddp_flags : ℕ
  pub rdmap_info : ℕ
  pub sink_stag : ℕ

unfoldable pub rdmap_packet : Bytes → Rdmap
unfolding get_32
rdmap_packet b = record {
  ddp_flags = get_or b 0 0;
  rdmap_info = get_or b 1 0;
  sink_stag = get_32 b 2;
}

unfoldable pub rdmap_bytes : Rdmap → Bytes
unfolding put_32
rdmap_bytes h = h.ddp_flags ∷ h.rdmap_info ∷ put_32 h.sink_stag

-- struct rdmap_tagged_packet
pub record Tagged : Type 0 where
  pub head : Rdmap
  pub offset : ℕ

unfoldable pub rdmap_tagged_packet : Bytes → Tagged
unfolding rdmap_packet get_64
rdmap_tagged_packet b = record { head = rdmap_packet b; offset = get_64 b 6 }

unfoldable pub tagged_bytes : Tagged → Bytes
unfolding rdmap_bytes put_64
tagged_bytes h = rdmap_bytes h.head ++ put_64 h.offset

-- struct rdmap_untagged_packet
pub record Untagged : Type 0 where
  pub head : Rdmap
  pub qn : ℕ
  pub msn : ℕ
  pub mo : ℕ

unfoldable pub rdmap_untagged_packet : Bytes → Untagged
unfolding rdmap_packet get_32
rdmap_untagged_packet b = record {
  head = rdmap_packet b;
  qn = get_32 b 6;
  msn = get_32 b 10;
  mo = get_32 b 14;
}

unfoldable pub untagged_bytes : Untagged → Bytes
unfolding rdmap_bytes put_32
untagged_bytes h = rdmap_bytes h.head ++ put_32 h.qn ++ put_32 h.msn ++ put_32 h.mo

-- struct rdmap_readreq_packet
pub record ReadRequest : Type 0 where
  pub untagged : Untagged
  pub sink_offset : ℕ
  pub read_msg_size : ℕ
  pub source_stag : ℕ
  pub source_offset : ℕ

unfoldable pub rdmap_readreq_packet : Bytes → ReadRequest
unfolding rdmap_untagged_packet get_32 get_64
rdmap_readreq_packet b = record {
  untagged = rdmap_untagged_packet b;
  sink_offset = get_64 b 18;
  read_msg_size = get_32 b 26;
  source_stag = get_32 b 30;
  source_offset = get_64 b 34;
}

unfoldable pub readreq_bytes : ReadRequest → Bytes
unfolding untagged_bytes put_32 put_64
readreq_bytes h =
    untagged_bytes h.untagged
    ++ put_64 h.sink_offset
    ++ put_32 h.read_msg_size
    ++ put_32 h.source_stag
    ++ put_64 h.source_offset

-- struct rdmap_terminate_packet
pub record Terminate : Type 0 where
  pub untagged : Untagged
  pub error_code : ℕ
  pub hdrct : ℕ
  pub reserved : ℕ

unfoldable pub rdmap_terminate_packet : Bytes → Terminate
unfolding rdmap_untagged_packet get_16
rdmap_terminate_packet b = record {
  untagged = rdmap_untagged_packet b;
  error_code = get_16 b 18;
  hdrct = get_or b 20 0;
  reserved = get_or b 21 0;
}

unfoldable pub terminate_bytes : Terminate → Bytes
unfolding untagged_bytes put_16
terminate_bytes h = untagged_bytes h.untagged ++ put_16 h.error_code ++ h.hdrct ∷ h.reserved ∷ []

-- struct trp_hdr
pub record TrpHeader : Type 0 where
  pub psn : ℕ
  pub ack_psn : ℕ
  pub opcode : ℕ

unfoldable pub trp_bytes : TrpHeader → Bytes
unfolding put_16 put_32
trp_bytes h = put_32 h.psn ++ put_32 h.ack_psn ++ put_16 h.opcode

-- struct rdmap_terminate_payload: PAYLOAD_OF and the other casts skip a number of bytes.
abbrev pub payload_of : ℕ → Bytes → Bytes
payload_of size b = drop size b
