-- ===== src/Proto/Fields.antt =====
-- include/proto.h: the headers that the program writes and the casts that the receiver makes.
use urdma.Prelude.{ℕ, ◌+◌, ◌*◌, ◌/◌, ◌%◌, ◌^◌, ◌<◌, ◌≡◌, ◌++◌, arith}
use urdma.Proto.{Bytes}
use urdma.Proto.Headers.{
  Tagged, Untagged, ReadRequest, Terminate, rdmap_tagged_packet, rdmap_untagged_packet,
  rdmap_readreq_packet, rdmap_terminate_packet, tagged_bytes, untagged_bytes, readreq_bytes,
  terminate_bytes,
}

abbrev pub split_32 : ℕ → ℕ
split_32 n =
    n / 2 ^ 24 % 2 ^ 8 * 2 ^ 24
    + n / 2 ^ 16 % 2 ^ 8 * 2 ^ 16
    + n / 2 ^ 8 % 2 ^ 8 * 2 ^ 8
    + n % 2 ^ 8

pub join_16 : (n : ℕ) → n < 2 ^ 16 → n / 2 ^ 8 % 2 ^ 8 * 2 ^ 8 + n % 2 ^ 8 ≡ n
join_16 n h = omega arith

pub join_32 : (n : ℕ) → n < 2 ^ 32 → split_32 n ≡ n
join_32 n h = omega arith

join_64 : (n : ℕ) → n < 2 ^ 64 → split_32 (n / 2 ^ 32) * 2 ^ 32 + split_32 n ≡ n
join_64 n h = omega arith

-- The numbers of a header fit the fields of its struct.
pub record Fits (h : Untagged) : Type 0 where
  pub stag : h.head.sink_stag < 2 ^ 32
  pub qn : h.qn < 2 ^ 32
  pub msn : h.msn < 2 ^ 32
  pub mo : h.mo < 2 ^ 32

-- An untagged header that is written is read back, whatever follows it, if its numbers fit their
-- fields.
pub untagged_roundtrip :
    (h : Untagged) (rest : Bytes) → Fits h → rdmap_untagged_packet (untagged_bytes h ++ rest) ≡ h
unfolding rdmap_untagged_packet untagged_bytes
untagged_roundtrip h rest f = ground (
  arith,
  join_32 h.head.sink_stag f.stag,
  join_32 h.qn f.qn,
  join_32 h.msn f.msn,
  join_32 h.mo f.mo,
)

-- A tagged header that is written is read back, whatever follows it, if its numbers fit their
-- fields.
pub tagged_roundtrip :
    (h : Tagged) (rest : Bytes)
    → h.head.sink_stag < 2 ^ 32
    → h.offset < 2 ^ 64
    → rdmap_tagged_packet (tagged_bytes h ++ rest) ≡ h
unfolding rdmap_tagged_packet tagged_bytes
tagged_roundtrip h rest s o = ground (arith, join_32 h.head.sink_stag s, join_64 h.offset o)

-- A READ request header that is written is read back, whatever follows it, if its numbers fit their
-- fields.
readreq_roundtrip :
    (h : ReadRequest) (rest : Bytes)
    → Fits h.untagged
    → h.sink_offset < 2 ^ 64
    → h.read_msg_size < 2 ^ 32
    → h.source_stag < 2 ^ 32
    → h.source_offset < 2 ^ 64
    → rdmap_readreq_packet (readreq_bytes h ++ rest) ≡ h
unfolding rdmap_readreq_packet readreq_bytes
readreq_roundtrip h rest f a b c d = ground (
  arith,
  join_32 h.untagged.head.sink_stag f.stag,
  join_32 h.untagged.qn f.qn,
  join_32 h.untagged.msn f.msn,
  join_32 h.untagged.mo f.mo,
  join_64 h.sink_offset a,
  join_32 h.read_msg_size b,
  join_32 h.source_stag c,
  join_64 h.source_offset d,
)

-- A TERMINATE header that is written is read back, whatever follows it, if its numbers fit their
-- fields.
pub terminate_roundtrip :
    (h : Terminate) (rest : Bytes)
    → Fits h.untagged
    → h.error_code < 2 ^ 16
    → rdmap_terminate_packet (terminate_bytes h ++ rest) ≡ h
unfolding rdmap_terminate_packet terminate_bytes
terminate_roundtrip h rest f e = ground (
  arith,
  join_32 h.untagged.head.sink_stag f.stag,
  join_32 h.untagged.qn f.qn,
  join_32 h.untagged.msn f.msn,
  join_32 h.untagged.mo f.mo,
  join_16 h.error_code e,
)
