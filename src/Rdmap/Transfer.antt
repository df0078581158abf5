-- ===== src/Rdmap/Transfer.antt =====
-- src/liburdma/interface.c: what do_rdmap_send and do_rdmap_write transmit.
use urdma.Prelude.{
  ℕ, ◌+◌, ◌-◌, ◌%◌, ◌^◌, leb, ◌≤◌, ◌<◌, ◌≡◌, refl, ◌∙◌, ap, inl, inr, true, false, ◌&&◌, List, ◌++◌,
  arith, ltb, ◌==◌, if◌then◌else◌, Bool-cases,
}
use urdma.Host.{Host}
use urdma.Proto.{Bytes}
use urdma.Proto.Headers.{Tagged, Untagged, untagged_bytes, tagged_bytes}
use urdma.Qp.{Qp, SendWqe, SendState}
use urdma.Rdmap.{
  has_credit, send_header, write_header, send_loop, mark_sent, bytes_left, do_rdmap_send,
  do_rdmap_write,
}
use urdma.Rdmap.Segments.{message, segments}
use urdma.Rdmap.Rounds.{Cut, sent_to, loop-Stopped}

-- What a call makes of the request at `i`: it sends the bytes up to `to`, cut into segments, and
-- the request waits for acknowledgements when all are sent; else the credits are used up.
pub record Transferred (q : Qp) (i : ℕ) (header : SendWqe → ℕ → Bytes) (q' : Qp) : Type 0 where
  pub to : ℕ
  pub segs : List Bytes
  pub cut :
      Cut
        (λ from. header (sent_to (q.sq.storage i) from) q.shm.mtu)
        q.shm.mtu
        (q.sq.storage i).total_length
        (message q (q.sq.storage i))
        (q.sq.storage i).bytes_sent
        to
        segs
  pub added : segments q' ≡ segments q ++ segs
  pub within : to ≤ (q.sq.storage i).total_length
  pub entry : q'.sq.storage i ≡ (
      let w = sent_to (q.sq.storage i) to in
      if to == (q.sq.storage i).total_length then record w { state = SendState.wait } else w)
  pub stop : (ltb to (q.sq.storage i).total_length && has_credit q') ≡ false

mark_sent-keeps :
    (q : Qp) (i : ℕ)
    → (segments (mark_sent q i) ≡ segments q) × (has_credit (mark_sent q i) ≡ has_credit q)
unfolding mark_sent
mark_sent-keeps q i =
    elim (Bool-cases ((q.sq.storage i).bytes_sent == (q.sq.storage i).total_length)) [
      | inl e ↦ rw e (refl, refl)
      | inr e ↦ rw e (refl, refl)
    ]

mark_sent-entry :
    (q : Qp) (i : ℕ)
    → (mark_sent q i).sq.storage i ≡ (
        let w = q.sq.storage i in
        if w.bytes_sent == w.total_length then record w { state = SendState.wait } else w)
unfolding mark_sent
mark_sent-entry q i =
    elim (Bool-cases ((q.sq.storage i).bytes_sent == (q.sq.storage i).total_length)) [
      | inl e ↦ rw e (ground arith)
      | inr e ↦ rw e refl
    ]

loop-Transferred :
    (h : Host) (q : Qp) (i : ℕ) (header : SendWqe → ℕ → Bytes)
    → ((call : ℕ) → h.hdr_alloc call ≡ true)
    → 0 < q.shm.mtu
    → (q.sq.storage i).bytes_sent ≤ (q.sq.storage i).total_length
    → Transferred q i header (mark_sent (send_loop h (bytes_left q i) q i header) i)
loop-Transferred h q i header alloc pos le =
    let w = q.sq.storage i in
    let q1 = send_loop h (bytes_left q i) q i header in
    let s =
      loop-Stopped h alloc i header w q.shm.mtu (message q w) (bytes_left q i) q w.bytes_sent pos
        (record { entry = refl; mtu_of = refl; bytes_of = refl }) le (omega arith) in
    let kept = mark_sent-keeps q1 i in
    record {
      to = s.to;
      segs = s.segs;
      cut = s.cut;
      added = kept.0 ∙ s.added;
      within = s.within;
      entry =
          mark_sent-entry q1 i
          ∙ ap
              (λ x.
                if x.bytes_sent == x.total_length then record x { state = SendState.wait } else x)
              s.at.entry;
      stop = ap (λ x. ltb s.to w.total_length && x) kept.1 ∙ s.stop;
    }

-- The header that the segment of a SEND from the byte bytes_sent on must have: the L flag on the
-- last segment, the number of the message, and the offset of the segment's bytes.
abbrev pub send_header_at : SendWqe → ℕ → Untagged
send_header_at w mtu = record {
  head = record {
    ddp_flags = if leb (w.total_length - w.bytes_sent) mtu then 0x41 else 0x01;
    rdmap_info = 0x43;
    sink_stag = 0;
  };
  qn = 0;
  msn = w.msn;
  mo = w.bytes_sent % 2 ^ 32;
}

-- The same for an RDMA WRITE: the key, and the remote address of the segment's bytes.
abbrev pub write_header_at : SendWqe → ℕ → Tagged
write_header_at w mtu = record {
  head = record {
    ddp_flags = if leb (w.total_length - w.bytes_sent) mtu then 0xc1 else 0x81;
    rdmap_info = 0x40;
    sink_stag = w.rkey;
  };
  offset = (w.remote_addr + w.bytes_sent) % 2 ^ 64;
}

-- Let every header mbuf be there and the MTU not be 0. Then do_rdmap_send gives the transmit queue
-- the next bytes of the message in order and without gaps, as untagged segments of at most the
-- MTU, each under a header with the request's number, the offset of its bytes and, on the last
-- one alone, the L flag; it stops when all bytes are sent, and then the request waits for
-- acknowledgements, or when the credits are used up.
pub do_rdmap_send-Transferred :
    (h : Host) (q : Qp) (i : ℕ)
    → ((call : ℕ) → h.hdr_alloc call ≡ true)
    → 0 < q.shm.mtu
    → (q.sq.storage i).bytes_sent ≤ (q.sq.storage i).total_length
    → Transferred q i (λ w mtu. untagged_bytes (send_header_at w mtu)) (do_rdmap_send h q i)
unfolding do_rdmap_send send_header
do_rdmap_send-Transferred h q i alloc pos le = loop-Transferred h q i _ alloc pos le

-- Let every header mbuf be there and the MTU not be 0. Then do_rdmap_write gives the transmit queue
-- the next bytes of the message in order and without gaps, as tagged segments of at most the MTU,
-- each under a header with the request's key, the remote address of its bytes and, on the last one
-- alone, the L flag; it stops when all bytes are sent, and then the request waits for
-- acknowledgements, or when the credits are used up.
pub do_rdmap_write-Transferred :
    (h : Host) (q : Qp) (i : ℕ)
    → ((call : ℕ) → h.hdr_alloc call ≡ true)
    → 0 < q.shm.mtu
    → (q.sq.storage i).bytes_sent ≤ (q.sq.storage i).total_length
    → Transferred q i (λ w mtu. tagged_bytes (write_header_at w mtu)) (do_rdmap_write h q i)
unfolding do_rdmap_write write_header
do_rdmap_write-Transferred h q i alloc pos le = loop-Transferred h q i _ alloc pos le
