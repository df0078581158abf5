-- ===== src/Transmission/Resend.antt =====
-- src/liburdma/interface.c, resend_ddp_segment: how often a segment is transmitted.
use urdma.Prelude.{
  ℕ, ◌+◌, ◌≤◌, ◌^◌, Bool-cases, inl, inr, ◌<◌, ◌≡◌, refl, true, false, [], ◌∷◌, ◌++◌, arith, ltb,
}
use urdma.Host.{Host}
use urdma.Proto.Headers.{TrpHeader}
use urdma.Qp.{Qp, Frame}
use urdma.Udp.{dgram_frame, send_udp_dgram}
use urdma.Udp.Flush.{handed, send_udp_dgram-handed}
use urdma.Transmission.{ResendResult, retransmit_max, resend_ddp_segment}

-- `q'` has given the transmit queue one frame more than `q`, with the segment of the mbuf, its
-- sequence number and the acknowledgement of what was received.
pub record Sent (q : Qp) (mbuf : ℕ) (q' : Qp) : Type 0 where
  pub frame : Frame
  pub added : handed q'.tx ≡ handed q.tx ++ frame ∷ []
  pub segment : frame.segment ≡ (q.mbufs mbuf).segment
  pub psn : frame.trp.psn ≡ (q.mbufs mbuf).psn
  pub ack_psn : frame.trp.ack_psn ≡ q.remote_ep.recv_ack_psn

-- What a call does, by how often the segment was transmitted and whether an mbuf is there.
pub data Outcome (h : Host) (q : Qp) (mbuf : ℕ) : Qp × ResendResult → Type 0 where
  exhausted :
      {q' : Qp}
      → retransmit_max < (q.mbufs mbuf).transmit_count
      → handed q'.tx ≡ handed q.tx
      → Outcome h q mbuf (q', ResendResult.eio)
  no_memory :
      {q' : Qp}
      → (q.mbufs mbuf).transmit_count ≤ retransmit_max
      → h.hdr_alloc q.allocs ≡ false
      → handed q'.tx ≡ handed q.tx
      → Outcome h q mbuf (q', ResendResult.enomem)
  sent :
      {q' : Qp}
      → (q.mbufs mbuf).transmit_count ≤ retransmit_max
      → h.hdr_alloc q.allocs ≡ true
      → Sent q mbuf q'
      → Outcome h q mbuf (q', ResendResult.sent)

resend-count :
    (h : Host) (q : Qp) (mbuf : ℕ)
    → (q.mbufs mbuf).transmit_count + 1 < 2 ^ 16
    → ((resend_ddp_segment h q mbuf).0.mbufs mbuf).transmit_count
      ≡ (q.mbufs mbuf).transmit_count + 1
unfolding resend_ddp_segment send_udp_dgram
resend-count h q mbuf small = elim (Bool-cases (ltb retransmit_max (q.mbufs mbuf).transmit_count)) [
  | inl over ↦ rw over (ground arith)
  | inr under ↦ rw under (elim (Bool-cases (h.hdr_alloc q.allocs)) [
    | inl some_mbuf ↦ rw some_mbuf (ground arith)
    | inr no_mbuf ↦ rw no_mbuf (ground arith)
  ])
]

Sent-frame :
    (h : Host) (q q0 : Qp) (mbuf cksum : ℕ) (trp : TrpHeader)
    → q0.tx ≡ q.tx
    → trp.psn ≡ (q.mbufs mbuf).psn
    → trp.ack_psn ≡ q.remote_ep.recv_ack_psn
    → Sent q mbuf (send_udp_dgram h q0 trp (q.mbufs mbuf).segment cksum)
unfolding dgram_frame
Sent-frame h q q0 mbuf cksum trp e p a = record {
  frame = dgram_frame h q0 trp (q.mbufs mbuf).segment cksum;
  added = rw (← e) (send_udp_dgram-handed h q0 trp (q.mbufs mbuf).segment cksum);
  segment = refl;
  psn = p;
  ack_psn = a;
}

-- resend_ddp_segment counts each call. The first six calls for a segment, of which the first is
-- its transmission by send_ddp_segment, give one frame with it to the transmit queue, as long as
-- a header mbuf can be allocated. Later calls fail with -EIO, and without an mbuf a call fails
-- with -ENOMEM; then no frame is sent.
pub resend_ddp_segment-limit :
    (h : Host) (q : Qp) (mbuf : ℕ)
    → (q.mbufs mbuf).transmit_count + 1 < 2 ^ 16
    → (((resend_ddp_segment h q mbuf).0.mbufs mbuf).transmit_count
        ≡ (q.mbufs mbuf).transmit_count + 1)
      × Outcome h q mbuf (resend_ddp_segment h q mbuf)
unfolding resend_ddp_segment
resend_ddp_segment-limit h q mbuf small = (resend-count h q mbuf small, outcome)
  where
    outcome : Outcome h q mbuf (resend_ddp_segment h q mbuf)
    outcome = elim (Bool-cases (ltb retransmit_max (q.mbufs mbuf).transmit_count)) [
      | inl over ↦ rw over (Outcome.exhausted (ground arith) refl)
      | inr under ↦ rw under (elim (Bool-cases (h.hdr_alloc q.allocs)) [
        | inl some_mbuf ↦
            rw some_mbuf
              (Outcome.sent (ground arith) some_mbuf (Sent-frame h q _ mbuf _ _ refl refl refl))
        | inr no_mbuf ↦ rw no_mbuf (Outcome.no_memory (ground arith) no_mbuf refl)
      ])
    ]
