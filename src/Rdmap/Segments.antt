-- ===== src/Rdmap/Segments.antt =====
-- What one call of send_ddp_segment gives to the transmit queue, and the bytes of a message.
use urdma.Prelude.{
  ℕ, ◌≤◌, ◌≡◌, refl, ◌∙◌, ap, inl, inr, true, Option, List, [], ◌∷◌, ◌++◌, map, arith,
  if◌then◌else◌, take, drop, Bool-cases, map-take, map-drop,
}
use mathlib.Core.List.{map-append}
use urdma.Host.{Host}
use urdma.Proto.{Bytes}
use urdma.Qp.{Qp, SendWqe, Frame}
use urdma.Iov.Copy.{addresses, memcpy_from_iov_lem}
use urdma.Udp.Flush.{handed}
use urdma.Transmission.{ResendResult, retransmit_max, new_pending, queue_segment, send_ddp_segment}
use urdma.Transmission.Resend.{Sent, Outcome, resend_ddp_segment-limit}
use urdma.Rdmap.{payload_at}

-- The bytes that a request sends.
abbrev pub message : Qp → SendWqe → Bytes
message q w = if w.is_inline then w.inline_data else map q.memory (addresses w.iov)

pub payload_at-message :
    (q : Qp) (w : SendWqe) (len : ℕ)
    → payload_at q w len ≡ take len (drop w.bytes_sent (message q w))
unfolding payload_at
payload_at-message q w len = elim (Bool-cases w.is_inline) [
  | inl e ↦ rw e refl
  | inr e ↦ rw e (
      memcpy_from_iov_lem q.memory len w.iov w.bytes_sent
      ∙ map-take q.memory len (drop w.bytes_sent (addresses w.iov))
      ∙ ap (take len) (map-drop q.memory w.bytes_sent (addresses w.iov)))
]

-- The segments given to the transmit queue so far.
abbrev pub segments : Qp → List Bytes
segments q = map (λ (f : Frame). f.segment) (handed q.tx)

Outcome-Sent :
    (h : Host) (q : Qp) (mbuf : ℕ) (r : Qp × ResendResult)
    → Outcome h q mbuf r
    → h.hdr_alloc q.allocs ≡ true
    → (q.mbufs mbuf).transmit_count ≤ retransmit_max
    → Sent q mbuf r.0
Outcome-Sent h q mbuf r (Outcome.exhausted over same) alloc count = absurd (omega arith)
Outcome-Sent h q mbuf r (Outcome.no_memory under no_mbuf same) alloc count = absurd (ground arith)
Outcome-Sent h q mbuf r (Outcome.sent under some_mbuf s) alloc count = s

segments-Sent :
    (q q' : Qp) (mbuf : ℕ)
    → Sent q mbuf q'
    → segments q' ≡ segments q ++ (q.mbufs mbuf).segment ∷ []
segments-Sent q q' mbuf s =
    ap (map (λ (f : Frame). f.segment)) s.added
    ∙ map-append (λ (f : Frame). f.segment) (handed q.tx) (s.frame ∷ [])
    ∙ ap (λ x. segments q ++ x ∷ []) s.segment

pub send_ddp_segment-segments :
    (h : Host) (q : Qp) (segment : Bytes) (readresp wqe : Option ℕ) (len : ℕ)
    → ((call : ℕ) → h.hdr_alloc call ≡ true)
    → segments (send_ddp_segment h q segment readresp wqe len) ≡ segments q ++ segment ∷ []
unfolding send_ddp_segment queue_segment new_pending
send_ddp_segment-segments h q segment readresp wqe len alloc =
    let mbuf = h.ddp_alloc q.ddp_allocs in
    let q1 = queue_segment h q segment readresp wqe len in
    let count : (q1.mbufs mbuf).transmit_count ≡ 0 = ground arith in
    let bytes : (q1.mbufs mbuf).segment ≡ segment = ground arith in
    let outcome = (resend_ddp_segment-limit h q1 mbuf (omega arith)).1 in
    segments-Sent q1 _ mbuf (Outcome-Sent h q1 mbuf _ outcome (alloc _) (omega arith))
    ∙ ap (λ x. segments q ++ x ∷ []) bytes
