-- ===== src/Ddp/Buffers.antt =====
-- src/liburdma/interface.c, process_send: what an untagged segment can write.
use urdma.Prelude.{
  ℕ, zero, suc, ◌+◌, ◌≡◌, refl, ◌∙◌, ap, inl, inr, not, ◌&&◌, List, [], ◌∷◌, ltb, ◌==◌, length,
  drop, Bool-cases, Option-cases,
}
use urdma.Prelude.Words.{u64}
use urdma.Prelude.Distinct.{NotIn}
use urdma.Host.{Host}
use urdma.Serial.{serial_less_32}
use urdma.Proto
use urdma.Proto.{Bytes}
use urdma.Proto.Headers.{rdmap_untagged_packet}
use urdma.Qp.{Qp, WcStatus, update}
use urdma.Iov.{Memory}
use urdma.Iov.Copy.{addresses, scatter}
use urdma.Iov.Scatter.{memcpy_to_iov_lem}
use urdma.Completion.{post_recv_cqe}
use urdma.Rdmap.{PacketContext, bytes_of}
use urdma.Ddp.Context.{payload_size, ddp_get_l_of}
use urdma.Ddp.Confined.{terminate-memory}
use urdma.Ddp.Untagged.{post_completed, place_send, receive_send}

scatter-outside :
    (m : Memory) (xs : List ℕ) (bs : Bytes) (a : ℕ) → NotIn a xs → scatter m xs bs a ≡ m a
unfolding scatter
scatter-outside m [] bs a out = refl
scatter-outside m (x ∷ xs) [] a out = refl
scatter-outside m (x ∷ xs) (b ∷ bs) a out =
    scatter-outside (update m x b) xs bs a out.1 ∙ rw out.0 refl

NotIn-drop : (a n : ℕ) (xs : List ℕ) → NotIn a xs → NotIn a (drop n xs)
NotIn-drop a zero xs out = out
NotIn-drop a (suc n) [] out = out
NotIn-drop a (suc n) (x ∷ xs) out = NotIn-drop a n xs out.1

post_recv_cqe-memory :
    (h : Host) (q : Qp) (i : ℕ) (status : WcStatus) → (post_recv_cqe h q i status).memory ≡ q.memory
unfolding post_recv_cqe
post_recv_cqe-memory h q i status =
    elim (Option-cases (h.ring_dequeue (q.cqs q.recv_cq).free_ring)) [
      | inl e ↦ rw (e, post_recv_cqe) refl
      | inr (c, e) ↦ rw (e, post_recv_cqe) refl
    ]

post_completed-memory : (h : Host) (fuel : ℕ) (q : Qp) → (post_completed h fuel q).memory ≡ q.memory
unfolding post_completed
post_completed-memory h zero q = refl
post_completed-memory h (suc fuel) q = elim (Option-cases (h.list_top q.rq0.active)) [
  | inl e ↦ rw (e, post_completed) refl
  | inr (i, e) ↦
      rw (e, post_completed)
        (elim (Bool-cases (q.rq0.storage i).complete) [
          | inl done ↦ rw done (
              post_completed-memory h fuel (post_recv_cqe h q i WcStatus.success)
              ∙ post_recv_cqe-memory h q i WcStatus.success)
          | inr more ↦ rw more refl
        ])
]

place_send-outside :
    (q : Qp) (i : ℕ) (orig : PacketContext) (offset len a : ℕ)
    → NotIn a (addresses (q.rq0.storage i).iov)
    → (place_send q i orig offset len).memory a ≡ q.memory a
unfolding place_send
place_send-outside q i orig offset len a out =
    let iov = (q.rq0.storage i).iov in
    let payload = bytes_of len (drop Proto.untagged_size orig.rdmap) in
    ap (λ m. m a) (memcpy_to_iov_lem q.memory iov payload offset)
    ∙ scatter-outside q.memory (drop offset (addresses iov)) payload a
        (NotIn-drop a offset (addresses iov) out)

-- A segment of a SEND that belongs to the receive request `i` changes no byte outside the buffers
-- of this request, whatever its offset and length are.
pub receive_send-confined :
    (h : Host) (q : Qp) (i : ℕ) (orig : PacketContext) (a : ℕ)
    → NotIn a (addresses (q.rq0.storage i).iov)
    → (receive_send h q i orig).memory a ≡ q.memory a
unfolding receive_send
receive_send-confined h q i orig a out =
    let w = q.rq0.storage i in
    let offset = (rdmap_untagged_packet orig.rdmap).mo in
    let len = payload_size orig Proto.untagged_size in
    let placed = place_send q i orig offset len in
    let kept = place_send-outside q i orig offset len a out in
    elim (Bool-cases (ltb w.total_request_size (u64 (offset + len)))) [
      | inl long ↦
          rw long
            (ap (λ m. m a) (terminate-memory h q orig Proto.ddp_error_untagged_message_too_long))
      | inr fits ↦ rw fits (elim (Bool-cases (ddp_get_l_of orig && not (w.input_size == 0))) [
        | inl again ↦ rw again refl
        | inr first ↦
            rw first (elim (Bool-cases (serial_less_32 orig.psn q.remote_ep.recv_ack_psn)) [
              | inl whole ↦
                  rw whole (
                    ap (λ m. m a) (post_completed-memory h (length q.rq0.active + 1) placed) ∙ kept)
              | inr holes ↦ rw holes kept
            ])
      ])
    ]
