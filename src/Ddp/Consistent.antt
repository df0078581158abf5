-- ===== src/Ddp/Consistent.antt =====
-- src/liburdma/interface.c: the handlers of received segments keep the entries of the receive
-- queue and of the completion queues accounted for.
use urdma.Prelude.{
  ℕ, zero, suc, ◌+◌, ◌<◌, ◌≡◌, ◌&&◌, ◌∙◌, sym, inl, inr, not, none, some, List, [], ◌∷◌, ltb, ◌==◌,
  length, arith, Option-cases,
}
use urdma.Prelude.Words.{u64}
use urdma.Prelude.Counts.{times, times_self}
use urdma.Serial.{serial_less_32}
use urdma.Host.{Host, Laws, head?}
use urdma.Proto
use urdma.Proto.Headers.{rdmap_untagged_packet}
use urdma.Qp.{Qp, WcStatus}
use urdma.Completion.{recv_lookup, post_recv_cqe}
use urdma.Completion.Consistent.{
  Consistent, if-Consistent, option-Consistent, post_recv_cqe-Consistent,
  dequeue_recv_wqes-Consistent,
}
use urdma.Rdmap.{PacketContext, do_rdmap_terminate}
use urdma.Rdmap.Consistent.{terminate-Consistent}
use urdma.Ddp.Context.{ddp_get_l_of, payload_size}
use urdma.Ddp.Untagged.{post_completed, place_send, receive_send, process_send}

top_times : (l : List ℕ) (i : ℕ) → head? l ≡ some i → 0 < times i l
top_times [] i e = absurd (ground (arith, e))
top_times (j ∷ l) i e = ground (arith, e, times_self i l)

post_completed-Consistent :
    (h : Host) (fuel : ℕ) (q : Qp) → Laws h → Consistent q → Consistent (post_completed h fuel q)
unfolding post_completed
post_completed-Consistent h zero q laws v = v
post_completed-Consistent h (suc fuel) q laws v = elim (Option-cases (h.list_top q.rq0.active)) [
  | inl e ↦ rw (e, post_completed) v
  | inr (i, e) ↦
      let there = top_times q.rq0.active i (sym (laws.top q.rq0.active) ∙ e) in
      rw (e, post_completed)
        (if-Consistent (q.rq0.storage i).complete
          (post_completed-Consistent h fuel (post_recv_cqe h q i WcStatus.success) laws
            (post_recv_cqe-Consistent h q i WcStatus.success laws there v))
          v)
]

place_send-Consistent :
    (q : Qp) (i : ℕ) (orig : PacketContext) (offset len : ℕ)
    → Consistent q
    → Consistent (place_send q i orig offset len)
unfolding place_send
place_send-Consistent q i orig offset len v = record { held = v.held }

receive_send-Consistent :
    (h : Host) (q : Qp) (i : ℕ) (orig : PacketContext)
    → Laws h
    → Consistent q
    → Consistent (receive_send h q i orig)
unfolding receive_send
receive_send-Consistent h q i orig laws v =
    let w = q.rq0.storage i in
    let offset = (rdmap_untagged_packet orig.rdmap).mo in
    let len = payload_size orig Proto.untagged_size in
    let placed = place_send q i orig offset len in
    let kept = place_send-Consistent q i orig offset len v in
    if-Consistent (ltb w.total_request_size (u64 (offset + len)))
      (terminate-Consistent h q orig Proto.ddp_error_untagged_message_too_long v)
      (if-Consistent (ddp_get_l_of orig && not (w.input_size == 0)) v (
        if-Consistent (serial_less_32 orig.psn q.remote_ep.recv_ack_psn)
          (post_completed-Consistent h (length q.rq0.active + 1) placed laws kept) kept))

find_request-Consistent :
    (h : Host) (q : Qp) (orig : PacketContext)
    → Laws h
    → Consistent q
    → Consistent
        (elim (recv_lookup q.rq0.storage q.rq0.active (rdmap_untagged_packet orig.rdmap).msn) [
          | some i ↦ receive_send h q i orig
          | none ↦ elim (h.list_top q.rq0.active) [
            | some _ ↦ do_rdmap_terminate h q orig Proto.ddp_error_untagged_invalid_msn
            | none ↦ do_rdmap_terminate h q orig Proto.ddp_error_untagged_no_buffer
          ]
        ])
find_request-Consistent h q orig laws v =
    option-Consistent _
      (option-Consistent (h.list_top q.rq0.active)
        (terminate-Consistent h q orig Proto.ddp_error_untagged_no_buffer v)
        (λ _. terminate-Consistent h q orig Proto.ddp_error_untagged_invalid_msn v))
      (λ i. receive_send-Consistent h q i orig laws v)

pub process_send-Consistent :
    (h : Host) (q : Qp) (orig : PacketContext)
    → Laws h
    → Consistent q
    → Consistent (process_send h q orig)
unfolding process_send
process_send-Consistent h q orig laws v =
    find_request-Consistent h _ orig laws
      (option-Consistent (h.list_top q.rq0.active) (dequeue_recv_wqes-Consistent h q laws v) λ _. v)
