-- ===== src/Verbs/PostSendOutcome.antt =====
-- src/liburdma/verbs.c: usiw_post_send on every path.
use mathlib.Core.Path.{subst}
use urdma.Prelude.{
  ℕ, refl, ap, ◌∙◌, inl, inr, List, [], ◌∷◌, ltb, ltb→lt, ltb→le, arith, ◌≤◌, length, Bool-cases,
  List-cases,
}
use urdma.Host.{Host, Laws, uncons}
use urdma.Qp.{Qp, SendWqe}
use urdma.Completion.Owned.{Owned, SendOwned}
use urdma.Verbs.Requests.{plus, SendWr, refused}
use urdma.Verbs.Send.{
  Prepared, ready, put_back, kept, qp_get_next_send_wqe, sge_limit, is_closed, post_send_loop,
  usiw_post_send, queue_send, free_unused_wqe, store_send, send_entry,
}
use urdma.Verbs.PostSend.{Fills, filled, not_known, bad_sink, too_much_inline, inline_read}
use urdma.Verbs.PostSendFill.{prepare-Fills}
use urdma.Verbs.PostSendOrder.{
  most_sges, is_closed-IsShut, not_closed-IsShut, sge_limit-most, SendQueued, too_many_sges,
  no_entry, unknown_opcode, unwritable_sink, inline_too_long, read_inline, Served, all_queued,
  stopped, SendOutcome, nothing_posted, closed, serves, AllSmall,
}
use urdma.Verbs.PostSendQueue.{
  SendQueued-none, Served-cons, taken, queue_send-SendQueued, put_back-SendQueued, kept-SendQueued,
}

-- A request that is queued goes on with the others; else the call ends.
prepared-Served :
    (h : Host) (lost : List ℕ) (q : Qp) (wr : SendWr) (wrs : List SendWr) (i : ℕ) (free : List ℕ)
    (p : Prepared)
    → Laws h
    → SendOwned lost q.sq
    → Owned lost q.sq.max_wr q.sq.ring (i ∷ free) q.sq.active
    → length wr.sg_list ≤ most_sges wr.opcode q.sq.max_sge
    → Fills (taken q free) wr p
    → ((w : SendWqe)
        → SendQueued lost q (wr ∷ []) (queue_send h (taken q free) i w)
        → Served lost
            (queue_send h (taken q free) i w)
            wrs
            (post_send_loop h (queue_send h (taken q free) i w) wrs))
    → Served lost q (wr ∷ wrs) (elim p [
      | kept wqe e ↦ refused (store_send (taken q free) i wqe) (plus e) (wr ∷ wrs)
      | put_back wqe e ↦
          refused (free_unused_wqe h (store_send (taken q free) i wqe) i) (plus e) (wr ∷ wrs)
      | ready wqe ↦ post_send_loop h (queue_send h (taken q free) i (send_entry wqe wr)) wrs
    ])
prepared-Served h lost q wr wrs i free _ laws o o' sges (filled w asked inline_ok) later =
    let first =
      queue_send-SendQueued h lost q wr i free laws o' (send_entry w wr) asked
        (record { sges = sges; inline_ok = inline_ok }) in
    Served-cons wr wrs _ first (later (send_entry w wr) first)
prepared-Served h lost q wr wrs i free _ laws o o' sges (not_known w op) later =
    stopped [] wr wrs q _ _ refl (SendQueued-none lost q o)
      (unknown_opcode _ op (put_back-SendQueued h lost q wr i free laws o' w))
prepared-Served h lost q wr wrs i free _ laws o o' sges (bad_sink w op apart sink) later =
    stopped [] wr wrs q _ _ refl (SendQueued-none lost q o)
      (unwritable_sink _ op apart sink (put_back-SendQueued h lost q wr i free laws o' w))
prepared-Served h lost q wr wrs i free _ laws o o' sges (too_much_inline w asked no_read over)
      later =
    stopped [] wr wrs q _ _ refl (SendQueued-none lost q o)
      (inline_too_long _ i asked no_read over (kept-SendQueued h lost q wr i free laws o' w))
prepared-Served h lost q wr wrs i free _ laws o o' sges (inline_read w asked op) later =
    stopped [] wr wrs q _ _ refl (SendQueued-none lost q o)
      (read_inline _ i asked op (kept-SendQueued h lost q wr i free laws o' w))

post_send_loop-Served :
    (h : Host) (lost : List ℕ) (wrs : List SendWr) (q : Qp)
    → Laws h
    → AllSmall wrs
    → SendOwned lost q.sq
    → Served lost q wrs (post_send_loop h q wrs)
unfolding post_send_loop qp_get_next_send_wqe
post_send_loop-Served h lost [] q laws small o = all_queued q (SendQueued-none lost q o)
post_send_loop-Served h lost (wr ∷ wrs) q laws small o =
    let most = sge_limit-most q wr.opcode in
    elim (Bool-cases (ltb (sge_limit q wr.opcode) (length wr.sg_list))) [
      | inl over ↦
          rw (over, post_send_loop)
            (stopped [] wr wrs q q _ refl (SendQueued-none lost q o)
              (too_many_sges (omega (arith, ltb→lt _ _ over, most))))
      | inr under ↦ elim (List-cases q.sq.free_ring) [
        | inl e ↦
            rw (under, laws.dequeue q.sq.free_ring ∙ ap uncons e, post_send_loop)
              (stopped [] wr wrs q q _ refl (SendQueued-none lost q o) (no_entry e))
        | inr (i, free, e) ↦
            let o' = subst (λ l. Owned lost q.sq.max_wr q.sq.ring l q.sq.active) e o in
            let w = q.sq.storage i in
            rw (under, laws.dequeue q.sq.free_ring ∙ ap uncons e, post_send_loop)
              (prepared-Served h lost q wr wrs i free _ laws o o'
                (omega (arith, ltb→le _ _ under, most)) (prepare-Fills (taken q free) wr w small.0)
                (λ w' first.
                  post_send_loop-Served h lost wrs (queue_send h (taken q free) i w') laws small.1
                    first.owned))
      ]
    ]

-- If every entry of the send queue is free, waits, is active or is lost, and each request has less
-- than 2^32 bytes: usiw_post_send refuses an empty chain, and any chain while the connection is shut
-- down or in error. Else it queues the requests behind those that wait, in order and as they were
-- asked for, each within the limits on buffers and inline data and with the bytes of its buffers
-- as the message, or stops at one that has too many buffers, finds no free entry, has an unknown
-- opcode, reads into memory that may not be written, or asks for inline data that does not fit or
-- for an inline read; then *bad_wr is this request. In the last two cases alone an entry is lost.
pub usiw_post_send-SendOutcome :
    (h : Host) (lost : List ℕ) (q : Qp) (wrs : List SendWr)
    → Laws h
    → AllSmall wrs
    → SendOwned lost q.sq
    → SendOutcome lost q wrs (usiw_post_send h q wrs)
unfolding usiw_post_send
usiw_post_send-SendOutcome h lost q [] laws small o = nothing_posted
usiw_post_send-SendOutcome h lost q (wr ∷ wrs) laws small o =
    elim (Bool-cases (is_closed q.shm.conn_state)) [
      | inl e ↦ rw e (closed wr wrs (is_closed-IsShut q.shm.conn_state e))
      | inr alive ↦ rw alive (
          serves wr wrs _ (not_closed-IsShut q.shm.conn_state alive)
            (post_send_loop-Served h lost (wr ∷ wrs) q laws small o))
    ]
