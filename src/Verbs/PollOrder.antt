-- ===== src/Verbs/PollOrder.antt =====
-- src/liburdma/verbs.c: usiw_poll_cq and usiw_req_notify_cq against the sequence of completions
-- that a completion queue holds.
use urdma.Prelude.{
  ℕ, ◌+◌, ◌-◌, ◌≤◌, ◌≡◌, refl, sym, ap, List, ◌++◌, map, arith, length, length-append, length-take,
  take, drop, length-take-drop, take_all, map-take, map-drop,
}
use mathlib.Core.Path.{subst}
use urdma.Prelude.Counts.{times-append, times-take-drop, times→Distinct, Distinct→times}
use urdma.Host.{Host, Laws}
use urdma.Qp.{Completion, CompletionQueue}
use urdma.Completion.Flush.{posted, IsValidCq}
use urdma.Verbs.Poll.{IbvWc, convert_cqe, do_poll_cq, convert_cqes, usiw_poll_cq}

-- The work completion that the user is to get for a completion.
abbrev pub reported : Completion → IbvWc
reported c = record {
  wr_id = c.wr_context;
  status = c.status;
  opcode = c.opcode;
  byte_len = c.byte_len;
  qp_num = c.qp_num;
  wc_flags = 0;
}

-- What one call returns, and the queue after it.
pub record Polled (cq : CompletionQueue) (n : ℕ) (out : List IbvWc) (cq' : CompletionQueue)
    : Type 0 where
  pub first : out ≡ map reported (take n (posted cq))
  pub left : posted cq' ≡ drop n (posted cq)
  pub valid : IsValidCq cq'
  pub entries :
      length cq'.cqe_ring + length cq'.free_ring ≡ length cq.cqe_ring + length cq.free_ring
  pub notify : cq'.notify_flag ≡ cq.notify_flag

abbrev polled_queue : CompletionQueue → ℕ → CompletionQueue
polled_queue cq n = record cq {
  cqe_ring = drop n cq.cqe_ring;
  free_ring = cq.free_ring ++ take n cq.cqe_ring;
}

polled_queue-IsValidCq :
    (cq : CompletionQueue) (n : ℕ) → IsValidCq cq → IsValidCq (polled_queue cq n)
polled_queue-IsValidCq cq n v = record {
  distinct = times→Distinct _ (λ i. omega (
    arith,
    Distinct→times _ v.distinct i,
    times-append i cq.cqe_ring cq.free_ring,
    times-append i (drop n cq.cqe_ring) (cq.free_ring ++ take n cq.cqe_ring),
    times-append i cq.free_ring (take n cq.cqe_ring),
    times-take-drop i n cq.cqe_ring,
  ));
  room = omega (
    arith,
    v.room,
    length-append cq.free_ring (take n cq.cqe_ring),
    length-take-drop n cq.cqe_ring,
  );
}

do_poll_cq-result :
    (h : Host) (cq : CompletionQueue) (n : ℕ)
    → Laws h
    → IsValidCq cq
    → do_poll_cq h cq n ≡ (map cq.storage (take n cq.cqe_ring), polled_queue cq n)
unfolding do_poll_cq
do_poll_cq-result h cq n laws v =
    let count = take n cq.cqe_ring in
    let fits : length count ≤ cq.capacity - length cq.free_ring =
      omega (arith, v.room, length-take n cq.cqe_ring) in
    rw
      (
        laws.dequeue_burst cq.cqe_ring n,
        laws.enqueue_burst cq.capacity cq.free_ring count,
        take_all (cq.capacity - length cq.free_ring) count fits,
      )
      refl

abbrev converted : List Completion × CompletionQueue → List IbvWc × CompletionQueue
converted p = (map convert_cqe p.0, p.1)

-- If no entry of a completion queue stands twice in its rings and they hold all that is enqueued,
-- usiw_poll_cq returns the n oldest completions, or all if there are fewer, in order, each with the
-- request, status, opcode, length and queue pair that were posted, leaves the
-- others in order, and puts every entry that it read back on the free ring. The queue stays well
-- formed and as armed as it was.
pub usiw_poll_cq-Polled :
    (h : Host) (cq : CompletionQueue) (n : ℕ)
    → Laws h
    → IsValidCq cq
    → Polled cq n (usiw_poll_cq h cq n).0 (usiw_poll_cq h cq n).1
unfolding usiw_poll_cq convert_cqes
usiw_poll_cq-Polled h cq n laws v =
    let e = ap converted (do_poll_cq-result h cq n laws v) in
    subst (λ p. Polled cq n p.0 p.1) (sym e)
      (record {
        first = ap (map convert_cqe) (map-take cq.storage n cq.cqe_ring);
        left = map-drop cq.storage n cq.cqe_ring;
        valid = polled_queue-IsValidCq cq n v;
        entries = omega (
          arith,
          length-append cq.free_ring (take n cq.cqe_ring),
          length-take-drop n cq.cqe_ring,
        );
        notify = refl;
      })
