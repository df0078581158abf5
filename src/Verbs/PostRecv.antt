-- ===== src/Verbs/PostRecv.antt =====
-- src/liburdma/verbs.c: usiw_post_recv against the queue of requests that it promises.
use mathlib.Core.Path.{ap₂, subst}
use mathlib.Core.List.{append_assoc, map-append, append-nil}
use urdma.Prelude.{
  ℕ, ◌+◌, ◌<◌, ◌≡◌, refl, sym, ap, ◌∙◌, inl, inr, List, [], ◌∷◌, ◌++◌, map, ltb, ltb→lt, ltb→le,
  ◌%◌, ◌^◌, ◌≤◌, ◌≢◌, true, false, arith, length, Bool-cases, List-cases,
}
use urdma.Prelude.Distinct.{NotIn, map-update}
use urdma.Prelude.Counts.{times→NotIn}
use urdma.Host.{Host, Laws, uncons}
use urdma.Qp.{Iovec, Qp, ConnState, RecvWqe, RecvQueue, update}
use urdma.Completion.Flush.{enqueue-room}
use urdma.Completion.Owned.{Owned, RecvOwned, wait-Owned, free-times, free-active}
use urdma.Verbs.Requests.{total, plus, Errno, RecvWr, PostResult, accepted, refused}
use urdma.Prelude.Words.{u64}
use urdma.Iov.Copy.{addresses}
use urdma.Verbs.Inline.{size_of, size-cons}
use urdma.Verbs.Recv.{
  qp_get_next_recv_wqe, recv_entry, queue_recv, post_recv_loop, is_error, usiw_post_recv,
}

-- The requests that wait, and those that are active, in order.
abbrev pub waiting : RecvQueue → List RecvWqe
waiting r = map r.storage r.ring

abbrev pub outstanding : RecvQueue → List RecvWqe
outstanding r = map r.storage r.active

-- The entry that a request must have: its number and its buffers, with nothing received yet.
abbrev pub entry_of : RecvWr → RecvWqe
entry_of wr = record {
  wr_context = wr.wr_id;
  msn = 0;
  complete = false;
  total_request_size = size_of wr.sg_list % 2 ^ 64;
  recv_size = 0;
  input_size = 0;
  iov = wr.sg_list;
}

-- No request has more buffers than the queue takes.
abbrev pub AllFit : ℕ → List RecvWr → Type 0
AllFit max_sge [] = Unit
AllFit max_sge (wr ∷ wrs) = (length wr.sg_list ≤ max_sge) × AllFit max_sge wrs

-- The requests `wrs` wait behind those that did, and nothing else is different.
pub record Queued (q : Qp) (wrs : List RecvWr) (q' : Qp) : Type 0 where
  pub owned : RecvOwned q'.rq0
  pub waiting_then : waiting q'.rq0 ≡ waiting q.rq0 ++ map entry_of wrs
  pub outstanding_same : outstanding q'.rq0 ≡ outstanding q.rq0
  pub active : q'.rq0.active ≡ q.rq0.active
  pub used : length q.rq0.free_ring ≡ length q'.rq0.free_ring + length wrs
  pub max_sge : q'.rq0.max_sge ≡ q.rq0.max_sge
  pub fit : AllFit q.rq0.max_sge wrs
  pub rest : q' ≡ record q { rq0 = q'.rq0 }

-- What a call may come to.
pub data Outcome (q : Qp) (wrs : List RecvWr) : PostResult RecvWr → Type 0 where
  all_queued :
      (q' : Qp) → q.shm.conn_state ≢ ConnState.error → Queued q wrs q' → Outcome q wrs (accepted q')
  in_error : q.shm.conn_state ≡ ConnState.error → Outcome q wrs (refused q (plus Errno.einval) wrs)
  too_many_sges :
      (before : List RecvWr) (wr : RecvWr) (bad : List RecvWr) (q' : Qp)
      → q.shm.conn_state ≢ ConnState.error
      → wrs ≡ before ++ wr ∷ bad
      → Queued q before q'
      → q.rq0.max_sge < length wr.sg_list
      → Outcome q wrs (refused q' (plus Errno.einval) (wr ∷ bad))
  no_entry :
      (before : List RecvWr) (wr : RecvWr) (bad : List RecvWr) (q' : Qp)
      → q.shm.conn_state ≢ ConnState.error
      → wrs ≡ before ++ wr ∷ bad
      → Queued q before q'
      → q'.rq0.free_ring ≡ []
      → Outcome q wrs (refused q' (plus Errno.enospc) (wr ∷ bad))

Queued-none : (q : Qp) → RecvOwned q.rq0 → Queued q [] q
Queued-none q o = record {
  owned = o;
  waiting_then = sym (append-nil (waiting q.rq0));
  outstanding_same = refl;
  active = refl;
  used = omega arith;
  max_sge = refl;
  fit = tt;
  rest = refl;
}

total-size_of :
    (acc : ℕ) (vs : List Iovec) → acc < 2 ^ 64 → total acc vs ≡ (acc + size_of vs) % 2 ^ 64
unfolding addresses
total-size_of acc [] p = omega (arith, p)
total-size_of acc (v ∷ vs) p =
    total-size_of (u64 (acc + v.len)) vs (omega arith) ∙ omega (arith, size-cons v vs)

recv_entry-entry_of : (wr : RecvWr) → recv_entry wr.wr_id wr.sg_list ≡ entry_of wr
recv_entry-entry_of wr =
    let w = entry_of wr in
    ap (λ n. record w { total_request_size = n })
      (total-size_of 0 wr.sg_list (omega arith)
        ∙ ap (λ n. n % 2 ^ 64) {x = 0 + size_of wr.sg_list} {y = size_of wr.sg_list} (omega arith))

is_alive : (s : ConnState) → is_error s ≡ false → s ≢ ConnState.error
is_alive s alive e = absurd (ground (arith, alive, ap is_error e))

abbrev with_rq0 : RecvQueue → Qp → Qp
with_rq0 r q = record q { rq0 = r }

Queued-cons :
    {q q1 q2 : Qp} (wr : RecvWr) (wrs : List RecvWr)
    → Queued q (wr ∷ []) q1
    → Queued q1 wrs q2
    → Queued q (wr ∷ wrs) q2
Queued-cons {q} {q1} {q2} wr wrs a b = record {
  owned = b.owned;
  waiting_then =
      b.waiting_then
      ∙ ap (λ l. l ++ map entry_of wrs) a.waiting_then
      ∙ append_assoc (waiting q.rq0) _ _;
  outstanding_same = b.outstanding_same ∙ a.outstanding_same;
  active = b.active ∙ a.active;
  used = omega (arith, a.used, b.used);
  max_sge = b.max_sge ∙ a.max_sge;
  fit = (a.fit.0, subst (λ n. AllFit n wrs) a.max_sge b.fit);
  rest = b.rest ∙ ap (with_rq0 q2.rq0) a.rest;
}

Outcome-cons :
    {q q1 : Qp} (wr : RecvWr) (wrs : List RecvWr) (r : PostResult RecvWr)
    → is_error q.shm.conn_state ≡ false
    → Queued q (wr ∷ []) q1
    → Outcome q1 wrs r
    → Outcome q (wr ∷ wrs) r
Outcome-cons {q} wr wrs _ alive a (all_queued q' _ b) =
    all_queued q' (is_alive q.shm.conn_state alive) (Queued-cons wr wrs a b)
Outcome-cons {q} {q1} wr wrs _ alive a (in_error e) =
    let same : q1.shm.conn_state ≡ q.shm.conn_state = ap (λ p. p.shm.conn_state) a.rest in
    absurd (is_alive q.shm.conn_state alive (sym same ∙ e))
Outcome-cons {q} wr wrs _ alive a (too_many_sges before w bad q' _ e b over) =
    too_many_sges (wr ∷ before) w bad q' (is_alive q.shm.conn_state alive) (ap (λ l. wr ∷ l) e)
      (Queued-cons wr before a b) (subst (λ m. m < length w.sg_list) a.max_sge over)
Outcome-cons {q} wr wrs _ alive a (no_entry before w bad q' _ e b none_left) =
    no_entry (wr ∷ before) w bad q' (is_alive q.shm.conn_state alive) (ap (λ l. wr ∷ l) e)
      (Queued-cons wr before a b) none_left

map-update_here :
    (f : ℕ → RecvWqe) (i : ℕ) (w : RecvWqe) (ring : List ℕ)
    → NotIn i ring
    → map (update f i w) (ring ++ i ∷ []) ≡ map f ring ++ w ∷ []
map-update_here f i w ring out =
    map-append (update f i w) ring (i ∷ [])
    ∙ ap₂ (λ x y. x ++ y ∷ []) (map-update f i w ring out) (ground arith)

-- One request takes the first free entry.
queue_one-Queued :
    (h : Host) (q : Qp) (wr : RecvWr) (i : ℕ) (free : List ℕ)
    → Laws h
    → RecvOwned q.rq0
    → q.rq0.free_ring ≡ i ∷ free
    → length wr.sg_list ≤ q.rq0.max_sge
    → Queued q
        (wr ∷ [])
        (queue_recv h (record q { rq0 = record (q.rq0) { free_ring = free } }) i (entry_of wr))
unfolding queue_recv
queue_one-Queued h q wr i free laws o e fits =
    let r = q.rq0 in
    let o' : Owned [] r.max_wr r.ring (i ∷ free) r.active =
      subst (λ l. Owned [] r.max_wr r.ring l r.active) e o in
    let room : length r.ring < r.max_wr = omega (arith, o'.all) in
    let ring = enqueue-room h r.max_wr r.ring i laws room in
    record {
      owned = subst (λ l. Owned [] r.max_wr l free r.active) (sym ring) (wait-Owned i o');
      waiting_then =
          ap (map (update r.storage i (entry_of wr))) ring
          ∙ map-update_here r.storage i (entry_of wr) r.ring
              (times→NotIn i r.ring (free-times i o'));
      outstanding_same =
          map-update r.storage i (entry_of wr) r.active (times→NotIn i r.active (free-active i o'));
      active = refl;
      used = omega (arith, ap length e);
      max_sge = refl;
      fit = (fits, tt);
      rest = refl;
    }

post_recv_loop-Outcome :
    (h : Host) (q : Qp) (wrs : List RecvWr)
    → Laws h
    → RecvOwned q.rq0
    → is_error q.shm.conn_state ≡ false
    → Outcome q wrs (post_recv_loop h q wrs)
unfolding post_recv_loop qp_get_next_recv_wqe queue_recv
post_recv_loop-Outcome h q [] laws o alive =
    all_queued q (is_alive q.shm.conn_state alive) (Queued-none q o)
post_recv_loop-Outcome h q (wr ∷ wrs) laws o alive =
    elim (Bool-cases (ltb q.rq0.max_sge (length wr.sg_list))) [
      | inl over ↦
          rw (over, post_recv_loop)
            (too_many_sges [] wr wrs q (is_alive q.shm.conn_state alive) refl (Queued-none q o)
              (ltb→lt _ _ over))
      | inr fits ↦ elim (List-cases q.rq0.free_ring) [
        | inl e ↦
            rw (fits, laws.dequeue q.rq0.free_ring ∙ ap uncons e, post_recv_loop)
              (no_entry [] wr wrs q (is_alive q.shm.conn_state alive) refl (Queued-none q o) e)
        | inr (i, free, e) ↦
            let taken = record q { rq0 = record (q.rq0) { free_ring = free } } in
            let q1 = queue_recv h taken i (recv_entry wr.wr_id wr.sg_list) in
            let first =
              subst (λ w. Queued q (wr ∷ []) (queue_recv h taken i w))
                (sym (recv_entry-entry_of wr))
                (queue_one-Queued h q wr i free laws o e (ltb→le _ _ fits)) in
            rw (fits, laws.dequeue q.rq0.free_ring ∙ ap uncons e, post_recv_loop)
              (Outcome-cons wr wrs _ alive first
                (post_recv_loop-Outcome h q1 wrs laws first.owned alive))
      ]
    ]

error-of : (s : ConnState) → is_error s ≡ true → s ≡ ConnState.error
error-of ConnState.error e = refl
error-of ConnState.unbound e = absurd (ground (arith, e))
error-of ConnState.connected e = absurd (ground (arith, e))
error-of ConnState.running e = absurd (ground (arith, e))
error-of ConnState.shutdown e = absurd (ground (arith, e))

pub usiw_post_recv-Outcome :
    (h : Host) (q : Qp) (wrs : List RecvWr)
    → Laws h
    → RecvOwned q.rq0
    → Outcome q wrs (usiw_post_recv h q wrs)
unfolding usiw_post_recv
usiw_post_recv-Outcome h q wrs laws o = elim (Bool-cases (is_error q.shm.conn_state)) [
  | inl e ↦ rw e (in_error (error-of q.shm.conn_state e))
  | inr alive ↦ rw alive (post_recv_loop-Outcome h q wrs laws o alive)
]
