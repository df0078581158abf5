-- ===== src/Completion/FlushRecv.antt =====
-- src/liburdma/interface.c: rq_flush on the requests that are active and that wait.
use urdma.Prelude.{
  ℕ, zero, suc, ◌+◌, ◌%◌, ◌^◌, ◌≤◌, ◌<◌, ◌≡◌, refl, sym, ◌∙◌, ap, none, some, List, [], ◌∷◌, ◌++◌,
  map, arith, length, length-append,
}
use mathlib.Core.Path.{ap₂, fun_ext}
use mathlib.Core.List.{append_assoc, append-nil}
use urdma.Host.{Host, Laws, erase, uncons}
use urdma.Qp.{Qp, RecvWqe, RecvQueue, Completion, WcStatus, WcOpcode}
use urdma.Completion.{
  post_entry, finish_post_cqe, qp_free_recv_wqe, post_recv_cqe, post_recv_all, activate_recv,
  take_recv, rq_flush,
}
use urdma.Completion.Flush.{posted, IsValidCq, Posted, post_entry-Posted}

-- The completion that reports a receive request with a status. It has 32 bits for the length.
abbrev pub recv_wc : ℕ → (ℕ → RecvWqe) → WcStatus → ℕ → Completion
recv_wc qp_num storage status i = record {
  wr_context = (storage i).wr_context;
  status = status;
  opcode = WcOpcode.wc_recv;
  byte_len = (storage i).input_size % 2 ^ 32;
  qp_num = qp_num;
}

erase_head : (i : ℕ) (l : List ℕ) → erase (i ∷ l) i ≡ l
erase_head i l = ground arith

-- One completion of the oldest active request.
pub record Step (q : Qp) (i : ℕ) (l : List ℕ) (status : WcStatus) (q' : Qp) : Type 0 where
  pub active : q'.rq0.active ≡ l
  pub ring : q'.rq0.ring ≡ q.rq0.ring
  pub storage : q'.rq0.storage ≡ q.rq0.storage
  pub cq : q'.recv_cq ≡ q.recv_cq
  pub num : q'.qp_num ≡ q.qp_num
  pub posted_one :
      Posted (q.cqs q.recv_cq) (recv_wc q.qp_num q.rq0.storage status i) (q'.cqs q.recv_cq)

finish-cq :
    (h : Host) (q : Qp) (id c : ℕ) (wc : Completion) (free : List ℕ)
    → (finish_post_cqe h q id c wc free).cqs id ≡ post_entry h (q.cqs id) c wc free
unfolding finish_post_cqe
finish-cq h q id c wc free = ground arith

-- With a free entry, the call is the path of post_recv_cqe that posts.
post_recv_cqe-free :
    (h : Host) (q : Qp) (i c : ℕ) (free : List ℕ) (status : WcStatus)
    → h.ring_dequeue (q.cqs q.recv_cq).free_ring ≡ some (c, free)
    → post_recv_cqe h q i status
      ≡ finish_post_cqe h
          (qp_free_recv_wqe h q i)
          q.recv_cq
          c
          (recv_wc q.qp_num q.rq0.storage status i)
          free
unfolding post_recv_cqe
post_recv_cqe-free h q i c free status e = rw (e, post_recv_cqe)

freed-Step :
    (h : Host) (q : Qp) (i c : ℕ) (l free : List ℕ) (status : WcStatus)
    → Laws h
    → IsValidCq (q.cqs q.recv_cq)
    → q.rq0.active ≡ i ∷ l
    → (q.cqs q.recv_cq).free_ring ≡ c ∷ free
    → Step q i l status (
        finish_post_cqe h
          (qp_free_recv_wqe h q i)
          q.recv_cq
          c
          (recv_wc q.qp_num q.rq0.storage status i)
          free)
unfolding finish_post_cqe qp_free_recv_wqe
freed-Step h q i c l free status laws v a e =
    let wc = recv_wc q.qp_num q.rq0.storage status i in
    record {
      active = laws.del q.rq0.active i ∙ ap (λ x. erase x i) a ∙ erase_head i l;
      ring = refl;
      storage = refl;
      cq = refl;
      num = refl;
      posted_one =
          rw (finish-cq h (qp_free_recv_wqe h q i) q.recv_cq c wc free)
            (post_entry-Posted h (q.cqs q.recv_cq) c wc free laws v e);
    }

pub post_recv_cqe-Step :
    (h : Host) (q : Qp) (i c : ℕ) (l free : List ℕ) (status : WcStatus)
    → Laws h
    → IsValidCq (q.cqs q.recv_cq)
    → q.rq0.active ≡ i ∷ l
    → (q.cqs q.recv_cq).free_ring ≡ c ∷ free
    → Step q i l status (post_recv_cqe h q i status)
post_recv_cqe-Step h q i c l free status laws v a e =
    rw (post_recv_cqe-free h q i c free status (laws.dequeue _ ∙ ap uncons e))
      (freed-Step h q i c l free status laws v a e)

nonempty : (n : ℕ) (xs : List ℕ) → n < length xs → (c : ℕ) × (free : List ℕ) × (xs ≡ c ∷ free)
nonempty n [] p = absurd (omega arith)
nonempty n (c ∷ free) p = (c, free, refl)

-- Posting for the whole active list.
record Flushed (q : Qp) (l : List ℕ) (q' : Qp) : Type 0 where
  active : q'.rq0.active ≡ []
  ring : q'.rq0.ring ≡ q.rq0.ring
  all :
      posted (q'.cqs q.recv_cq)
      ≡ posted (q.cqs q.recv_cq) ++ map (recv_wc q.qp_num q.rq0.storage WcStatus.wr_flush_err) l

post_recv_all-Flushed :
    (h : Host) (l : List ℕ) (q : Qp)
    → Laws h
    → IsValidCq (q.cqs q.recv_cq)
    → q.rq0.active ≡ l
    → length l ≤ length (q.cqs q.recv_cq).free_ring
    → Flushed q l (post_recv_all h l q)
unfolding post_recv_all post_recv_cqe
post_recv_all-Flushed h [] q laws v a p = record {
  active = a;
  ring = refl;
  all = sym (append-nil (posted (q.cqs q.recv_cq)));
}
post_recv_all-Flushed h (i ∷ l) q laws v a p =
    let (c, free, e) = nonempty (length l) (q.cqs q.recv_cq).free_ring p in
    let q1 = post_recv_cqe h q i WcStatus.wr_flush_err in
    let s = post_recv_cqe-Step h q i c l free WcStatus.wr_flush_err laws v a e in
    let valid : IsValidCq (q1.cqs q1.recv_cq) = rw s.cq s.posted_one.valid in
    let fits : length l ≤ length (q1.cqs q1.recv_cq).free_ring =
      rw s.cq (omega (arith, s.posted_one.used)) in
    let rest = post_recv_all-Flushed h l q1 laws valid s.active fits in
    let tail = rw (s.cq, s.num, s.storage) at rest.all in
    record {
      active = rest.active;
      ring = rest.ring ∙ s.ring;
      all =
          tail
          ∙ ap (λ x. x ++ map (recv_wc q.qp_num q.rq0.storage WcStatus.wr_flush_err) l)
              s.posted_one.added
          ∙ append_assoc (posted (q.cqs q.recv_cq)) _ _;
    }

-- What taking the waiting requests off the ring makes of the queue.
record Taken (r r' : RecvQueue) : Type 0 where
  ring : r'.ring ≡ []
  active : r'.active ≡ r.active ++ r.ring
  wc : (n : ℕ) (status : WcStatus) → recv_wc n r'.storage status ≡ recv_wc n r.storage status

activate-wc :
    (h : Host) (r : RecvQueue) (i n : ℕ) (status : WcStatus)
    → recv_wc n (activate_recv h r i).storage status ≡ recv_wc n r.storage status
unfolding activate_recv
activate-wc h r i n status = fun_ext λ j. ground arith

take_recv-suc :
    (h : Host) (fuel i : ℕ) (rest : List ℕ) (r : RecvQueue)
    → h.ring_dequeue r.ring ≡ some (i, rest)
    → take_recv h (suc fuel) r ≡ take_recv h fuel (activate_recv h (record r { ring = rest }) i)
unfolding take_recv
take_recv-suc h fuel i rest r e = rw (e, take_recv)

take_recv-none :
    (h : Host) (fuel : ℕ) (r : RecvQueue)
    → h.ring_dequeue r.ring ≡ none
    → take_recv h (suc fuel) r ≡ r
unfolding take_recv
take_recv-none h fuel r e = rw (e, take_recv)

activate-active :
    (h : Host) (r : RecvQueue) (i : ℕ) → Laws h → (activate_recv h r i).active ≡ r.active ++ i ∷ []
unfolding activate_recv
activate-active h r i laws = laws.add_tail r.active i

activate-ring : (h : Host) (r : RecvQueue) (i : ℕ) → (activate_recv h r i).ring ≡ r.ring
unfolding activate_recv
activate-ring h r i = refl

take_recv-Taken :
    (h : Host) (fuel : ℕ) (ring : List ℕ) (r : RecvQueue)
    → Laws h
    → r.ring ≡ ring
    → length ring < fuel
    → Taken r (take_recv h fuel r)
take_recv-Taken h zero ring r laws e p = absurd (omega arith)
take_recv-Taken h (suc fuel) [] r laws e p =
    rw (take_recv-none h fuel r (laws.dequeue r.ring ∙ ap uncons e)) (record {
      ring = e;
      active = sym (append-nil r.active) ∙ ap (λ x. r.active ++ x) (sym e);
      wc = λ n status. refl;
    })
take_recv-Taken h (suc fuel) (i ∷ rest) r laws e p =
    let r1 : RecvQueue = record r { ring = rest } in
    let r2 = activate_recv h r1 i in
    let t = take_recv-Taken h fuel rest r2 laws (activate-ring h r1 i) (omega arith) in
    rw (take_recv-suc h fuel i rest r (laws.dequeue r.ring ∙ ap uncons e)) (record {
      ring = t.ring;
      active =
          t.active
          ∙ ap₂ (λ x y. x ++ y) (activate-active h r1 i laws) (activate-ring h r1 i)
          ∙ append_assoc r.active (i ∷ []) rest
          ∙ ap (λ x. r.active ++ x) (sym e);
      wc = λ n status. t.wc n status ∙ activate-wc h r1 i n status;
    })

-- Let the receive completion queue have a free entry for each request that is active or waits.
-- Then rq_flush leaves no request active or waiting, and posts for each of them, first the
-- active ones and then those on the ring, in order, one completion with a flush error that
-- carries the context, the number of bytes in 32 bits and the queue pair of the request.
pub rq_flush_completes_all :
    (h : Host) (q : Qp)
    → Laws h
    → IsValidCq (q.cqs q.recv_cq)
    → length q.rq0.active + length q.rq0.ring ≤ length (q.cqs q.recv_cq).free_ring
    → ((rq_flush h q).rq0.active ≡ [])
      × ((rq_flush h q).rq0.ring ≡ [])
      × (posted ((rq_flush h q).cqs q.recv_cq)
          ≡ posted (q.cqs q.recv_cq)
            ++ map
                (recv_wc q.qp_num q.rq0.storage WcStatus.wr_flush_err)
                (q.rq0.active ++ q.rq0.ring))
unfolding rq_flush
rq_flush_completes_all h q laws v room =
    let taken = take_recv h (length q.rq0.ring + 1) q.rq0 in
    let t = take_recv-Taken h (length q.rq0.ring + 1) q.rq0.ring q.rq0 laws refl (omega arith) in
    let q1 : Qp = record q { rq0 = taken } in
    let size : length taken.active ≤ length (q.cqs q.recv_cq).free_ring =
      rw t.active (omega (arith, length-append q.rq0.active q.rq0.ring)) in
    let f = post_recv_all-Flushed h taken.active q1 laws v refl size in
    (
      f.active,
      f.ring ∙ t.ring,
      f.all
          ∙ ap₂ (λ x y. posted (q.cqs q.recv_cq) ++ map x y) (t.wc q.qp_num WcStatus.wr_flush_err)
              t.active,
    )
