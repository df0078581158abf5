-- ===== src/Verbs/PostSendQueue.antt =====
-- src/liburdma/verbs.c, usiw_post_send: what one request does to the send queue, and how requests
-- follow each other.
use mathlib.Core.Path.{ap₂, subst}
use mathlib.Core.List.{append_assoc, append-nil, map-append}
use urdma.Prelude.{ℕ, ◌<◌, refl, sym, ap, ◌∙◌, List, [], ◌∷◌, ◌++◌, map, arith, length}
use urdma.Prelude.Distinct.{NotIn, map-update}
use urdma.Prelude.Counts.{times→NotIn}
use urdma.Host.{Host, Laws}
use urdma.Qp.{Qp, SendWqe, SendQueue, update}
use urdma.Completion.Flush.{enqueue-room}
use urdma.Completion.Owned.{
  Owned, SendOwned, wait-Owned, return-Owned, lose-Owned, free-times, free-active,
}
use urdma.Verbs.Requests.{SendWr, PostResult}
use urdma.Verbs.Send.{queue_send, free_unused_wqe, store_send}
use urdma.Verbs.PostSend.{Requested, AllRequested}
use urdma.Verbs.PostSendOrder.{
  pending_sends, SendQueued, Allowed, AllAllowed, Served, all_queued, stopped,
}

pub SendQueued-none : (lost : List ℕ) (q : Qp) → SendOwned lost q.sq → SendQueued lost q [] q
SendQueued-none lost q o = record {
  owned = o;
  new = [];
  waiting_then = sym (append-nil (pending_sends q.sq));
  as_asked = tt;
  allowed = tt;
  max_sge = refl;
  max_inline = refl;
  active = refl;
  active_same = refl;
  rest = refl;
}

abbrev with_sq : SendQueue → Qp → Qp
with_sq s q = record q { sq = s }

AllRequested-append :
    (q : Qp) (wr : SendWr) (wrs : List SendWr) (new1 new2 : List SendWqe)
    → AllRequested q.memory q.pd q.sig_all (wr ∷ []) new1
    → AllRequested q.memory q.pd q.sig_all wrs new2
    → AllRequested q.memory q.pd q.sig_all (wr ∷ wrs) (new1 ++ new2)
AllRequested-append q wr wrs [] new2 a b = absurd a
AllRequested-append q wr wrs (w ∷ []) new2 a b = (a.0, b)
AllRequested-append q wr wrs (w ∷ w' ∷ new1) new2 a b = absurd a.1

SendQueued-cons :
    {lost : List ℕ} {q q1 q2 : Qp} (wr : SendWr) (wrs : List SendWr)
    → SendQueued lost q (wr ∷ []) q1
    → SendQueued lost q1 wrs q2
    → SendQueued lost q (wr ∷ wrs) q2
SendQueued-cons {lost} {q} {q1} {q2} wr wrs a b = record {
  owned = b.owned;
  new = a.new ++ b.new;
  waiting_then =
      b.waiting_then
      ∙ ap (λ l. l ++ b.new) a.waiting_then
      ∙ append_assoc (pending_sends q.sq) a.new b.new;
  as_asked =
      AllRequested-append q wr wrs a.new b.new a.as_asked
        (subst (λ (p : Qp). AllRequested p.memory p.pd p.sig_all wrs b.new) a.rest b.as_asked);
  allowed = (
    a.allowed.0,
    subst (λ n. AllAllowed q.sq.max_sge n wrs) a.max_inline
        (subst (λ n. AllAllowed n q1.sq.max_inline wrs) a.max_sge b.allowed),
  );
  max_sge = b.max_sge ∙ a.max_sge;
  max_inline = b.max_inline ∙ a.max_inline;
  active = b.active ∙ a.active;
  active_same = b.active_same ∙ a.active_same;
  rest = b.rest ∙ ap (with_sq q2.sq) a.rest;
}

pub Served-cons :
    {lost : List ℕ} {q q1 : Qp} (wr : SendWr) (wrs : List SendWr) (r : PostResult SendWr)
    → SendQueued lost q (wr ∷ []) q1
    → Served lost q1 wrs r
    → Served lost q (wr ∷ wrs) r
Served-cons wr wrs _ a (all_queued q' b) = all_queued q' (SendQueued-cons wr wrs a b)
Served-cons wr wrs _ a (stopped before w bad q1 q' ret e b why) =
    stopped (wr ∷ before) w bad q1 q' ret (ap (λ l. wr ∷ l) e) (SendQueued-cons wr before a b) why

-- The queue pair when the first free entry was taken.
abbrev pub taken : Qp → List ℕ → Qp
taken q free = record q { sq = record (q.sq) { free_ring = free } }

module _ (h : Host) (lost : List ℕ) (q : Qp) (wr : SendWr) (i : ℕ) (free : List ℕ) (laws : Laws h)
    (o : Owned lost q.sq.max_wr q.sq.ring (i ∷ free) q.sq.active) where
  off_ring : NotIn i q.sq.ring
  off_ring = times→NotIn i q.sq.ring (free-times i o)

  off_active : NotIn i q.sq.active
  off_active = times→NotIn i q.sq.active (free-active i o)

  pub queue_send-SendQueued :
      (w : SendWqe)
      → Requested q.memory q.pd q.sig_all wr w
      → Allowed q.sq.max_sge q.sq.max_inline wr
      → SendQueued lost q (wr ∷ []) (queue_send h (taken q free) i w)
  unfolding queue_send
  queue_send-SendQueued w asked allowed =
      let s = q.sq in
      let room : length s.ring < s.max_wr = omega (arith, o.all) in
      let ring = enqueue-room h s.max_wr s.ring i laws room in
      record {
        owned = subst (λ l. Owned lost s.max_wr l free s.active) (sym ring) (wait-Owned i o);
        new = w ∷ [];
        waiting_then =
            ap (map (update s.storage i w)) ring
            ∙ map-append (update s.storage i w) s.ring (i ∷ [])
            ∙ ap₂ (λ x y. x ++ y ∷ []) (map-update s.storage i w s.ring off_ring) (ground arith);
        as_asked = (asked, tt);
        allowed = (allowed, tt);
        max_sge = refl;
        max_inline = refl;
        active = refl;
        active_same = map-update s.storage i w s.active off_active;
        rest = refl;
      }

  -- The entry is put back.
  pub put_back-SendQueued :
      (w : SendWqe) → SendQueued lost q [] (free_unused_wqe h (store_send (taken q free) i w) i)
  unfolding free_unused_wqe
  put_back-SendQueued w =
      let s = q.sq in
      let room : length free < s.max_wr = omega (arith, o.all) in
      let back = enqueue-room h s.max_wr free i laws room in
      record {
        owned = subst (λ l. Owned lost s.max_wr s.ring l s.active) (sym back) (return-Owned i o);
        new = [];
        waiting_then =
            map-update s.storage i w s.ring off_ring ∙ sym (append-nil (pending_sends s));
        as_asked = tt;
        allowed = tt;
        max_sge = refl;
        max_inline = refl;
        active = refl;
        active_same = map-update s.storage i w s.active off_active;
        rest = refl;
      }

  -- The entry is not put back.
  pub kept-SendQueued : (w : SendWqe) → SendQueued (i ∷ lost) q [] (store_send (taken q free) i w)
  kept-SendQueued w =
      let s = q.sq in
      record {
        owned = lose-Owned i o;
        new = [];
        waiting_then =
            map-update s.storage i w s.ring off_ring ∙ sym (append-nil (pending_sends s));
        as_asked = tt;
        allowed = tt;
        max_sge = refl;
        max_inline = refl;
        active = refl;
        active_same = map-update s.storage i w s.active off_active;
        rest = refl;
      }
