-- ===== src/Verbs/Session/Start.antt =====
-- What usiw_create_qp and usiw_create_cq set up (src/liburdma/verbs.c) is accounted for.
use mathlib.Core.Path.{subst}
use urdma.Prelude.{ℕ, zero, suc, ◌≤◌, ◌≡◌, refl, sym, [], ◌∷◌, ltb, arith, length, length-append}
use urdma.Prelude.Counts.{bit, times, times-append, times→Distinct, bit-most}
use urdma.Host.{Host, Laws}
use urdma.Qp.{Qp, Completion}
use urdma.Completion.Flush.{IsValidCq, enqueue-room}
use urdma.Completion.Consistent.{Consistent}
use urdma.Verbs.Recv.{fill_ring, usiw_recv_wqe_queue_init}
use urdma.Verbs.Poll.{init_cq}
use urdma.Verbs.Session.{Fresh}

fill_ring-length : (h : Host) (size n : ℕ) → Laws h → n ≤ size → length (fill_ring h size n) ≡ n
unfolding fill_ring
fill_ring-length h size zero laws p = refl
fill_ring-length h size (suc n) laws p =
    let before = fill_ring-length h size n laws (omega (arith, p)) in
    rw (enqueue-room h size (fill_ring h size n) n laws (omega (arith, p, before)))
      (omega (arith, before, length-append (fill_ring h size n) (n ∷ [])))

fill_ring-times :
    (h : Host) (size n i : ℕ) → Laws h → n ≤ size → times i (fill_ring h size n) ≡ bit (ltb i n)
unfolding fill_ring
fill_ring-times h size zero i laws p = ground arith
fill_ring-times h size (suc n) i laws p =
    let before = fill_ring-length h size n laws (omega (arith, p)) in
    rw (enqueue-room h size (fill_ring h size n) n laws (omega (arith, p, before))) (
      ground (
        arith,
        fill_ring-times h size n i laws (omega (arith, p)),
        times-append i (fill_ring h size n) (n ∷ []),
      ))

init_cq-IsValidCq :
    (h : Host) (storage : ℕ → Completion) (cq_id size : ℕ)
    → Laws h
    → IsValidCq (init_cq h storage cq_id size)
unfolding init_cq
init_cq-IsValidCq h storage cq_id size laws = record {
  distinct =
      times→Distinct _ (λ i.
        omega (arith, fill_ring-times h size size i laws (omega arith), bit-most (ltb i size)));
  room = omega (arith, fill_ring-length h size size laws (omega arith));
}

pub Fresh-Consistent : (h : Host) (q : Qp) → Laws h → Fresh h q → Consistent q
unfolding usiw_recv_wqe_queue_init
Fresh-Consistent h q laws f = record {
  held = record {
    owned = rw f.rq0 (record {
      each = λ i. omega (arith, fill_ring-times h f.max_wr f.max_wr i laws (omega arith));
      all = omega (arith, fill_ring-length h f.max_wr f.max_wr laws (omega arith));
    });
    queues = λ id.
        subst IsValidCq (sym (f.cqs id))
          (init_cq-IsValidCq h (q.cqs id).storage (q.cqs id).cq_id (f.size id) laws);
  };
}
