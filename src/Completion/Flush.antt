-- ===== src/Completion/Flush.antt =====
-- src/liburdma/interface.c: the completions that wait in a completion queue, and posting one.
use urdma.Prelude.{
  ℕ, suc, ◌+◌, ◌≤◌, ◌<◌, ◌≡◌, ◌∙◌, ap, lt→ltb, List, [], ◌∷◌, ◌++◌, map, arith, length,
  length-append,
}
use mathlib.Core.Path.{ap₂}
use mathlib.Core.List.{append_assoc, map-append}
use urdma.Prelude.Distinct.{Distinct, Distinct-middle, map-update}
use urdma.Host.{Host, Laws}
use urdma.Qp.{Completion, CompletionQueue}
use urdma.Completion.{post_entry, enqueue}

-- The completions that wait in a queue, in order.
abbrev pub posted : CompletionQueue → List Completion
posted cq = map cq.storage cq.cqe_ring

-- No entry of a completion queue stands twice in its rings, and they hold all that is enqueued.
pub record IsValidCq (cq : CompletionQueue) : Type 0 where
  pub distinct : Distinct (cq.cqe_ring ++ cq.free_ring)
  pub room : length cq.cqe_ring + length cq.free_ring ≤ cq.capacity

-- What posting one completion makes of a queue.
pub record Posted (before : CompletionQueue) (wc : Completion) (after : CompletionQueue)
    : Type 0 where
  pub valid : IsValidCq after
  pub added : posted after ≡ posted before ++ wc ∷ []
  pub used : length before.free_ring ≡ length after.free_ring + 1

append_last : (c : ℕ) (xs ys : List ℕ) → (xs ++ c ∷ []) ++ ys ≡ xs ++ c ∷ ys
append_last c xs ys = append_assoc xs (c ∷ []) ys

pub enqueue-room :
    (h : Host) (n : ℕ) (r : List ℕ) (x : ℕ) → Laws h → length r < n → enqueue h n r x ≡ r ++ x ∷ []
enqueue-room h n r x laws p = rw (laws.enqueue n r x, lt→ltb _ _ p)

pub post_entry-Posted :
    (h : Host) (cq : CompletionQueue) (c : ℕ) (wc : Completion) (free : List ℕ)
    → Laws h
    → IsValidCq cq
    → cq.free_ring ≡ c ∷ free
    → Posted cq wc (post_entry h cq c wc free)
unfolding post_entry
post_entry-Posted h cq c wc free laws v e =
    let all : Distinct (cq.cqe_ring ++ c ∷ free) = rw e at v.distinct in
    let space : length cq.cqe_ring + suc (length free) ≤ cq.capacity =
      omega (arith, v.room, ap length e) in
    let ring = enqueue-room h cq.capacity cq.cqe_ring c laws (omega arith) in
    record {
      valid = record {
        distinct = rw (ring, append_last c cq.cqe_ring free) all;
        room = rw ring (omega (arith, length-append cq.cqe_ring (c ∷ [])));
      };
      added = rw ring (
          map-append _ cq.cqe_ring (c ∷ [])
          ∙ ap₂ (λ x y. x ++ y ∷ [])
              (map-update cq.storage c wc cq.cqe_ring (Distinct-middle c cq.cqe_ring free all))
              (ground arith));
      used = omega (arith, ap length e);
    }
