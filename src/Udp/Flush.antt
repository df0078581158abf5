-- ===== src/Udp/Flush.antt =====
-- src/liburdma/interface.c: what flush_tx_queue and enqueue_ether_frame do to the frames of the queue.
use urdma.Prelude.{
  ℕ, zero, suc, ◌+◌, ◌≤◌, ◌<◌, ◌≡◌, refl, ◌∙◌, ap, sym, false, inl, inr, List, [], ◌∷◌, ◌++◌, arith,
  ◌==◌, length, take, drop, take-append-drop, Bool-cases,
}
use mathlib.Core.List.{append_assoc, append-nil}
use urdma.Host.{Host, TxProgress}
use urdma.Proto.{Bytes}
use urdma.Proto.Headers.{TrpHeader}
use urdma.Qp.{Qp, Frame, Transmit}
use urdma.Udp.{flush_loop, flush_tx_queue, enqueue_ether_frame, dgram_frame, send_udp_dgram}

-- The frames handed over so far: those that the NIC took, then those that wait.
abbrev pub handed : Transmit → List Frame
handed t = t.wire ++ t.txq

flush_loop-handed : (h : Host) (fuel : ℕ) (t : Transmit) → handed (flush_loop h fuel t) ≡ handed t
unfolding flush_loop
flush_loop-handed h zero t = refl
flush_loop-handed h (suc fuel) t =
    let n = h.tx_burst t.tx_calls (length t.txq) in
    let t' : Transmit = record t {
      wire = t.wire ++ take n t.txq;
      txq = drop n t.txq;
      tx_calls = t.tx_calls + 1;
    } in
    let same : handed t' ≡ handed t =
      append_assoc t.wire (take n t.txq) (drop n t.txq)
      ∙ ap (λ x. t.wire ++ x) (take-append-drop n t.txq) in
    elim (Bool-cases (length (drop n t.txq) == 0)) [
      | inl done ↦ rw done same
      | inr more ↦ rw more (flush_loop-handed h fuel t' ∙ same)
    ]

pub flush_tx_queue-handed : (h : Host) (t : Transmit) → handed (flush_tx_queue h t) ≡ handed t
unfolding flush_tx_queue
flush_tx_queue-handed h t = flush_loop-handed h (length t.txq + 1) t

length-drop_lt :
    {A : Type 0} (n : ℕ) (xs : List A) → 0 < n → 0 < length xs → length (drop n xs) < length xs
length-drop_lt zero xs p q = absurd (omega arith)
length-drop_lt (suc n) [] p q = absurd (omega arith)
length-drop_lt (suc zero) (x ∷ xs) p q = omega arith
length-drop_lt (suc (suc n)) (x ∷ []) p q = omega arith
length-drop_lt (suc (suc n)) (x ∷ y ∷ xs) p q =
    omega (arith, length-drop_lt (suc n) (y ∷ xs) (omega arith) (omega arith))

length-drop_le : {A : Type 0} (n : ℕ) (xs : List A) → length (drop n xs) ≤ length xs
length-drop_le zero xs = omega arith
length-drop_le (suc n) [] = omega arith
length-drop_le (suc n) (x ∷ xs) = omega (arith, length-drop_le n xs)

flush_loop-empties :
    (h : Host) (fuel : ℕ) (t : Transmit)
    → TxProgress h
    → length t.txq < fuel
    → length (flush_loop h fuel t).txq ≡ 0
unfolding flush_loop
flush_loop-empties h zero t p q = absurd (omega arith)
flush_loop-empties h (suc fuel) t p q =
    let n = h.tx_burst t.tx_calls (length t.txq) in
    let t' : Transmit = record t {
      wire = t.wire ++ take n t.txq;
      txq = drop n t.txq;
      tx_calls = t.tx_calls + 1;
    } in
    elim (Bool-cases (length (drop n t.txq) == 0)) [
      | inl done ↦ rw done (ground arith)
      | inr more ↦
          rw more
            (flush_loop-empties h fuel t' p (shorter n t.txq (p t.tx_calls (length t.txq)) more q))
    ]
  where
    shorter :
        (n : ℕ) (xs : List Frame)
        → (0 < length xs → 0 < n)
        → (length (drop n xs) == 0) ≡ false
        → length xs < suc fuel
        → length (drop n xs) < fuel
    shorter n [] some more q = ground (arith, length-drop_le {A = Frame} n [])
    shorter n (x ∷ xs) some more q =
        omega (arith, length-drop_lt n (x ∷ xs) (some (omega arith)) (omega arith))

-- If the NIC takes at least one frame of each burst, flush_tx_queue returns with the queue empty,
-- and it has given the NIC every waiting frame once and in order.
pub flush_tx_queue-sends_all :
    (h : Host) (t : Transmit)
    → TxProgress h
    → (length (flush_tx_queue h t).txq ≡ 0) × ((flush_tx_queue h t).wire ≡ t.wire ++ t.txq)
unfolding flush_tx_queue
flush_tx_queue-sends_all h t p =
    let empty = flush_loop-empties h (length t.txq + 1) t p (omega arith) in
    (
      empty,
      wire_of (flush_loop h (length t.txq + 1) t) empty ∙ flush_loop-handed h (length t.txq + 1) t,
    )
  where
    wire_of : (u : Transmit) → length u.txq ≡ 0 → u.wire ≡ handed u
    wire_of u e = go u.txq u.wire e
      where
        go : (q w : List Frame) → length q ≡ 0 → w ≡ w ++ q
        go [] w e = sym (append-nil w)
        go (x ∷ q) w e = absurd (omega arith)

enqueue-handed :
    (h : Host) (burst : ℕ) (f : Frame) (t : Transmit)
    → handed (enqueue_ether_frame h burst f t) ≡ handed t ++ f ∷ []
unfolding enqueue_ether_frame
enqueue-handed h burst f t =
    let t' : Transmit = record t { txq = t.txq ++ f ∷ [] } in
    let same : handed t' ≡ handed t ++ f ∷ [] = sym (append_assoc t.wire t.txq (f ∷ [])) in
    elim (Bool-cases (length t'.txq == burst)) [
      | inl full ↦ rw full (flush_tx_queue-handed h t' ∙ same)
      | inr room ↦ rw room same
    ]

-- send_udp_dgram appends its one frame to what was handed over.
pub send_udp_dgram-handed :
    (h : Host) (q : Qp) (trp : TrpHeader) (segment : Bytes) (raw : ℕ)
    → handed (send_udp_dgram h q trp segment raw).tx
      ≡ handed q.tx ++ dgram_frame h q trp segment raw ∷ []
unfolding send_udp_dgram
send_udp_dgram-handed h q trp segment raw =
    enqueue-handed h q.shm.tx_burst_size (dgram_frame h q trp segment raw) q.tx
