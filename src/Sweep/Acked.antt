-- ===== src/Sweep/Acked.antt =====
-- src/liburdma/interface.c: the first loop of sweep_unacked_packets on the ring of segments in flight.
use urdma.Prelude.{
  ℕ, zero, suc, ◌+◌, ◌%◌, ◌^◌, ◌≤◌, ◌<◌, ◌≡◌, ◌≢◌, refl, ==→eq, ◌/◌, not, ◌&&◌, sym, ◌∙◌, ap, inl,
  inr, true, false, Option, none, some, arith, ltb, ◌==◌, Bool-cases, Option-cases,
}
use mathlib.Core.Path.{subst}
use native.Mathlib.Nat.{mod-lt, div-add-mod}
use urdma.Prelude.Words.{u32_mod, half32}
use urdma.Prelude.Bits.{mod_unique, mod-injective, pow-pos}
use urdma.Serial.{serial_less_32}
use urdma.Host.{Host}
use urdma.Trp.{Pending}
use urdma.Trp.Refine.{less_word}
use urdma.Qp.{Qp, WcStatus, update}
use urdma.Completion.{post_send_cqe, qp_free_send_wqe, try_complete_wqe, is_top, is_read}
use urdma.Transmission.Ring.{InFlight}
use urdma.Sack.{next_slot}
use urdma.Sweep.{ack_owner, do_process_ack, release_head, sweep_acked, drop_head, uint32_max}

-- Completing requests touches neither the transport state nor the packets.
abbrev KeepsTx : Qp → Qp → Type 0
KeepsTx q q' = (q'.remote_ep ≡ q.remote_ep) × (q'.mbufs ≡ q.mbufs)

post_send_cqe-KeepsTx :
    (h : Host) (q : Qp) (i : ℕ) (status : WcStatus) → KeepsTx q (post_send_cqe h q i status)
unfolding post_send_cqe
post_send_cqe-KeepsTx h q i status =
    elim (Option-cases (h.ring_dequeue (q.cqs q.send_cq).free_ring)) [
      | inl e ↦ rw (e, post_send_cqe) (refl, refl)
      | inr (c, e) ↦ rw (e, post_send_cqe) (refl, refl)
    ]

try_complete_wqe-KeepsTx : (h : Host) (q : Qp) (i : ℕ) → KeepsTx q (try_complete_wqe h q i)
unfolding try_complete_wqe qp_free_send_wqe
try_complete_wqe-KeepsTx h q i =
    let posted = post_send_cqe-KeepsTx h q i WcStatus.success in
    elim (Bool-cases (is_top h q.sq.active i)) [
      | inr e ↦ rw e (refl, refl)
      | inl e ↦ rw e (elim (Bool-cases (is_read (q.sq.storage i).opcode)) [
        | inl r ↦ rw r (elim (Bool-cases (q.sq.storage i).signaled) [
          | inl s ↦ rw s posted
          | inr s ↦ rw s (refl, refl)
        ])
        | inr r ↦ rw r (elim (Bool-cases (q.sq.storage i).signaled) [
          | inl s ↦ rw s posted
          | inr s ↦ rw s (refl, refl)
        ])
      ])
    ]

do_process_ack-KeepsTx :
    (h : Host) (q : Qp) (i : ℕ) (p : Pending) → KeepsTx q (do_process_ack h q i p)
unfolding do_process_ack
do_process_ack-KeepsTx h q i p =
    let w = q.sq.storage i in
    elim (Bool-cases (not (is_read w.opcode) && w.bytes_acked + p.ddp_length == w.total_length)) [
      | inl e ↦ rw e (try_complete_wqe-KeepsTx h _ i)
      | inr e ↦ rw e (refl, refl)
    ]

ack_owner-KeepsTx :
    (h : Host) (q : Qp) (owner : Option ℕ) (p : Pending) → KeepsTx q (ack_owner h q owner p)
unfolding ack_owner
ack_owner-KeepsTx h q none p = (refl, refl)
ack_owner-KeepsTx h q (some i) p = do_process_ack-KeepsTx h q i p

release_head-ring :
    (h : Host) (q : Qp)
    → let mbuf = q.remote_ep.tx_pending q.remote_ep.tx_head in
      ((release_head h q).remote_ep ≡ drop_head q.remote_ep)
      × ((release_head h q).mbufs
          ≡ update q.mbufs mbuf (record (q.mbufs mbuf) { psn = uint32_max }))
unfolding release_head
release_head-ring h q =
    let mbuf = q.remote_ep.tx_pending q.remote_ep.tx_head in
    let p = q.mbufs mbuf in
    let keeps = ack_owner-KeepsTx h q p.wqe p in
    (ap drop_head keeps.0, ap (λ f. update f mbuf (record p { psn = uint32_max })) keeps.1)

next_slot-mod : (lo s : ℕ) → 0 < s → next_slot s (lo % s) ≡ (lo + 1) % s
next_slot-mod lo s pos =
    let whole = div-add-mod lo s in
    let below = mod-lt lo pos in
    elim (Bool-cases (lo % s + 1 == s)) [
      | inl last ↦
          let e = ==→eq (lo % s + 1) s last in
          rw last (sym (mod_unique (lo + 1) s (lo / s + 1) 0 pos (omega arith)))
      | inr inside ↦
          rw inside (sym (mod_unique (lo + 1) s (lo / s) (lo % s + 1) (ground arith) (omega arith)))
    ]

module _ (slots : ℕ → ℕ) (mbufs : ℕ → Pending) (s lo : ℕ) where
  held_behind :
      (m : ℕ) (p : Pending)
      → lo < m
      → m < lo + s
      → m < lo + half32
      → (mbufs (slots (lo % s))).psn ≡ lo % u32_mod
      → (slots (m % s) ≢ 0) × ((mbufs (slots (m % s))).psn ≡ m % u32_mod)
      → (update slots (lo % s) 0 (m % s) ≢ 0)
        × ((update mbufs (slots (lo % s)) p (update slots (lo % s) 0 (m % s))).psn ≡ m % u32_mod)
  held_behind m p lt room near psn held =
      let other : lo % s ≢ m % s =
        λ e. absurd (omega (arith, mod-injective lo m s (omega arith) room e)) in
      let apart : lo % u32_mod ≢ m % u32_mod =
        λ e. absurd (omega (arith, mod-injective lo m u32_mod (omega arith) (omega arith) e)) in
      let address : slots (lo % s) ≢ slots (m % s) =
        λ e. apart (sym psn ∙ ap (λ a. (mbufs a).psn) e ∙ held.1) in
      ground arith

  free_behind :
      (m : ℕ)
      → 0 < s
      → lo < m
      → m ≤ lo + s
      → (m < lo + s → slots (m % s) ≡ 0)
      → update slots (lo % s) 0 (m % s) ≡ 0
  free_behind m pos lt le free = elim (Bool-cases (m == lo + s)) [
    | inl last ↦
        let e : m ≡ lo + s = ==→eq m (lo + s) last in
        let same : m % s ≡ lo % s =
          mod_unique m s (lo / s + 1) (lo % s) (mod-lt lo pos) (omega (arith, div-add-mod lo s)) in
        rw same (ground arith)
    | inr inside ↦
        let other : lo % s ≢ m % s =
          λ e. absurd (omega (arith, mod-injective lo m s (omega arith) (ground arith) e)) in
        ground (arith, free)
  ]

-- Releasing the head of the ring moves the window by one.
release_head-InFlight :
    (h : Host) (q : Qp) (k lo n : ℕ)
    → InFlight q.remote_ep q.mbufs k lo n
    → lo < n
    → n ≤ lo + half32
    → InFlight (release_head h q).remote_ep (release_head h q).mbufs k (lo + 1) n
release_head-InFlight h q k lo n v some_left near =
    let ring = release_head-ring h q in
    rw (ring.0, ring.1, v.head)
      (record {
        size = v.size;
        small = v.small;
        order = omega arith;
        fits = omega (arith, v.fits);
        next = v.next;
        head = rw v.size (next_slot-mod lo (2 ^ k) (pow-pos k));
        held = λ m p r.
            held_behind q.remote_ep.tx_pending q.mbufs (2 ^ k) lo m _ (omega arith)
              (omega (arith, v.fits)) (omega arith) (v.held lo (omega arith) some_left).1
              (v.held m (omega arith) r);
        free = λ m p r.
            free_behind q.remote_ep.tx_pending q.mbufs (2 ^ k) lo m (pow-pos k) (omega arith)
              (omega arith) (v.free m p);
      })

release_head-acked :
    (h : Host) (q : Qp)
    → (release_head h q).remote_ep.send_last_acked_psn ≡ q.remote_ep.send_last_acked_psn
release_head-acked h q = ap (λ e. e.send_last_acked_psn) (release_head-ring h q).0

sweep_acked-loop :
    (h : Host) (fuel : ℕ) (q : Qp) (k lo n acked : ℕ)
    → InFlight q.remote_ep q.mbufs k lo n
    → q.remote_ep.send_last_acked_psn ≡ acked % u32_mod
    → lo ≤ acked
    → acked ≤ n
    → n < lo + half32
    → acked ≤ lo + fuel
    → let (q', left) = sweep_acked h fuel q in
      InFlight q'.remote_ep q'.mbufs k acked n × (left + acked ≡ fuel + lo)
unfolding sweep_acked
sweep_acked-loop h zero q k lo n acked v a le hi near f =
    let same : lo ≡ acked = omega arith in
    (subst (λ t. InFlight q.remote_ep q.mbufs k t n) same v, omega arith)
sweep_acked-loop h (suc fuel) q k lo n acked v a le hi near f = elim (Bool-cases (ltb lo n)) [
  | inr none_left ↦
      let same : lo ≡ acked = ground arith in
      let empty : (q.remote_ep.tx_pending q.remote_ep.tx_head == 0) ≡ true =
        rw v.head (ground (arith, v.free lo (ground arith) (omega (arith, pow-pos k)))) in
      rw empty (subst (λ t. InFlight q.remote_ep q.mbufs k t n) same v, omega arith)
  | inl some_left ↦
      let lt : lo < n = ground arith in
      let at_head = v.held lo (omega arith) lt in
      let waits : (q.remote_ep.tx_pending q.remote_ep.tx_head == 0) ≡ false =
        rw v.head (ground (arith, at_head.0)) in
      let test : serial_less_32 (q.mbufs (q.remote_ep.tx_pending q.remote_ep.tx_head)).psn
            q.remote_ep.send_last_acked_psn
          ≡ ltb lo acked =
        rw (v.head, at_head.1, a) (less_word lo acked (omega arith) (omega arith)) in
      rw (waits, test)
        (elim (Bool-cases (ltb lo acked)) [
          | inl behind ↦
              let (flight, left) =
                sweep_acked-loop h fuel (release_head h q) k (lo + 1) n acked
                  (release_head-InFlight h q k lo n v lt (omega arith)) (release_head-acked h q ∙ a)
                  (ground arith) hi (omega arith) (omega arith) in
              rw behind (flight, omega arith)
          | inr up_to_date ↦
              let same : lo ≡ acked = ground arith in
              rw up_to_date (subst (λ t. InFlight q.remote_ep q.mbufs k t n) same v, omega arith)
        ])
]

-- Let the segments numbered from `lo` to below `n` be in flight, fewer than 2 ^ 31, and let the
-- peer have acknowledged those below `acked`, in this range. The first loop of
-- sweep_unacked_packets releases exactly these: afterwards the segments from `acked` on are in
-- flight at their slots, the head of the ring is at the first of them, and each of the slots
-- released is empty.
pub sweep_acked-releases :
    (h : Host) (q : Qp) (k lo n acked : ℕ)
    → InFlight q.remote_ep q.mbufs k lo n
    → q.remote_ep.send_last_acked_psn ≡ acked % u32_mod
    → lo ≤ acked
    → acked ≤ n
    → n < lo + half32
    → let (q', _) = sweep_acked h q.remote_ep.tx_pending_size q in
      InFlight q'.remote_ep q'.mbufs k acked n
sweep_acked-releases h q k lo n acked v a le hi near =
    (sweep_acked-loop h q.remote_ep.tx_pending_size q k lo n acked v a le hi near
      (omega (arith, v.fits, v.size))).0
