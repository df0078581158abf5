-- ===== src/Transmission/Ring.antt =====
-- The ring of transmitted segments that wait for an acknowledgement. Sequence numbers in these
-- statements never wrap; the program keeps their 32-bit words.
use urdma.Prelude.{
  ℕ, ◌+◌, ◌%◌, ◌^◌, ◌≤◌, ◌<◌, ◌≡◌, ◌≢◌, refl, ==→eq, sym, ◌∙◌, inl, inr, Option, arith, ltb, ◌==◌,
  Bool-cases,
}
use urdma.Prelude.Words.{u32_mod}
use urdma.Prelude.Bits.{bit_and-mask, word-mod, mod-injective, pow-pos}
use native.Mathlib.Nat.{mod-lt}
use mathlib.Core.Path.{subst}
use urdma.Host.{Host}
use urdma.Proto.{Bytes}
use urdma.Trp.{Endpoint, Pending}
use urdma.Qp.{Qp, update}
use urdma.Udp.{send_udp_dgram}
use urdma.Transmission.{
  retransmit_max, tx_pending_entry, new_pending, queue_segment, resend_ddp_segment,
  send_ddp_segment,
}

-- The segments numbered from `lo` to below `n` are in flight, in a ring of 2 ^ k slots: each is
-- found at the slot of its number, and the slots of the numbers that follow are empty.
pub record InFlight (e : Endpoint) (mbufs : ℕ → Pending) (k lo n : ℕ) : Type 0 where
  pub size : e.tx_pending_size ≡ 2 ^ k
  pub small : k ≤ 31
  pub order : lo ≤ n
  pub fits : n ≤ lo + 2 ^ k
  pub next : e.send_next_psn ≡ n % u32_mod
  pub head : e.tx_head ≡ lo % 2 ^ k
  pub held :
      (m : ℕ)
      → lo ≤ m
      → m < n
      → (e.tx_pending (m % 2 ^ k) ≢ 0) × ((mbufs (e.tx_pending (m % 2 ^ k))).psn ≡ m % u32_mod)
  pub free : (m : ℕ) → n ≤ m → m < lo + 2 ^ k → e.tx_pending (m % 2 ^ k) ≡ 0

-- The address of a new mbuf is not NULL, and is not that of a segment in flight.
pub record IsFresh (e : Endpoint) (k a : ℕ) : Type 0 where
  pub some_address : a ≢ 0
  pub new : (i : ℕ) → i < 2 ^ k → e.tx_pending i ≢ a

entry-mod :
    (e : Endpoint) (k n : ℕ)
    → e.tx_pending_size ≡ 2 ^ k
    → k ≤ 31
    → tx_pending_entry e (n % u32_mod) ≡ n % 2 ^ k
entry-mod e k n s small = rw s (bit_and-mask k (n % u32_mod) ∙ word-mod k n (omega arith))

-- The ring as a plain array of `s` slots.
abbrev Held : (ℕ → ℕ) → (ℕ → Pending) → ℕ → ℕ → Type 0
Held slots mbufs s m = (slots (m % s) ≢ 0) × ((mbufs (slots (m % s))).psn ≡ m % u32_mod)

Held-after :
    (slots : ℕ → ℕ) (mbufs : ℕ → Pending) (s n a m : ℕ) (p : Pending)
    → m ≤ n
    → n < m + s
    → (m < n → Held slots mbufs s m)
    → a ≢ 0
    → slots (m % s) ≢ a
    → p.psn ≡ n % u32_mod
    → Held (update slots (n % s) a) (update mbufs a p) s m
Held-after slots mbufs s n a m p le room held nonzero fresh psn = elim (Bool-cases (n == m)) [
  | inl last ↦
      let same : n ≡ m = ==→eq n m last in
      subst (λ j. Held (update slots (n % s) a) (update mbufs a p) s j) same (ground arith)
  | inr before ↦
      let below : m < n = ground arith in
      let other : n % s ≢ m % s =
        λ e. absurd (omega (arith, mod-injective n m s room (omega arith) e)) in
      ground (arith, held below)
]

free_after :
    (slots : ℕ → ℕ) (s n a m : ℕ)
    → n < m
    → m < n + s
    → slots (m % s) ≡ 0
    → update slots (n % s) a (m % s) ≡ 0
free_after slots s n a m lt room free =
    let other : n % s ≢ m % s =
      λ e. absurd (omega (arith, mod-injective n m s (omega arith) room e)) in
    ground arith

module _ (h : Host) (q : Qp) (segment : Bytes) (readresp wqe : Option ℕ) (len : ℕ) where
  queue_segment-InFlight :
      (k lo n : ℕ)
      → InFlight q.remote_ep q.mbufs k lo n
      → n < lo + 2 ^ k
      → IsFresh q.remote_ep k (h.ddp_alloc q.ddp_allocs)
      → let q' = queue_segment h q segment readresp wqe len in
        InFlight q'.remote_ep q'.mbufs k lo (n + 1)
  unfolding queue_segment new_pending
  queue_segment-InFlight k lo n v room fresh =
      let q' = queue_segment h q segment readresp wqe len in
      let slot : tx_pending_entry q.remote_ep q.remote_ep.send_next_psn ≡ n % 2 ^ k =
        rw v.next (entry-mod q.remote_ep k n v.size v.small) in
      record {
        size = v.size;
        small = v.small;
        order = omega (arith, v.order);
        fits = omega arith;
        next = rw v.next (omega arith);
        head = v.head;
        held = λ m p r.
            subst
              (λ i.
                Held (update q.remote_ep.tx_pending i (h.ddp_alloc q.ddp_allocs)) q'.mbufs (2 ^ k)
                  m)
              (sym slot)
              (Held-after q.remote_ep.tx_pending q.mbufs (2 ^ k) n (h.ddp_alloc q.ddp_allocs) m
                (new_pending h q segment readresp wqe len) (omega arith) (omega arith) (v.held m p)
                fresh.some_address (fresh.new (m % 2 ^ k) (mod-lt m (pow-pos k))) v.next);
        free = λ m p r.
            subst (λ i. update q.remote_ep.tx_pending i (h.ddp_alloc q.ddp_allocs) (m % 2 ^ k) ≡ 0)
              (sym slot)
              (free_after q.remote_ep.tx_pending (2 ^ k) n (h.ddp_alloc q.ddp_allocs) m
                (omega arith) (omega (arith, v.order)) (v.free m (omega arith) r));
      }

-- A ring is in flight by its slots and the numbers of its segments; what else an mbuf or the
-- endpoint holds does not matter.
abbrev SameTx : Endpoint → Endpoint → Type 0
SameTx e e' =
    (e'.tx_pending_size ≡ e.tx_pending_size)
    × (e'.send_next_psn ≡ e.send_next_psn)
    × (e'.tx_head ≡ e.tx_head)
    × (e'.tx_pending ≡ e.tx_pending)

InFlight-same :
    (e e' : Endpoint) (mbufs mbufs' : ℕ → Pending) (k lo n : ℕ)
    → InFlight e mbufs k lo n
    → SameTx e e'
    → ((a : ℕ) → (mbufs' a).psn ≡ (mbufs a).psn)
    → InFlight e' mbufs' k lo n
InFlight-same e e' mbufs mbufs' k lo n v same psn = record {
  size = same.0 ∙ v.size;
  small = v.small;
  order = v.order;
  fits = v.fits;
  next = same.1 ∙ v.next;
  head = same.2 ∙ v.head;
  held =
      λ m p r. let old = v.held m p r in rw same.3 (old.0, psn (e.tx_pending (m % 2 ^ k)) ∙ old.1);
  free = λ m p r. rw same.3 (v.free m p r);
}

-- What resend_ddp_segment leaves alone.
pub resend-same :
    (h : Host) (q : Qp) (mbuf : ℕ)
    → SameTx q.remote_ep (resend_ddp_segment h q mbuf).0.remote_ep
      × ((a : ℕ) → ((resend_ddp_segment h q mbuf).0.mbufs a).psn ≡ (q.mbufs a).psn)
unfolding resend_ddp_segment send_udp_dgram
resend-same h q mbuf = elim (Bool-cases (ltb retransmit_max (q.mbufs mbuf).transmit_count)) [
  | inl over ↦ rw over ((refl, refl, refl, refl), λ a. ground arith)
  | inr under ↦ rw under (elim (Bool-cases (h.hdr_alloc q.allocs)) [
    | inl some_mbuf ↦ rw some_mbuf ((refl, refl, refl, refl), λ a. ground arith)
    | inr no_mbuf ↦ rw no_mbuf ((refl, refl, refl, refl), λ a. ground arith)
  ])
]

-- While fewer than 2 ^ k segments are in flight and the new mbuf is not one of theirs, the slot
-- that send_ddp_segment takes is empty, as it asserts; afterwards the ring holds one segment
-- more, under the next sequence number, and every segment in flight is still found at its slot.
pub send_ddp_segment-InFlight :
    (h : Host) (q : Qp) (segment : Bytes) (readresp wqe : Option ℕ) (len k lo n : ℕ)
    → InFlight q.remote_ep q.mbufs k lo n
    → n < lo + 2 ^ k
    → IsFresh q.remote_ep k (h.ddp_alloc q.ddp_allocs)
    → (q.remote_ep.tx_pending (tx_pending_entry q.remote_ep q.remote_ep.send_next_psn) ≡ 0)
      × InFlight
          (send_ddp_segment h q segment readresp wqe len).remote_ep
          (send_ddp_segment h q segment readresp wqe len).mbufs
          k
          lo
          (n + 1)
unfolding send_ddp_segment
send_ddp_segment-InFlight h q segment readresp wqe len k lo n v room fresh =
    let q1 = queue_segment h q segment readresp wqe len in
    let mbuf = h.ddp_alloc q.ddp_allocs in
    let same = resend-same h q1 mbuf in
    let slot : tx_pending_entry q.remote_ep q.remote_ep.send_next_psn ≡ n % 2 ^ k =
      rw v.next (entry-mod q.remote_ep k n v.size v.small) in
    (
      rw slot (v.free n (omega arith) room),
      InFlight-same q1.remote_ep _ q1.mbufs _ k lo (n + 1)
          (queue_segment-InFlight h q segment readresp wqe len k lo n v room fresh) same.0 same.1,
    )
