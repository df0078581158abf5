-- ===== src/Transmission/Keeps.antt =====
-- src/liburdma/interface.c: what send_ddp_segment and resend_ddp_segment leave alone.
use urdma.Prelude.{ℕ, ◌+◌, ◌≡◌, refl, inl, inr, Option, ltb, Bool-cases}
use urdma.Prelude.Words.{u32}
use urdma.Host.{Host}
use urdma.Proto.{Bytes}
use urdma.Qp.{Qp}
use urdma.Udp.{send_udp_dgram}
use urdma.Transmission.{retransmit_max, queue_segment, resend_ddp_segment, send_ddp_segment}

pub record Keeps (q q' : Qp) : Type 0 where
  pub shm : q'.shm ≡ q.shm
  pub dev : q'.dev ≡ q.dev
  pub sq : q'.sq ≡ q.sq
  pub rq0 : q'.rq0 ≡ q.rq0
  pub cqs : q'.cqs ≡ q.cqs
  pub pd : q'.pd ≡ q.pd
  pub memory : q'.memory ≡ q.memory
  pub ord_active : q'.ord_active ≡ q.ord_active
  pub readresp_store : q'.readresp_store ≡ q.readresp_store
  pub max_psn : q'.remote_ep.send_max_psn ≡ q.remote_ep.send_max_psn

pub resend-Keeps :
    (h : Host) (q : Qp) (mbuf : ℕ)
    → Keeps q (resend_ddp_segment h q mbuf).0
      × ((resend_ddp_segment h q mbuf).0.remote_ep.send_next_psn ≡ q.remote_ep.send_next_psn)
unfolding resend_ddp_segment send_udp_dgram
resend-Keeps h q mbuf = elim (Bool-cases (ltb retransmit_max (q.mbufs mbuf).transmit_count)) [
  | inl over ↦ rw over (
    record {
      shm = refl;
      dev = refl;
      sq = refl;
      rq0 = refl;
      cqs = refl;
      pd = refl;
      memory = refl;
      ord_active = refl;
      readresp_store = refl;
      max_psn = refl;
    },
    refl,
  )
  | inr under ↦ rw under (elim (Bool-cases (h.hdr_alloc q.allocs)) [
    | inl some_mbuf ↦ rw some_mbuf (
      record {
        shm = refl;
        dev = refl;
        sq = refl;
        rq0 = refl;
        cqs = refl;
        pd = refl;
        memory = refl;
        ord_active = refl;
        readresp_store = refl;
        max_psn = refl;
      },
      refl,
    )
    | inr no_mbuf ↦ rw no_mbuf (
      record {
        shm = refl;
        dev = refl;
        sq = refl;
        rq0 = refl;
        cqs = refl;
        pd = refl;
        memory = refl;
        ord_active = refl;
        readresp_store = refl;
        max_psn = refl;
      },
      refl,
    )
  ])
]

pub send_ddp_segment-Keeps :
    (h : Host) (q : Qp) (segment : Bytes) (readresp wqe : Option ℕ) (len : ℕ)
    → Keeps q (send_ddp_segment h q segment readresp wqe len)
      × ((send_ddp_segment h q segment readresp wqe len).remote_ep.send_next_psn
          ≡ u32 (q.remote_ep.send_next_psn + 1))
unfolding send_ddp_segment queue_segment
send_ddp_segment-Keeps h q segment readresp wqe len =
    let mbuf = h.ddp_alloc q.ddp_allocs in
    let (k, next) = resend-Keeps h (queue_segment h q segment readresp wqe len) mbuf in
    (
      record {
        shm = k.shm;
        dev = k.dev;
        sq = k.sq;
        rq0 = k.rq0;
        cqs = k.cqs;
        pd = k.pd;
        memory = k.memory;
        ord_active = k.ord_active;
        readresp_store = k.readresp_store;
        max_psn = k.max_psn;
      },
      next,
    )
