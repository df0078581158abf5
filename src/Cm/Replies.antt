-- ===== src/Cm/Replies.antt =====
-- src/kmod/cm.c: what the read of a reply tells the IWCM.
use urdma.Prelude.{
  take, drop, min, length, ℕ, ◌+◌, ◌≤◌, ◌≡◌, refl, ap, Bool, true, false, ◌++◌, arith,
  if◌then◌else◌,
}
use urdma.Proto.{Bytes}
use urdma.Cm.{RequestReply, Cep, CepState, KernelQp, CmEvent, CmStatus}
use urdma.Cm.Messages.{rr_of, rr_bytes, siw_recv_trp_rr, check_rr}
use urdma.Cm.Handshake.{siw_proc_trpreply, reply_received, siw_cancel_timer}
use urdma.Cm.Work.{release, read_by_state}
use urdma.Cm.Answers.{answers, unanswered, ToldOnce, answers-told}

-- A reply that goes through tells nothing yet, and any other at most once.
reply_received-told :
    (up whole : Bool) (qp : KernelQp) (c : Cep)
    → let r = reply_received up qp (whole, c) in
      (answers r.1.upcalls ≤ answers c.upcalls + 1)
      × (r.0 ≡ true → (r.1.upcalls ≡ c.upcalls) × (r.1.state ≡ CepState.recvd_mparep))
unfolding reply_received
reply_received-told up whole qp c = ground (
  arith,
  answers-told (siw_cancel_timer c) CmEvent.connect_reply CmStatus.einval,
  answers-told (siw_cancel_timer c) CmEvent.connect_reply CmStatus.econnreset,
)

check_rr-keeps :
    (c : Cep) (rv : ℕ) (hdr : RequestReply) (pdata : Bytes)
    → ((check_rr c rv hdr pdata).1.upcalls ≡ c.upcalls)
      × ((check_rr c rv hdr pdata).1.state ≡ c.state)
unfolding check_rr
check_rr-keeps c rv hdr pdata = ground arith

pub recv-keeps :
    (c : Cep) (d : Bytes)
    → ((siw_recv_trp_rr c d).1.upcalls ≡ c.upcalls) × ((siw_recv_trp_rr c d).1.state ≡ c.state)
unfolding siw_recv_trp_rr
recv-keeps c d =
    check_rr-keeps c (min (length d) 528) (rr_of (take 16 d ++ drop (length d) (rr_bytes c.hdr)))
      (take 512 (drop 16 d))

released_unless :
    (r : Bool × Cep)
    → answers r.1.upcalls ≤ 1
    → (r.0 ≡ true → ToldOnce r.1)
    → ToldOnce (if r.0 then r.1 else release r.1)
unfolding release
released_unless (true, c) p f = f refl
released_unless (false, c) p f = omega (arith, p)

-- A read by an endpoint that waits for the reply.
reply-ToldOnce :
    (up : Bool) (qp : KernelQp) (c : Cep) (d : Bytes)
    → c.state ≡ CepState.await_mparep
    → ToldOnce c
    → ToldOnce (read_by_state up c qp d CepState.await_mparep)
unfolding read_by_state siw_proc_trpreply
reply-ToldOnce up qp c d s v =
    let got = siw_recv_trp_rr c d in
    let (told, on) = reply_received-told up got.0 qp got.1 in
    let none_yet : answers c.upcalls ≤ 0 = omega (arith, v, ap unanswered s) in
    let same = ap answers (recv-keeps c d).0 in
    released_unless (reply_received up qp got) (omega (arith, told, same, none_yet))
      (λ good. omega (arith, ap answers (on good).0, ap unanswered (on good).1, same, none_yet))

pub read-ToldOnce :
    (up : Bool) (qp : KernelQp) (c : Cep) (d : Bytes) (s : CepState)
    → c.state ≡ s
    → ToldOnce c
    → ToldOnce (read_by_state up c qp d s)
unfolding read_by_state
read-ToldOnce up qp c d s e v =
    elim s as (λ k. c.state ≡ k → ToldOnce (read_by_state up c qp d k)) [
      | CepState.await_mparep ↦ λ w. reply-ToldOnce up qp c d w v
      | _ ↦ λ w. v
    ]
      e
