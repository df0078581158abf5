-- ===== src/Packet/Duplicates.antt =====
-- src/liburdma/interface.c: process_data_packet for a packet that was received before.
use mathlib.Core.Path.{subst}
use urdma.Prelude.{ℕ, ◌%◌, ◌≡◌, refl, sym, ◌∙◌, ap, true, false, arith, leb, Bool-cases, inl, inr}
use urdma.Prelude.Words.{u32_mod}
use urdma.Host.{Host}
use urdma.Proto
use urdma.Trp.{Endpoint}
use urdma.Trp.Receive.{is_accepted, receive_psn}
use urdma.Trp.Window.{Window, received, arrive, IsWindow, Represents, InReach}
use urdma.Trp.Refine.{receive_psn-refines}
use urdma.Qp.{Qp}
use urdma.Packet.{Packet, take_ack, process_normal, process_data_packet}

-- Nothing but the transport state and the counters differs.
pub record Ignored (q q' : Qp) : Type 0 where
  pub memory : q'.memory ≡ q.memory
  pub sq : q'.sq ≡ q.sq
  pub rq0 : q'.rq0 ≡ q.rq0
  pub cqs : q'.cqs ≡ q.cqs
  pub tx : q'.tx ≡ q.tx
  pub readresp_store : q'.readresp_store ≡ q.readresp_store
  pub shm : q'.shm ≡ q.shm

take_ack-Represents :
    (e : Endpoint) (w : Window) (ack : ℕ) → Represents e w → Represents (take_ack e ack) w
unfolding take_ack
take_ack-Represents e w ack r = record { ack = r.ack; missing = r.missing; lo = r.lo; hi = r.hi }

arrive-duplicate : (w : Window) (n : ℕ) → received w n ≡ true → (arrive w n).1 ≡ false
unfolding arrive
arrive-duplicate w n e = rw e refl

normal-Ignored :
    (h : Host) (q : Qp) (p : Packet)
    → is_accepted (receive_psn (take_ack q.remote_ep p.trp.ack_psn) p.trp.psn).1 ≡ false
    → Ignored q (process_normal h q p)
unfolding process_normal
normal-Ignored h q p e = elim (Bool-cases (leb p.dgram_len 18)) [
  | inl bare ↦ rw bare (record {
    memory = refl;
    sq = refl;
    rq0 = refl;
    cqs = refl;
    tx = refl;
    readresp_store = refl;
    shm = refl;
  })
  | inr some_segment ↦
      rw (some_segment, e)
        (record {
          memory = refl;
          sq = refl;
          rq0 = refl;
          cqs = refl;
          tx = refl;
          readresp_store = refl;
          shm = refl;
        })
]

data_packet-normal :
    (h : Host) (q : Qp) (p : Packet)
    → p.cksum_bad ≡ false
    → Proto.trp_opcode_of p.trp.opcode ≡ 0
    → process_data_packet h q p ≡ process_normal h q p
unfolding process_data_packet
data_packet-normal h q p good op = ground (arith, good, op)

-- Let the receive state stand for a window, and let a data packet arrive within reach of it whose
-- number was received before. Then process_data_packet writes no memory, changes no work queue,
-- completion queue or read response, and sends nothing.
pub process_data_packet-duplicate :
    (h : Host) (q : Qp) (p : Packet) (w : Window) (n : ℕ)
    → Represents q.remote_ep w
    → IsWindow w
    → InReach w n
    → received w n ≡ true
    → p.trp.psn ≡ n % u32_mod
    → p.cksum_bad ≡ false
    → Proto.trp_opcode_of p.trp.opcode ≡ 0
    → Ignored q (process_data_packet h q p)
process_data_packet-duplicate h q p w n r v close old psn good op =
    let e = take_ack q.remote_ep p.trp.ack_psn in
    let s = receive_psn-refines e w n (take_ack-Represents q.remote_ep w p.trp.ack_psn r) v close in
    let dropped : is_accepted (receive_psn e p.trp.psn).1 ≡ false =
      ap (λ x. is_accepted (receive_psn e x).1) psn ∙ s.verdict ∙ arrive-duplicate w n old in
    subst (λ x. Ignored q x) (sym (data_packet-normal h q p good op)) (normal-Ignored h q p dropped)
