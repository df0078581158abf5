-- ===== src/Tests/Cm.antt =====
-- A connection of two endpoints of src/kmod/cm.c.
use urdma.Prelude.{ℕ, ◌%◌, ◌/◌, ◌*◌, ◌+◌, ◌≡◌, refl, true, Option, none, some, [], ◌∷◌, arith}
use urdma.Proto.{Bytes}
use urdma.Cm.{siw_cep_alloc, siw_cm_upcall, Cep, KernelQp, KernelQpState}
use urdma.Cm.Messages.{check_rr, rr_of, siw_send_trpreqrep, siw_recv_trp_rr, rr_bytes}
use urdma.Cm.Handshake.{
  accept_message, modify_to_rts, rtr_by_state, reply_received, siw_connect, siw_proc_trpreply,
  siw_qp_rtr,
}
use urdma.Cm.Passive.{request_received, accept_open, siw_proc_trpreq, siw_accept}
use urdma.Cm.Work.{siw_cm_work_handler, read_mpahdr}
use urdma.Cm.Wire.{recv-send, message, delivered}
use urdma.Cm.Negotiation.{requester, negotiated, Agreed}
use urdma.Cm.Life.{connected, next, works, becomes_ready}
use urdma.Cm.Answers.{ToldOnce}
use urdma.Cm.Told.{Reach-ToldOnce}

abbrev endpoint : Cep
endpoint = siw_cep_alloc 16 16

abbrev idle_qp : KernelQp
idle_qp = record { state = KernelQpState.idle; irq_size = 0; orq_size = 0 }

-- A htons of a little-endian machine.
abbrev swapped : ℕ → ℕ
swapped n = n % 256 * 256 + n / 256

abbrev or_idle : Option Cep → Cep
or_idle none = endpoint
or_idle (some c) = c

abbrev two_bytes : Bytes
two_bytes = 7 ∷ 9 ∷ []

abbrev request : Bytes
request = message (requester endpoint 8 4) two_bytes

recv-send_example :
    ((siw_send_trpreqrep true (requester endpoint 8 4) two_bytes).sent ≡ request ∷ [])
    × (siw_recv_trp_rr endpoint request
        ≡ (true, delivered (requester endpoint 8 4) endpoint two_bytes))
recv-send_example = recv-send (requester endpoint 8 4) endpoint two_bytes (record {
  psn = omega arith;
  ack_psn = omega arith;
  opcode = omega arith;
  ird = omega arith;
  ord = omega arith;
})

abbrev client : Cep
client = or_idle (siw_connect true endpoint idle_qp 8 4 two_bytes)

abbrev taken : Cep
taken = (siw_proc_trpreq swapped true true endpoint request).1

abbrev accepted : Cep
accepted = (siw_accept true true taken idle_qp 6 5 []).1

abbrev reply : Bytes
reply = message (accept_message accepted) []

abbrev established : Cep
established = (siw_proc_trpreply true client idle_qp reply).1

negotiated_example : Agreed 8 4 established.qp accepted.qp
unfolding siw_connect siw_send_trpreqrep rr_bytes siw_proc_trpreq request_received siw_recv_trp_rr
    check_rr rr_of siw_accept accept_open modify_to_rts siw_qp_rtr rtr_by_state siw_cm_upcall
    siw_proc_trpreply reply_received
negotiated_example =
    negotiated swapped true true true endpoint endpoint client taken accepted established idle_qp
      idle_qp 8 4 6 5 two_bytes [] request reply refl refl refl refl refl refl

Reach-ToldOnce_example :
    ToldOnce (siw_qp_rtr true true (siw_cm_work_handler true idle_qp client (read_mpahdr reply)))
unfolding siw_connect siw_send_trpreqrep
Reach-ToldOnce_example =
    Reach-ToldOnce
      (siw_qp_rtr true true (siw_cm_work_handler true idle_qp client (read_mpahdr reply)))
      (next
        (next (connected 16 16 client true idle_qp 8 4 two_bytes refl)
          (works client true idle_qp (read_mpahdr reply)))
        (becomes_ready (siw_cm_work_handler true idle_qp client (read_mpahdr reply)) true))
