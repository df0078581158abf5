-- ===== src/Cm/QpState.antt =====
-- src/kmod/qp.c: siw_qp_modify for a mask with SIW_QP_ATTR_STATE, on a queue pair with an
-- endpoint. The flags for access, and unlinking the endpoint on the way from IDLE to ERROR, are
-- left out.
use urdma.Prelude.{arith, ℕ, ◌≡◌, Bool, true, false, some, if◌then◌else◌}
use urdma.Cm.{Cep, KernelQp, KernelQpState}
use urdma.Cm.Handshake.{modify_to_rts, past_rtr}
use urdma.Cm.Work.{siw_qp_cm_drop}

-- How a change of state goes: with or without a connection to drop, or with an error.
pub data Change : Type 0 where
  changes : KernelQp → Change
  drops_connection : KernelQp → Change
  refuses : Change

abbrev pub to_state : KernelQp → KernelQpState → KernelQp
to_state qp s = record qp { state = s }

-- The rows of IDLE and RTR; `full` is whether the mask has the socket, IRD and ORD.
unfoldable pub from_idle : Bool → KernelQp → KernelQp → Change
unfolding modify_to_rts
from_idle full qp attrs = elim attrs.state [
  | KernelQpState.rts ↦
      if full then changes (modify_to_rts qp attrs.irq_size attrs.orq_size) else refuses
  | KernelQpState.error ↦ changes (to_state qp KernelQpState.error)
  | KernelQpState.rtr ↦ changes (to_state qp KernelQpState.rtr)
  | _ ↦ changes qp
]

unfoldable pub from_rts : KernelQp → KernelQp → Change
from_rts qp attrs = elim attrs.state [
  | KernelQpState.closing ↦ drops_connection (to_state qp KernelQpState.closing)
  | KernelQpState.terminate ↦ drops_connection (to_state qp KernelQpState.terminate)
  | KernelQpState.error ↦ drops_connection (to_state qp KernelQpState.error)
  | _ ↦ changes qp
]

unfoldable pub from_terminate : KernelQp → KernelQp → Change
from_terminate qp attrs = elim attrs.state [
  | KernelQpState.error ↦ changes (to_state qp KernelQpState.error)
  | _ ↦ changes qp
]

unfoldable pub from_closing : KernelQp → KernelQp → Change
from_closing qp attrs = elim attrs.state [
  | KernelQpState.idle ↦ changes (to_state qp KernelQpState.idle)
  | KernelQpState.closing ↦ changes qp
  | KernelQpState.error ↦ changes (to_state qp KernelQpState.error)
  | _ ↦ refuses
]

unfoldable pub change_state : Bool → KernelQp → KernelQp → Change
unfolding from_idle from_rts from_terminate from_closing
change_state full qp attrs = elim qp.state [
  | KernelQpState.idle ↦ from_idle full qp attrs
  | KernelQpState.rtr ↦ from_idle full qp attrs
  | KernelQpState.rts ↦ from_rts qp attrs
  | KernelQpState.terminate ↦ from_terminate qp attrs
  | KernelQpState.closing ↦ from_closing qp attrs
  | _ ↦ changes qp
]

-- The step to RTS that siw_accept and siw_proc_trpreply take.
change_state-rts :
    (qp : KernelQp) (irq orq : ℕ)
    → past_rtr qp.state ≡ false
    → change_state true qp (record { state = KernelQpState.rts; irq_size = irq; orq_size = orq })
      ≡ changes (modify_to_rts qp irq orq)
unfolding change_state from_idle
change_state-rts qp irq orq e = grind (arith, e)

-- The endpoint sees the new state.
abbrev pub carried_out : Cep → KernelQp → Change → Bool × Cep
carried_out cep qp (changes qp') = (true, record cep { qp = some qp' })
carried_out cep qp (drops_connection qp') = (true, siw_qp_cm_drop (record cep { qp = some qp' }))
carried_out cep qp refuses = (false, record cep { qp = some qp })

-- The result is whether rv is 0.
unfoldable pub siw_qp_modify : Bool → Cep → KernelQp → KernelQp → Bool × Cep
unfolding change_state siw_qp_cm_drop
siw_qp_modify full cep qp attrs = carried_out cep qp (change_state full qp attrs)
