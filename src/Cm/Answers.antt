-- ===== src/Cm/Answers.antt =====
-- src/kmod/cm.c: the events that tell the IWCM how a connection went, and what the calls that close
-- an endpoint add to them.
use urdma.Prelude.{ℕ, ◌+◌, ◌≤◌, ◌≡◌, List, [], ◌∷◌, ◌++◌, arith}
use urdma.Cm.{Cep, CepState, CmEvent, CmStatus, Upcall, siw_cm_upcall}
use urdma.Cm.Handshake.{rtr_fail_upcall, without_private_data}
use urdma.Cm.Work.{peer_close_upcalls, timeout_upcalls, drop_upcalls, if_cm_id}

-- The events that say how a connection went.
abbrev pub is_answer : CmEvent → ℕ
is_answer CmEvent.connect_request = 0
is_answer CmEvent.connect_reply = 1
is_answer CmEvent.established = 1
is_answer CmEvent.disconnect = 0
is_answer CmEvent.close = 0

unfoldable pub answers : List Upcall → ℕ
answers [] = 0
answers (u ∷ us) = is_answer u.event + answers us

-- The states in which the answer is still to come.
abbrev pub unanswered : CepState → ℕ
unanswered CepState.idle = 1
unanswered CepState.listening = 1
unanswered CepState.connecting = 1
unanswered CepState.await_mpareq = 1
unanswered CepState.recvd_mpareq = 1
unanswered CepState.await_mparep = 1
unanswered CepState.recvd_mparep = 1
unanswered CepState.accepting = 1
unanswered CepState.rdma_mode = 0
unanswered CepState.closed = 0

-- At most one answer, and none while it is still to come.
abbrev pub ToldOnce : Cep → Type 0
ToldOnce c = answers c.upcalls + unanswered c.state ≤ 1

answers-append :
    (us : List Upcall) (u : Upcall) → answers (us ++ u ∷ []) ≡ answers us + is_answer u.event
unfolding answers
answers-append [] u = omega arith
answers-append (v ∷ us) u = omega (arith, answers-append us u)

pub answers-told :
    (c : Cep) (event : CmEvent) (status : CmStatus)
    → answers (siw_cm_upcall c event status).upcalls ≡ answers c.upcalls + is_answer event
unfolding siw_cm_upcall
answers-told c event status = answers-append c.upcalls _

-- Whoever closes the endpoint may have told one answer more, if one was to come.
abbrev pub Closing : Cep → CepState → Cep → Type 0
Closing c s told = answers told.upcalls ≤ answers c.upcalls + unanswered s

pub if_cm_id-Closing :
    (c told : Cep) (s : CepState) → Closing c s told → Closing c s (if_cm_id c told)
if_cm_id-Closing c told s p = ground (arith, p)

pub peer_close-Closing : (c : Cep) (s : CepState) → Closing c s (peer_close_upcalls c s)
unfolding peer_close_upcalls
peer_close-Closing c s = elim s as (λ k. Closing c k (peer_close_upcalls c k)) [
  | CepState.await_mparep ↦ omega (arith, answers-told c CmEvent.connect_reply CmStatus.econnreset)
  | CepState.rdma_mode ↦
      let told = siw_cm_upcall c CmEvent.disconnect CmStatus.good in
      omega (
        arith,
        answers-told c CmEvent.disconnect CmStatus.good,
        answers-told told CmEvent.close CmStatus.good,
      )
  | _ ↦ omega arith
]

pub timeout-Closing : (c : Cep) (s : CepState) → Closing c s (timeout_upcalls c s)
unfolding timeout_upcalls
timeout-Closing c s = elim s as (λ k. Closing c k (timeout_upcalls c k)) [
  | CepState.await_mparep ↦
      let c1 = without_private_data c in
      if_cm_id-Closing c1 (siw_cm_upcall c1 CmEvent.connect_reply CmStatus.etimedout)
        CepState.await_mparep
        (omega (arith, answers-told c1 CmEvent.connect_reply CmStatus.etimedout))
  | CepState.recvd_mparep ↦ omega (arith, answers-told c CmEvent.connect_reply CmStatus.etimedout)
  | CepState.accepting ↦ omega (arith, answers-told c CmEvent.established CmStatus.etimedout)
  | _ ↦ omega arith
]

pub drop-Closing : (c : Cep) (s : CepState) → Closing c s (drop_upcalls c s)
unfolding drop_upcalls
drop-Closing c s = elim s as (λ k. Closing c k (drop_upcalls c k)) [
  | CepState.await_mparep ↦ omega (arith, answers-told c CmEvent.connect_reply CmStatus.einval)
  | CepState.rdma_mode ↦ omega (arith, answers-told c CmEvent.close CmStatus.good)
  | _ ↦ omega arith
]

pub rtr_fail-Closing : (c : Cep) (s : CepState) → Closing c s (rtr_fail_upcall c s)
unfolding rtr_fail_upcall
rtr_fail-Closing c s = elim s as (λ k. Closing c k (rtr_fail_upcall c k)) [
  | CepState.accepting ↦ omega (arith, answers-told c CmEvent.established CmStatus.econnaborted)
  | CepState.recvd_mparep ↦
      omega (arith, answers-told c CmEvent.connect_reply CmStatus.econnaborted)
  | _ ↦ omega arith
]
