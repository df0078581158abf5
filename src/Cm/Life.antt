-- ===== src/Cm/Life.antt =====
-- src/kmod/cm.c: the life of an endpoint, from siw_connect or siw_accept_newconn on, as a sequence
-- of calls. Each call runs with the endpoint in use, so they do not overlap. The event handler of
-- the IWCM takes the events that say a connection is up.
use urdma.Prelude.{ℕ, Bool, true, some, ◌≡◌}
use urdma.Proto.{Bytes}
use urdma.Cm.QpState.{siw_qp_modify}
use urdma.Cm.{siw_cep_alloc, Cep, CepState, KernelQp}
use urdma.Cm.Handshake.{siw_connect, siw_qp_rtr, siw_qp_rtr_fail}
use urdma.Cm.Passive.{siw_accept, siw_reject}
use urdma.Cm.Work.{Work, siw_accept_newconn, siw_cm_work_handler, siw_qp_cm_drop}

-- The IWCM accepts a request once.
pub data Step : Cep → Cep → Type 0 where
  works :
      (c : Cep) (connects : Bool) (qp : KernelQp) (work : Work)
      → Step c (siw_cm_work_handler connects qp c work)
  drops : (c : Cep) → Step c (siw_qp_cm_drop c)
  becomes_ready : (c : Cep) (sends : Bool) → Step c (siw_qp_rtr sends true c)
  fails : (c : Cep) → Step c (siw_qp_rtr_fail c)
  accepts :
      (c : Cep) (connects memory_left : Bool) (qp : KernelQp) (ird ord : ℕ) (pdata : Bytes)
      → c.state ≡ CepState.recvd_mpareq
      → Step c (siw_accept connects memory_left c qp ird ord pdata).1
  modifies :
      (c : Cep) (full : Bool) (qp attrs : KernelQp) → Step c (siw_qp_modify full c qp attrs).1
  rejects : (c : Cep) (sends : Bool) (pdata : Bytes) → Step c (siw_reject sends c pdata)

-- Both start with an endpoint that siw_cep_alloc made.
pub data Reach : Cep → Type 0 where
  connected :
      (max_ird max_ord : ℕ) (c : Cep) (sends : Bool) (qp : KernelQp) (ird ord : ℕ) (pdata : Bytes)
      → siw_connect sends (siw_cep_alloc max_ird max_ord) qp ird ord pdata ≡ some c
      → Reach c
  arrived :
      (htons : ℕ → ℕ) (sends handled : Bool) (listener c : Cep) (datagram : Bytes)
      → siw_accept_newconn htons sends handled listener datagram ≡ some c
      → Reach c
  next : {c c' : Cep} → Reach c → Step c c' → Reach c'
