-- ===== src/Verbs/PostSendOrder.antt =====
-- src/liburdma/verbs.c: what usiw_post_send makes of the send queue. `lost` names the entries that
-- are in no ring and no list any more.
use urdma.Prelude.{
  ℕ, ◌<◌, ◌≤◌, ◌≢◌, ◌⊎◌, inl, inr, ◌≡◌, refl, ap, true, false, List, [], ◌∷◌, ◌++◌, map, arith,
  length,
}
use urdma.Prelude.Words.{u32_mod}
use urdma.Qp.{ConnState, Qp, SendWqe, SendQueue}
use urdma.Completion.Owned.{SendOwned}
use urdma.Verbs.Requests.{Ret, plus, minus, Errno, SendWr, WrOpcode, PostResult, accepted, refused}
use urdma.Verbs.Inline.{size_of}
use urdma.Verbs.Send.{sge_limit, is_closed}
use urdma.Verbs.PostSend.{InlineOk, AllRequested, BadSink}

abbrev pub pending_sends : SendQueue → List SendWqe
pending_sends s = map s.storage s.ring

-- The number of buffers that a request may have.
abbrev pub most_sges : WrOpcode → ℕ → ℕ
most_sges WrOpcode.rdma_read max_sge = 1
most_sges WrOpcode.send max_sge = max_sge
most_sges WrOpcode.rdma_write max_sge = max_sge
most_sges WrOpcode.unknown max_sge = max_sge

-- The limits on a request that is queued.
pub record Allowed (max_sge max_inline : ℕ) (wr : SendWr) : Type 0 where
  pub sges : length wr.sg_list ≤ most_sges wr.opcode max_sge
  pub inline_ok : InlineOk max_inline wr

abbrev pub AllAllowed : ℕ → ℕ → List SendWr → Type 0
AllAllowed max_sge max_inline [] = Unit
AllAllowed max_sge max_inline (wr ∷ wrs) =
    Allowed max_sge max_inline wr × AllAllowed max_sge max_inline wrs

-- The requests `wrs` wait behind those that did, each as it was asked for, and nothing but the
-- send queue is different. Each of them keeps to the limits.
pub record SendQueued (lost : List ℕ) (q : Qp) (wrs : List SendWr) (q' : Qp) : Type 0 where
  pub owned : SendOwned lost q'.sq
  pub new : List SendWqe
  pub waiting_then : pending_sends q'.sq ≡ pending_sends q.sq ++ new
  pub as_asked : AllRequested q.memory q.pd q.sig_all wrs new
  pub allowed : AllAllowed q.sq.max_sge q.sq.max_inline wrs
  pub max_sge : q'.sq.max_sge ≡ q.sq.max_sge
  pub max_inline : q'.sq.max_inline ≡ q.sq.max_inline
  pub active : q'.sq.active ≡ q.sq.active
  pub active_same : map q'.sq.storage q'.sq.active ≡ map q.sq.storage q.sq.active
  pub rest : q' ≡ record q { sq = q'.sq }

-- Why a request is refused, what is returned, and what becomes of the entry that was taken.
pub data Refusal (lost : List ℕ) (q : Qp) (wr : SendWr) : Qp → Ret → Type 0 where
  too_many_sges :
      most_sges wr.opcode q.sq.max_sge < length wr.sg_list → Refusal lost q wr q (plus Errno.einval)
  no_entry : q.sq.free_ring ≡ [] → Refusal lost q wr q (minus Errno.enospc)
  unknown_opcode :
      (q' : Qp)
      → wr.opcode ≡ WrOpcode.unknown
      → SendQueued lost q [] q'
      → Refusal lost q wr q' (plus Errno.eopnotsupp)
  unwritable_sink :
      (q' : Qp)
      → wr.opcode ≡ WrOpcode.rdma_read
      → wr.inline ≡ false
      → BadSink q.pd wr
      → SendQueued lost q [] q'
      → Refusal lost q wr q' (plus Errno.einval)
  inline_too_long :
      (q' : Qp) (i : ℕ)
      → wr.inline ≡ true
      → wr.opcode ≢ WrOpcode.rdma_read
      → q.sq.max_inline < size_of wr.sg_list
      → SendQueued (i ∷ lost) q [] q'
      → Refusal lost q wr q' (plus Errno.einval)
  read_inline :
      (q' : Qp) (i : ℕ)
      → wr.inline ≡ true
      → wr.opcode ≡ WrOpcode.rdma_read
      → SendQueued (i ∷ lost) q [] q'
      → Refusal lost q wr q' (plus Errno.einval)

-- What serving the requests one by one may come to.
pub data Served (lost : List ℕ) (q : Qp) (wrs : List SendWr) : PostResult SendWr → Type 0 where
  all_queued : (q' : Qp) → SendQueued lost q wrs q' → Served lost q wrs (accepted q')
  stopped :
      (before : List SendWr) (wr : SendWr) (bad : List SendWr) (q1 q' : Qp) (ret : Ret)
      → wrs ≡ before ++ wr ∷ bad
      → SendQueued lost q before q1
      → Refusal lost q1 wr q' ret
      → Served lost q wrs (refused q' ret (wr ∷ bad))

-- The states in which nothing is posted.
abbrev pub IsShut : ConnState → Type 0
IsShut s = (s ≡ ConnState.shutdown) ⊎ (s ≡ ConnState.error)

-- What a call may come to.
pub data SendOutcome (lost : List ℕ) (q : Qp) : List SendWr → PostResult SendWr → Type 0 where
  nothing_posted : SendOutcome lost q [] (refused q (plus Errno.einval) [])
  closed :
      (wr : SendWr) (wrs : List SendWr)
      → IsShut q.shm.conn_state
      → SendOutcome lost q (wr ∷ wrs) (refused q (plus Errno.einval) (wr ∷ wrs))
  serves :
      (wr : SendWr) (wrs : List SendWr) (r : PostResult SendWr)
      → ¬ IsShut q.shm.conn_state
      → Served lost q (wr ∷ wrs) r
      → SendOutcome lost q (wr ∷ wrs) r

pub is_closed-IsShut : (s : ConnState) → is_closed s ≡ true → IsShut s
is_closed-IsShut ConnState.shutdown e = inl refl
is_closed-IsShut ConnState.error e = inr refl
is_closed-IsShut ConnState.unbound e = absurd (ground (arith, e))
is_closed-IsShut ConnState.connected e = absurd (ground (arith, e))
is_closed-IsShut ConnState.running e = absurd (ground (arith, e))

pub not_closed-IsShut : (s : ConnState) → is_closed s ≡ false → ¬ IsShut s
not_closed-IsShut s e (inl shut) = absurd (ground (arith, e, ap is_closed shut))
not_closed-IsShut s e (inr shut) = absurd (ground (arith, e, ap is_closed shut))

pub sge_limit-most : (q : Qp) (op : WrOpcode) → sge_limit q op ≡ most_sges op q.sq.max_sge
sge_limit-most q WrOpcode.rdma_read = refl
sge_limit-most q WrOpcode.send = refl
sge_limit-most q WrOpcode.rdma_write = refl
sge_limit-most q WrOpcode.unknown = refl

abbrev pub AllSmall : List SendWr → Type 0
AllSmall [] = Unit
AllSmall (wr ∷ wrs) = (size_of wr.sg_list < u32_mod) × AllSmall wrs
