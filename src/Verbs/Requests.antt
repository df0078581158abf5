-- ===== src/Verbs/Requests.antt =====
-- The arguments and results of the posting verbs: the work requests of libibverbs with the fields
-- that src/liburdma/verbs.c reads, and what a call returns. A list stands for the chain of work
-- requests; the length of sg_list is num_sge.
use urdma.Prelude.{ℕ, ◌+◌, Bool, List, [], ◌∷◌}
use urdma.Prelude.Words.{u64}
use urdma.Qp.{Qp, Iovec}

-- The error numbers that the verbs return.
pub data Errno : Type 0 where
  einval enospc eopnotsupp : Errno

-- Some verbs return an error number as it is, some negated.
pub data Ret : Type 0 where
  plus : Errno → Ret
  minus : Errno → Ret

-- enum ibv_wr_opcode; the opcodes that the program does not know are one.
pub data WrOpcode : Type 0 where
  send rdma_write rdma_read unknown : WrOpcode

-- struct ibv_send_wr. `lkey` is sg_list[0].lkey, which is read for an RDMA READ even if num_sge
-- is 0.
pub record SendWr : Type 0 where
  pub wr_id : ℕ
  pub opcode : WrOpcode
  pub signaled : Bool  -- send_flags & IBV_SEND_SIGNALED
  pub inline : Bool  -- send_flags & IBV_SEND_INLINE
  pub sg_list : List Iovec
  pub lkey : ℕ
  pub remote_addr : ℕ
  pub rkey : ℕ

-- struct ibv_recv_wr
pub record RecvWr : Type 0 where
  pub wr_id : ℕ
  pub sg_list : List Iovec

-- What a chain of requests comes to: all are accepted, or one is refused, with the return value
-- and *bad_wr.
pub data PostResult (Wr : Type 0) : Type 0 where
  accepted : Qp → PostResult Wr
  refused : Qp → Ret → List Wr → PostResult Wr

-- What posting one request through the accelerated interface comes to.
pub data AcclResult : Type 0 where
  done : Qp → AcclResult
  failed : Ret → AcclResult

-- The sum of the lengths, in a size_t.
abbrev pub total : ℕ → List Iovec → ℕ
total acc [] = acc
total acc (v ∷ vs) = total (u64 (acc + v.len)) vs
