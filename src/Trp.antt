-- ===== src/Trp.antt =====
-- src/liburdma/interface.h: struct ee_state and struct pending_datagram_info, the state of the
-- transport (TRP) that a queue pair keeps for its remote end. The two bits of trp_flags are two
-- fields. `tx_pending` is the array of mbuf pointers as 64-bit words, 0 for NULL, and whatever
-- memory follows it; `tx_head` is the index that the pointer of that name points to. An mbuf is
-- the bytes of its DDP segment together with the pending_datagram_info that stands behind it.
pub mod Receive
pub mod Window
pub mod Refine
pub mod Once
use urdma.Prelude.{ℕ, Bool, Option}
use urdma.BinHeap.{BinHeap}
use urdma.Proto.{Bytes}

pub record Pending : Type 0 where
  pub next_retransmit : ℕ  -- uint64
  pub wqe : Option ℕ
  pub readresp : Option ℕ
  pub transmit_count : ℕ  -- uint16
  pub ddp_length : ℕ  -- uint16
  pub ddp_raw_cksum : ℕ  -- uint32
  pub psn : ℕ  -- uint32
  pub segment : Bytes

pub record Endpoint : Type 0 where
  pub expected_read_msn : ℕ
  pub next_send_msn : ℕ
  pub next_read_msn : ℕ
  pub send_last_acked_psn : ℕ
  pub send_next_psn : ℕ
  pub send_max_psn : ℕ
  pub recv_ack_psn : ℕ
  pub recv_rresp_last_psn : BinHeap
  pub recv_missing : Bool
  pub ack_update : Bool
  pub sack_min : ℕ
  pub sack_max : ℕ
  pub tx_pending : ℕ → ℕ
  pub tx_head : ℕ
  pub tx_pending_size : ℕ
