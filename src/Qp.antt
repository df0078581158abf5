-- ===== src/Qp.antt =====
-- src/liburdma/interface.h and include/urdmad_private.h: the state of a queue pair and what it
-- owns. Work queue entries are named by their index in the storage of their queue, so that the
-- rings, the active list and the pending packets of one queue pair name the same entry; a list of
-- iovecs is the entry's iov array. The structures the queue pair shares with urdmad are the
-- record Shared. Locks are left out: each function here runs under the lock that it takes.
use urdma.Prelude.{ℕ, ◌==◌, if◌then◌else◌, Bool, List}
use urdma.Proto.{Bytes}
use urdma.Proto.Headers.{TrpHeader}
use urdma.Trp.{Endpoint, Pending}

-- enum urdma_qp_state
pub data ConnState : Type 0 where
  unbound connected running shutdown error : ConnState

-- The statuses and opcodes of completions that the program posts.
pub data WcStatus : Type 0 where
  success wr_flush_err rem_access_err retry_exc_err fatal_err : WcStatus

pub data WcOpcode : Type 0 where
  wc_send wc_rdma_write wc_rdma_read wc_recv : WcOpcode

-- enum usiw_send_opcode, enum usiw_send_wqe_state
pub data SendOpcode : Type 0 where
  wr_send wr_write wr_read : SendOpcode

pub data SendState : Type 0 where
  init transfer wait complete : SendState

pub record Iovec : Type 0 where
  pub base : ℕ
  pub len : ℕ

pub record SendWqe : Type 0 where
  pub opcode : SendOpcode
  pub wr_context : ℕ
  pub remote_addr : ℕ
  pub rkey : ℕ
  pub signaled : Bool  -- flags & usiw_send_signaled
  pub is_inline : Bool  -- flags & usiw_send_inline
  pub state : SendState
  pub msn : ℕ
  pub local_stag : ℕ
  pub total_length : ℕ
  pub bytes_sent : ℕ
  pub bytes_acked : ℕ
  pub iov : List Iovec
  pub inline_data : Bytes  -- the iov array read as bytes, for an inline request

pub record RecvWqe : Type 0 where
  pub wr_context : ℕ
  pub msn : ℕ
  pub complete : Bool
  pub total_request_size : ℕ
  pub recv_size : ℕ
  pub input_size : ℕ
  pub iov : List Iovec

pub record SendQueue : Type 0 where
  pub ring : List ℕ
  pub free_ring : List ℕ
  pub active : List ℕ
  pub max_wr : ℕ
  pub max_sge : ℕ
  pub max_inline : ℕ
  pub storage : ℕ → SendWqe

pub record RecvQueue : Type 0 where
  pub ring : List ℕ
  pub free_ring : List ℕ
  pub active : List ℕ
  pub next_msn : ℕ
  pub max_wr : ℕ
  pub max_sge : ℕ
  pub storage : ℕ → RecvWqe

-- struct usiw_wc
pub record Completion : Type 0 where
  pub wr_context : ℕ
  pub status : WcStatus
  pub opcode : WcOpcode
  pub byte_len : ℕ
  pub qp_num : ℕ

pub record CompletionQueue : Type 0 where
  pub cqe_ring : List ℕ
  pub free_ring : List ℕ
  pub storage : ℕ → Completion
  pub capacity : ℕ
  pub cq_id : ℕ
  pub notify_flag : Bool

pub record ReadResponse : Type 0 where
  pub vaddr : ℕ
  pub msg_size : ℕ
  pub sink_stag : ℕ
  pub sink_offset : ℕ
  pub active : Bool

-- A registered region: mr.rkey, mr.addr, mr.length and the access flags.
pub record MemoryRegion : Type 0 where
  pub rkey : ℕ
  pub addr : ℕ
  pub length : ℕ
  pub access : ℕ

-- The chains of the hash table, by bucket.
pub record MrTable : Type 0 where
  pub capacity : ℕ
  pub entries : ℕ → List MemoryRegion

-- A packet in the transmit queue, with the fields that the program fills in.
pub record Frame : Type 0 where
  pub dst_ether : ℕ
  pub ip_total_length : ℕ
  pub hdr_checksum : ℕ
  pub src_addr : ℕ
  pub dst_addr : ℕ
  pub src_port : ℕ
  pub dst_port : ℕ
  pub dgram_len : ℕ
  pub dgram_cksum : ℕ
  pub cksum_offloaded : Bool
  pub trp : TrpHeader
  pub segment : Bytes

-- struct urdmad_qp
pub record Shared : Type 0 where
  pub conn_state : ConnState
  pub ord_max : ℕ
  pub ird_max : ℕ
  pub local_udp_port : ℕ
  pub remote_udp_port : ℕ
  pub remote_ipv4_addr : ℕ
  pub remote_ether_addr : ℕ
  pub rx_burst_size : ℕ
  pub tx_burst_size : ℕ
  pub tx_desc_count : ℕ
  pub mtu : ℕ

-- The flags and the address of struct usiw_device.
pub record Device : Type 0 where
  pub checksum_offload : Bool
  pub fdir : Bool
  pub ipv4_addr : ℕ

pub record Stats : Type 0 where
  pub recv_psn_gap_count : ℕ
  pub recv_retransmit_count : ℕ
  pub recv_sack_count : ℕ

-- `txq` holds the frames from txq to txq_end, `wire` those that the NIC has taken; `tx_calls`
-- numbers the calls of rte_eth_tx_burst.
pub record Transmit : Type 0 where
  pub txq : List Frame
  pub wire : List Frame
  pub tx_calls : ℕ

-- struct usiw_qp. `cycles` is what the timer reads; `allocs` numbers the calls of
-- rte_pktmbuf_alloc for a header and `ddp_allocs` those for a segment; `mbufs` are the segments
-- by address; `memory` is the address space of the process; `events` are the CQ events written to event_fd.
pub record Qp : Type 0 where
  pub shm : Shared
  pub dev : Device
  pub qp_num : ℕ
  pub sig_all : Bool  -- qp_flags & usiw_qp_sig_all
  pub send_cq : ℕ
  pub recv_cq : ℕ
  pub cqs : ℕ → CompletionQueue
  pub tx : Transmit
  pub sq : SendQueue
  pub rq0 : RecvQueue
  pub readresp_store : ℕ → ReadResponse
  pub readresp_head_msn : ℕ
  pub ord_active : ℕ
  pub pd : MrTable
  pub remote_ep : Endpoint
  pub stats : Stats
  pub memory : ℕ → ℕ
  pub cycles : ℕ
  pub allocs : ℕ
  pub ddp_allocs : ℕ
  pub mbufs : ℕ → Pending
  pub events : List ℕ

-- A write at one index of an array.
abbrev pub update {ℓ} : {A : Type ℓ} → (ℕ → A) → ℕ → A → ℕ → A
update f i v j = if i == j then v else f j
