-- ===== src/Tests/Scenario.antt =====
-- Concrete values for the tests: a host that behaves as DPDK documents, and a queue pair with two
-- segments in flight, two receive requests outstanding and one waiting.
use urdma.Prelude.{
  ℕ, ◌+◌, ◌-◌, ◌*◌, ◌/◌, ◌%◌, ◌^◌, refl, true, false, none, some, [], ◌∷◌, ◌++◌, ltb, ◌==◌,
  if◌then◌else◌, length, take, drop, min, arith,
}
use urdma.Host.{Host, Laws, TxProgress, erase, head?, uncons}
use urdma.BinHeap.{BinHeap}
use urdma.Proto.{Bytes}
use urdma.Trp.{Endpoint, Pending}
use urdma.Transmission.Ring.{InFlight, IsFresh}
use urdma.Qp.{
  Qp, Transmit, ConnState, WcStatus, WcOpcode, SendOpcode, SendState, SendWqe, RecvWqe, Completion,
  CompletionQueue, MemoryRegion, MrTable,
}

abbrev pub host : Host
host = record {
  ring_enqueue = λ n r x. if ltb (length r) n then some (r ++ x ∷ []) else none;
  ring_dequeue = uncons;
  ring_enqueue_burst = λ n r xs. (r ++ take (n - length r) xs, min (n - length r) (length xs));
  ring_dequeue_burst = λ r n. (take n r, drop n r);
  list_add_tail = λ l x. l ++ x ∷ [];
  list_del = erase;
  list_top = head?;
  raw_cksum = λ b. length b;
  ipv4_cksum = λ len src dst. (len + src + dst) % 2 ^ 16;
  phdr_cksum = λ len src dst offload. (len + src + dst) % 2 ^ 16;
  cpu_to_be_16 = λ w. w % 2 ^ 8 * 2 ^ 8 + w / 2 ^ 8 % 2 ^ 8;
  timer_hz = 1000;
  tx_burst = λ call n. n;
  hdr_alloc = λ call. true;
  ddp_alloc = λ call. call + 1;
}

pub host-Laws : Laws host
host-Laws = record {
  enqueue = λ n r x. refl;
  dequeue = λ r. refl;
  enqueue_burst = λ n r xs. refl;
  dequeue_burst = λ r n. refl;
  add_tail = λ l x. refl;
  del = λ l x. refl;
  top = λ l. refl;
  tx_most = λ call n. omega arith;
}

pub host_progress : TxProgress host
host_progress call n p = p

abbrev pub segment : Bytes
segment = 1 ∷ 2 ∷ 3 ∷ []

-- The mbuf at address a carries the segment numbered a - 1.
abbrev pub pending : ℕ → Pending
pending a = record {
  next_retransmit = 0;
  wqe = some 0;
  readresp = none;
  transmit_count = 1;
  ddp_length = 3;
  ddp_raw_cksum = 6;
  psn = a - 1;
  segment = segment;
}

abbrev pub heap : BinHeap
heap = record {
  capacity = 4;
  size = 3;
  arr = λ i. if i == 0 then 2 else if i == 1 then 5 else if i == 2 then 3 else 0;
}

abbrev pub endpoint : Endpoint
endpoint = record {
  expected_read_msn = 1;
  next_send_msn = 1;
  next_read_msn = 1;
  send_last_acked_psn = 1;
  send_next_psn = 2;
  send_max_psn = 4;
  recv_ack_psn = 7;
  recv_rresp_last_psn = heap;
  recv_missing = false;
  ack_update = false;
  sack_min = 0;
  sack_max = 0;
  tx_pending = λ i. if i == 0 then 1 else if i == 1 then 2 else 0;
  tx_head = 0;
  tx_pending_size = 4;
}

abbrev pub send_wqe : ℕ → SendWqe
send_wqe i = record {
  opcode = SendOpcode.wr_send;
  wr_context = 100 + i;
  remote_addr = 0;
  rkey = 0;
  signaled = true;
  is_inline = false;
  state = SendState.transfer;
  msn = 1;
  local_stag = 0;
  total_length = 6;
  bytes_sent = 6;
  bytes_acked = 0;
  iov = (record { base = 1000; len = 2 }) ∷ (record { base = 2000; len = 4 }) ∷ [];
  inline_data = [];
}

abbrev pub recv_wqe : ℕ → RecvWqe
recv_wqe i = record {
  wr_context = 200 + i;
  msn = i + 1;
  complete = false;
  total_request_size = 8;
  recv_size = 0;
  input_size = 0;
  iov = (record { base = 3000 + 8 * i; len = 8 }) ∷ [];
}

abbrev pub no_completion : Completion
no_completion = record {
  wr_context = 0;
  status = WcStatus.success;
  opcode = WcOpcode.wc_recv;
  byte_len = 0;
  qp_num = 0;
}

abbrev pub cq : ℕ → CompletionQueue
cq i = record {
  cqe_ring = 0 ∷ [];
  free_ring = 1 ∷ 2 ∷ 3 ∷ [];
  storage = λ j. no_completion;
  capacity = 4;
  cq_id = i;
  notify_flag = false;
}

abbrev pub region : MemoryRegion
region = record { rkey = 5; addr = 1000; length = 64; access = 0 }

abbrev pub regions : MrTable
regions = record {
  capacity = 4;
  entries = λ b. if b == 1 then (record region { rkey = 9 }) ∷ region ∷ [] else [];
}

abbrev pub transmit : Transmit
transmit = record { txq = []; wire = []; tx_calls = 0 }

abbrev pub qp : Qp
qp = record {
  shm = record {
    conn_state = ConnState.running;
    ord_max = 4;
    ird_max = 4;
    local_udp_port = 4791;
    remote_udp_port = 4792;
    remote_ipv4_addr = 2;
    remote_ether_addr = 3;
    rx_burst_size = 8;
    tx_burst_size = 2;
    tx_desc_count = 8;
    mtu = 4;
  };
  dev = record { checksum_offload = false; fdir = true; ipv4_addr = 1 };
  qp_num = 1;
  sig_all = false;
  send_cq = 0;
  recv_cq = 1;
  cqs = cq;
  tx = transmit;
  sq = record {
    ring = [];
    free_ring = 1 ∷ 2 ∷ 3 ∷ [];
    active = 0 ∷ [];
    max_wr = 4;
    max_sge = 3;
    max_inline = 48;
    storage = send_wqe;
  };
  rq0 = record {
    ring = 2 ∷ [];
    free_ring = 3 ∷ [];
    active = 0 ∷ 1 ∷ [];
    next_msn = 3;
    max_wr = 4;
    max_sge = 3;
    storage = recv_wqe;
  };
  readresp_store =
      λ i. record { vaddr = 0; msg_size = 0; sink_stag = 0; sink_offset = 0; active = false };
  readresp_head_msn = 1;
  ord_active = 0;
  pd = regions;
  remote_ep = endpoint;
  stats = record { recv_psn_gap_count = 0; recv_retransmit_count = 0; recv_sack_count = 0 };
  memory = λ a. a % 256;
  cycles = 0;
  allocs = 0;
  ddp_allocs = 2;
  mbufs = pending;
  events = [];
}

-- The segments 0 and 1 are in flight.
pub qp-InFlight : InFlight endpoint pending 2 0 2
qp-InFlight = record {
  size = refl;
  small = omega arith;
  order = omega arith;
  fits = omega arith;
  next = refl;
  head = refl;
  held = λ m p r. ground arith;
  free = λ m p r. ground arith;
}

pub third_mbuf-IsFresh : IsFresh endpoint 2 3
third_mbuf-IsFresh = record { some_address = omega arith; new = λ i p. ground arith }
