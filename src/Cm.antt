-- ===== src/Cm.antt =====
-- src/kmod/cm.c and src/kmod/cm.h: the connection manager of the kernel module. A connection
-- endpoint (struct siw_cep) is a record that the handlers pass on; each handler runs with the
-- endpoint in use. Results of the kernel's socket calls and of the event handler of the IWCM are
-- inputs. Reference counts, the allocation of work items and logging are left out.
pub mod Messages
pub mod Handshake
pub mod Passive
pub mod QpState
pub mod Negotiation
pub mod Life
pub mod Answers
pub mod Replies
pub mod Told
pub mod Work
pub mod Wire
use urdma.Prelude.{false, none, ℕ, zero, suc, ◌+◌, Bool, Option, List, [], ◌∷◌, ◌++◌}
use urdma.Proto.{Bytes}

-- enum siw_cep_state
pub data CepState : Type 0 where
  idle listening connecting await_mpareq recvd_mpareq : CepState
  await_mparep recvd_mparep accepting rdma_mode closed : CepState

-- enum siw_qp_state
pub data KernelQpState : Type 0 where
  idle rtr rts closing terminate error moribund undef : KernelQpState

-- struct siw_qp_attrs
pub record KernelQp : Type 0 where
  pub state : KernelQpState
  pub irq_size : ℕ
  pub orq_size : ℕ

-- struct trp_rr, in host byte order.
pub record RequestReply : Type 0 where
  pub psn : ℕ
  pub ack_psn : ℕ
  pub opcode : ℕ
  pub pd_len : ℕ
  pub ird : ℕ
  pub ord : ℕ

-- enum iw_cm_event_type, as far as the program reports them, and the statuses that go with them.
pub data CmEvent : Type 0 where
  connect_request connect_reply established disconnect close : CmEvent

pub data CmStatus : Type 0 where
  good econnreset einval etimedout econnaborted : CmStatus

-- struct iw_cm_event
pub record Upcall : Type 0 where
  pub event : CmEvent
  pub status : CmStatus
  pub private_data_len : ℕ

-- struct siw_cep. `timer`, `cm_id` and `sock` are whether the pointer is set, max_ird and max_ord
-- the attributes of the device; `sent` are the datagrams given to the socket, `upcalls` the events
-- given to the IWCM, in order.
pub record Cep : Type 0 where
  pub state : CepState
  pub hdr : RequestReply
  pub pdata : Bytes
  pub send_pdata : Bytes
  pub ird : ℕ
  pub ord : ℕ
  pub timer : Bool
  pub cm_id : Bool
  pub sock : Bool
  pub qp : Option KernelQp
  pub max_ird : ℕ
  pub max_ord : ℕ
  pub sent : List Bytes
  pub upcalls : List Upcall
  pub released : List KernelQp

abbrev pub trp_req : ℕ
trp_req = 0x1000

abbrev pub trp_accept : ℕ
trp_accept = 0x2000

abbrev pub trp_reject : ℕ
trp_reject = 0x3000

abbrev pub pdata_len_max : ℕ
pdata_len_max = 512

-- The length of the private data goes with a request or a reply.
abbrev pub event_len : CmEvent → ℕ → ℕ
event_len CmEvent.connect_request len = len
event_len CmEvent.connect_reply len = len
event_len CmEvent.established len = 0
event_len CmEvent.disconnect len = 0
event_len CmEvent.close len = 0

-- A new endpoint is zeroed.
abbrev pub siw_cep_alloc : ℕ → ℕ → Cep
siw_cep_alloc max_ird max_ord = record {
  state = CepState.idle;
  hdr = record { psn = 0; ack_psn = 0; opcode = 0; pd_len = 0; ird = 0; ord = 0 };
  pdata = [];
  send_pdata = [];
  ird = max_ird;
  ord = max_ord;
  timer = false;
  cm_id = false;
  sock = false;
  qp = none;
  max_ird = max_ird;
  max_ord = max_ord;
  sent = [];
  upcalls = [];
  released = [];
}

unfoldable pub siw_cm_upcall : Cep → CmEvent → CmStatus → Cep
siw_cm_upcall cep event status = record cep {
  upcalls =
      cep.upcalls
      ++ (record {
        event = event;
        status = status;
        private_data_len = event_len event cep.hdr.pd_len;
      })
        ∷ [];
}
