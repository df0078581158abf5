-- ===== src/Verbs/PostSend.antt =====
-- src/liburdma/verbs.c: usiw_post_send against the queue of requests that it promises. `lost`
-- names the entries that are in no ring and no list any more.
use urdma.Prelude.{
  ℕ, ◌+◌, ◌<◌, ◌≤◌, ◌≡◌, ◌≢◌, ◌/◌, ◌%◌, refl, sym, ap, ◌∙◌, Bool, true, false, ◌||◌, Option, none,
  some, List, [], ◌∷◌, map, arith, take, take_all, length-map, ◌⊎◌, if◌then◌else◌,
}
use native.Mathlib.Nat.{mod-eq_of_lt}
use urdma.Prelude.Words.{u32_mod, u64, u64_mod}
use urdma.Proto.{Bytes}
use urdma.Qp.{Qp, Iovec, SendWqe, SendOpcode, SendState, MemoryRegion, MrTable}
use urdma.Iov.{Memory}
use urdma.Iov.Copy.{addresses}
use urdma.Region.{usiw_mr_lookup}
use urdma.Verbs.Requests.{Errno, SendWr, WrOpcode, total}
use urdma.Verbs.Inline.{size_of, size-cons}
use urdma.Verbs.Send.{Prepared, ready, put_back, kept, send_entry}

abbrev pub opcode_of : WrOpcode → Option SendOpcode
opcode_of WrOpcode.send = some SendOpcode.wr_send
opcode_of WrOpcode.rdma_write = some SendOpcode.wr_write
opcode_of WrOpcode.rdma_read = some SendOpcode.wr_read
opcode_of WrOpcode.unknown = none

-- The remote address and key that an opcode uses.
abbrev pub target_of : WrOpcode → ℕ → ℕ → Option (ℕ × ℕ)
target_of WrOpcode.rdma_write addr rkey = some (addr, rkey)
target_of WrOpcode.rdma_read addr rkey = some (addr, rkey)
target_of WrOpcode.send addr rkey = none
target_of WrOpcode.unknown addr rkey = none

-- IBV_ACCESS_REMOTE_WRITE, the bit of weight 2.
abbrev pub write_bit : MemoryRegion → ℕ
write_bit mr = mr.access / 2 % 2

-- The region that an RDMA READ is placed in is registered and may be written.
abbrev pub SinkOk : MrTable → SendWr → SendWqe → WrOpcode → Type 0
SinkOk pd wr w WrOpcode.rdma_read =
    (mr : MemoryRegion) × (usiw_mr_lookup pd wr.lkey ≡ some mr)
    × (write_bit mr ≡ 1)
    × (w.local_stag ≡ mr.rkey)
SinkOk pd wr w WrOpcode.send = Unit
SinkOk pd wr w WrOpcode.rdma_write = Unit
SinkOk pd wr w WrOpcode.unknown = Unit

-- The bytes that a request sends out of a memory.
abbrev pub message_of : Memory → SendWqe → Bytes
message_of m w = if w.is_inline then w.inline_data else map m (addresses w.iov)

-- An entry as the request asks for it, with nothing sent yet. Its message is the bytes that the
-- buffers hold.
pub record Requested (m : Memory) (pd : MrTable) (sig_all : Bool) (wr : SendWr) (w : SendWqe)
    : Type 0 where
  pub context : w.wr_context ≡ wr.wr_id
  pub opcode : opcode_of wr.opcode ≡ some w.opcode
  pub target : target_of wr.opcode w.remote_addr w.rkey ≡ target_of wr.opcode wr.remote_addr wr.rkey
  pub sink : SinkOk pd wr w wr.opcode
  pub signaled : w.signaled ≡ (wr.signaled || sig_all)
  pub inline : w.is_inline ≡ wr.inline
  pub state : w.state ≡ SendState.init
  pub unnumbered : w.msn ≡ 0
  pub unsent : w.bytes_sent ≡ 0
  pub unacked : w.bytes_acked ≡ 0
  pub size : w.total_length ≡ size_of wr.sg_list
  pub bytes : take w.total_length (message_of m w) ≡ map m (addresses wr.sg_list)

abbrev pub AllRequested : Memory → MrTable → Bool → List SendWr → List SendWqe → Type 0
AllRequested m pd sig_all [] [] = Unit
AllRequested m pd sig_all (wr ∷ wrs) (w ∷ ws) =
    Requested m pd sig_all wr w × AllRequested m pd sig_all wrs ws
AllRequested m pd sig_all [] (w ∷ ws) = ⊥
AllRequested m pd sig_all (wr ∷ wrs) [] = ⊥

-- Why the region that a READ names cannot be written.
abbrev pub BadSink : MrTable → SendWr → Type 0
BadSink pd wr =
    (usiw_mr_lookup pd wr.lkey ≡ none)
    ⊎ ((mr : MemoryRegion) × (usiw_mr_lookup pd wr.lkey ≡ some mr) × (write_bit mr ≡ 0))

-- Inline data fits the entry, and is not asked for by a READ.
abbrev pub InlineOk : ℕ → SendWr → Type 0
InlineOk max_inline wr =
    wr.inline ≡ true → (wr.opcode ≢ WrOpcode.rdma_read) × (size_of wr.sg_list ≤ max_inline)

-- What filling in an entry comes to, and why.
pub data Fills (q : Qp) (wr : SendWr) : Prepared → Type 0 where
  filled :
      (w : SendWqe)
      → Requested q.memory q.pd q.sig_all wr (send_entry w wr)
      → InlineOk q.sq.max_inline wr
      → Fills q wr (ready w)
  not_known :
      (w : SendWqe) → wr.opcode ≡ WrOpcode.unknown → Fills q wr (put_back w Errno.eopnotsupp)
  bad_sink :
      (w : SendWqe)
      → wr.opcode ≡ WrOpcode.rdma_read
      → wr.inline ≡ false
      → BadSink q.pd wr
      → Fills q wr (put_back w Errno.einval)
  too_much_inline :
      (w : SendWqe)
      → wr.inline ≡ true
      → wr.opcode ≢ WrOpcode.rdma_read
      → q.sq.max_inline < size_of wr.sg_list
      → Fills q wr (kept w Errno.einval)
  inline_read :
      (w : SendWqe)
      → wr.inline ≡ true
      → wr.opcode ≡ WrOpcode.rdma_read
      → Fills q wr (kept w Errno.einval)

total-size :
    (acc : ℕ) (vs : List Iovec) → acc + size_of vs < u64_mod → total acc vs ≡ acc + size_of vs
unfolding addresses
total-size acc [] p = omega arith
total-size acc (v ∷ vs) p =
    let here : u64 (acc + v.len) ≡ acc + v.len = mod-eq_of_lt (omega (arith, p, size-cons v vs)) in
    ap (λ n. total n vs) here
    ∙ total-size (acc + v.len) vs (omega (arith, p, size-cons v vs))
    ∙ omega (arith, size-cons v vs)

-- The fields of an entry whose message is taken from memory when it is sent.
abbrev pub Outline : Qp → SendWr → SendWqe → Type 0
Outline q wr w =
    (opcode_of wr.opcode ≡ some w.opcode)
    × (target_of wr.opcode w.remote_addr w.rkey ≡ target_of wr.opcode wr.remote_addr wr.rkey)
    × SinkOk q.pd wr w wr.opcode
    × (w.signaled ≡ (wr.signaled || q.sig_all))

pub Outline-Requested :
    (q : Qp) (wr : SendWr) (w : SendWqe)
    → size_of wr.sg_list < u32_mod
    → Outline q wr w
    → w.is_inline ≡ false
    → wr.inline ≡ false
    → Requested q.memory q.pd q.sig_all wr (send_entry w wr)
Outline-Requested q wr w small (opcode, target, sink, signaled) e apart =
    let sum : total 0 wr.sg_list ≡ size_of wr.sg_list =
      total-size 0 wr.sg_list (omega (arith, small)) ∙ omega arith in
    let whole : take (total 0 wr.sg_list) (map q.memory (addresses wr.sg_list))
        ≡ map q.memory (addresses wr.sg_list) =
      take_all _ _ (omega (arith, sum, length-map q.memory (addresses wr.sg_list))) in
    record {
      context = refl;
      opcode = opcode;
      target = target;
      sink = sink;
      signaled = signaled;
      inline = e ∙ sym apart;
      state = refl;
      unnumbered = refl;
      unsent = refl;
      unacked = refl;
      size = rw e sum;
      bytes = rw e whole;
    }
