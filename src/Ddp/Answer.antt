-- ===== src/Ddp/Answer.antt =====
-- src/liburdma/interface.c, respond_rdma_read: what the peer gets in answer to a read request.
use urdma.Prelude.{
  ℕ, ◌+◌, ◌-◌, ◌≤◌, ◌<◌, ◌≡◌, refl, ◌∙◌, ap, true, false, ◌&&◌, leb, if◌then◌else◌, List, ◌++◌,
  arith, ltb,
}
use urdma.Prelude.Words.{u64_mod}
use urdma.Host.{Host}
use urdma.Proto.{Bytes}
use urdma.Proto.Headers.{Tagged, tagged_bytes}
use urdma.Qp.{Qp, ReadResponse}
use urdma.Rdmap.{has_credit}
use urdma.Rdmap.Segments.{segments}
use urdma.Rdmap.Rounds.{Cut}
use urdma.Ddp.Reads.{response_header, respond_segments}
use urdma.Ddp.Response.{answered, asked, loop-Stopped}

-- The header that the segment behind the first `from` bytes of a response must have: the sink's key,
-- the sink's offset of the segment's first byte, and the L flag on the last segment.
abbrev pub segment_header : ReadResponse → ℕ → ℕ → Tagged
segment_header r mtu from = record {
  head = record {
    ddp_flags = if leb (r.msg_size - from) mtu then 0xc1 else 0x81;
    rdmap_info = 0x42;
    sink_stag = r.sink_stag;
  };
  offset = r.sink_offset + from;
}

-- What a call makes of the response in slot `j`: it sends the next bytes of the memory that was
-- asked for, cut into segments, and the response stands behind them; all are sent, or the credits
-- are used up.
pub record Answered (q : Qp) (j : ℕ) (q' : Qp) : Type 0 where
  pub to : ℕ
  pub segs : List Bytes
  pub cut :
      Cut
        (λ from. tagged_bytes (segment_header (q.readresp_store j) q.shm.mtu from))
        q.shm.mtu
        (q.readresp_store j).msg_size
        (asked q (q.readresp_store j))
        0
        to
        segs
  pub added : segments q' ≡ segments q ++ segs
  pub within : to ≤ (q.readresp_store j).msg_size
  pub entry : q'.readresp_store j ≡ answered (q.readresp_store j) to
  pub memory : q'.memory ≡ q.memory
  pub stop : (ltb to (q.readresp_store j).msg_size && has_credit q') ≡ false

answered_none : (r : ReadResponse) → r ≡ answered r 0
answered_none r =
    ap (λ x. record r { vaddr = x }) {x = r.vaddr} {y = r.vaddr + 0} (omega arith)
    ∙ ap (λ x. record r { vaddr = r.vaddr + 0; msg_size = x }) {x = r.msg_size} {y = r.msg_size - 0}
        (omega arith)
    ∙ ap (λ x. record r { vaddr = r.vaddr + 0; msg_size = r.msg_size - 0; sink_offset = x })
        {x = r.sink_offset} {y = r.sink_offset + 0} (omega arith)

-- Let every header mbuf be there, the MTU not be 0, and neither the range that is read nor the one
-- that is written run past the end of the address space. The loop of respond_rdma_read sends the
-- bytes of the range in order and without gaps, as tagged segments of at most the MTU, each under
-- a header with the sink's key, the sink's offset of its bytes and, on the last one alone, the L
-- flag, until all are sent or the credits are used up.
pub respond_segments-Answered :
    (h : Host) (q : Qp) (j : ℕ)
    → ((call : ℕ) → h.hdr_alloc call ≡ true)
    → 0 < q.shm.mtu
    → (q.readresp_store j).vaddr + (q.readresp_store j).msg_size < u64_mod
    → (q.readresp_store j).sink_offset + (q.readresp_store j).msg_size < u64_mod
    → Answered q j (respond_segments h (q.readresp_store j).msg_size q j)
unfolding response_header
respond_segments-Answered h q j alloc pos a b =
    let r = q.readresp_store j in
    let s =
      loop-Stopped h alloc j r q.shm.mtu q.memory r.msg_size q 0 pos a b
        (record { entry = answered_none r; mtu_of = refl; memory_of = refl }) (omega arith)
        (omega arith) in
    record {
      to = s.to;
      segs = s.segs;
      cut = s.cut;
      added = s.added;
      within = s.within;
      entry = s.at.entry;
      memory = s.at.memory_of;
      stop = s.stop;
    }
