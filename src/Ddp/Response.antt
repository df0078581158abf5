-- ===== src/Ddp/Response.antt =====
-- src/liburdma/interface.c: the inner loop of respond_rdma_read, round by round.
use urdma.Prelude.{
  ℕ, zero, suc, ◌+◌, ◌-◌, ◌≤◌, ◌<◌, ◌≡◌, sym, ◌∙◌, ap, inl, inr, min, true, false, ◌&&◌, none, some,
  List, [], ◌∷◌, ◌++◌, arith, ltb, take, drop, Bool-cases,
}
use mathlib.Core.List.{append_assoc, append-nil}
use urdma.Prelude.Words.{u64_mod, u64}
use urdma.Host.{Host}
use urdma.Proto.{Bytes}
use urdma.Proto.Headers.{tagged_bytes}
use urdma.Qp.{Qp, ReadResponse}
use urdma.Iov.{Memory, load}
use urdma.Iov.Slice.{take-load, drop-load}
use urdma.Transmission.{send_ddp_segment}
use urdma.Transmission.Keeps.{send_ddp_segment-Keeps}
use urdma.Rdmap.{has_credit}
use urdma.Rdmap.Segments.{segments, send_ddp_segment-segments}
use urdma.Rdmap.Rounds.{Cut}
use urdma.Ddp.Reads.{set_read_response, response_header, respond_segments}

-- The response after its first `from` bytes are sent.
abbrev pub answered : ReadResponse → ℕ → ReadResponse
answered r from = record r {
  vaddr = r.vaddr + from;
  msg_size = r.msg_size - from;
  sink_offset = r.sink_offset + from;
}

-- The bytes that a response is about.
abbrev pub asked : Qp → ReadResponse → Bytes
asked q r = load q.memory r.vaddr r.msg_size

module _ (h : Host) (alloc : (call : ℕ) → h.hdr_alloc call ≡ true) (j : ℕ) (r : ReadResponse)
    (mtu : ℕ) (m : Memory) where
  pub record At (q : Qp) (from : ℕ) : Type 0 where
    pub entry : q.readresp_store j ≡ answered r from
    pub mtu_of : q.shm.mtu ≡ mtu
    pub memory_of : q.memory ≡ m

  abbrev header : ℕ → Bytes
  header from = tagged_bytes (response_header (answered r from) mtu)

  -- One round of the loop.
  abbrev next_response : ReadResponse → ℕ → ReadResponse
  next_response x len = record x {
    vaddr = u64 (x.vaddr + len);
    msg_size = x.msg_size - len;
    sink_offset = u64 (x.sink_offset + len);
  }

  abbrev segment_of : ReadResponse → ℕ → Memory → Bytes
  segment_of x mtu m = tagged_bytes (response_header x mtu) ++ load m x.vaddr (min mtu x.msg_size)

  abbrev sent : Qp → Qp
  sent q =
      let x = q.readresp_store j in
      let len = min q.shm.mtu x.msg_size in
      set_read_response (send_ddp_segment h q (segment_of x q.shm.mtu q.memory) (some j) none len) j
        (next_response x len)

  next-answered :
      (from len : ℕ)
      → r.vaddr + r.msg_size < u64_mod
      → r.sink_offset + r.msg_size < u64_mod
      → from + len ≤ r.msg_size
      → next_response (answered r from) len ≡ answered r (from + len)
  next-answered from len a b le =
      ap
        (λ x. record r {
          vaddr = x;
          msg_size = r.msg_size - from - len;
          sink_offset = u64 (r.sink_offset + from + len);
        })
        {x = u64 (r.vaddr + from + len)} {y = r.vaddr + (from + len)} (omega arith)
      ∙ ap
          (λ x. record r {
            vaddr = r.vaddr + (from + len);
            msg_size = x;
            sink_offset = u64 (r.sink_offset + from + len);
          })
          {x = r.msg_size - from - len} {y = r.msg_size - (from + len)} (omega arith)
      ∙ ap
          (λ x. record r {
            vaddr = r.vaddr + (from + len);
            msg_size = r.msg_size - (from + len);
            sink_offset = x;
          })
          {x = u64 (r.sink_offset + from + len)} {y = r.sink_offset + (from + len)} (omega arith)

  sent-At :
      (q : Qp) (from : ℕ)
      → At q from
      → r.vaddr + r.msg_size < u64_mod
      → r.sink_offset + r.msg_size < u64_mod
      → from ≤ r.msg_size
      → At (sent q) (from + min mtu (r.msg_size - from))
  sent-At q from v a b le =
      let x = q.readresp_store j in
      let len = min q.shm.mtu x.msg_size in
      let k = (send_ddp_segment-Keeps h q (segment_of x q.shm.mtu q.memory) (some j) none len).0 in
      let written : (sent q).readresp_store j ≡ next_response x len = ground arith in
      record {
        entry =
            written
            ∙ ap (λ y. next_response y (min q.shm.mtu y.msg_size)) v.entry
            ∙ ap (λ y. next_response (answered r from) (min y (r.msg_size - from))) v.mtu_of
            ∙ next-answered from (min mtu (r.msg_size - from)) a b (omega arith);
        mtu_of = ap (λ s. s.mtu) k.shm ∙ v.mtu_of;
        memory_of = k.memory ∙ v.memory_of;
      }

  sent-segments :
      (q : Qp) (from : ℕ)
      → At q from
      → from ≤ r.msg_size
      → segments (sent q)
        ≡ segments q
          ++ (header from
              ++ take (min mtu (r.msg_size - from)) (drop from (load m r.vaddr r.msg_size)))
            ∷ []
  sent-segments q from v le =
      let x = q.readresp_store j in
      let len = min mtu (r.msg_size - from) in
      let slice : load m (r.vaddr + from) len ≡ take len (drop from (load m r.vaddr r.msg_size)) =
        sym (
          ap (take len) (drop-load m from r.vaddr r.msg_size le)
          ∙ take-load m len (r.vaddr + from) (r.msg_size - from) (omega arith)) in
      send_ddp_segment-segments h q (segment_of x q.shm.mtu q.memory) (some j) none
        (min q.shm.mtu x.msg_size) alloc
      ∙ ap (λ y. segments q ++ segment_of y q.shm.mtu q.memory ∷ []) v.entry
      ∙ ap (λ y. segments q ++ segment_of (answered r from) y q.memory ∷ []) v.mtu_of
      ∙ ap (λ y. segments q ++ segment_of (answered r from) mtu y ∷ []) v.memory_of
      ∙ ap (λ y. segments q ++ (header from ++ y) ∷ []) slice

  -- Where the loop stops.
  pub record Stopped (q : Qp) (from : ℕ) (q' : Qp) : Type 0 where
    pub to : ℕ
    pub segs : List Bytes
    pub cut : Cut header mtu r.msg_size (load m r.vaddr r.msg_size) from to segs
    pub added : segments q' ≡ segments q ++ segs
    pub at : At q' to
    pub within : to ≤ r.msg_size
    pub stop : (ltb to r.msg_size && has_credit q') ≡ false

  stop_here :
      (q : Qp) (from : ℕ)
      → At q from
      → from ≤ r.msg_size
      → (ltb from r.msg_size && has_credit q) ≡ false
      → Stopped q from q
  stop_here q from v le stop = record {
    to = from;
    segs = [];
    cut = Cut.done;
    added = sym (append-nil (segments q));
    at = v;
    within = le;
    stop = stop;
  }

  pub loop-Stopped :
      (fuel : ℕ) (q : Qp) (from : ℕ)
      → 0 < mtu
      → r.vaddr + r.msg_size < u64_mod
      → r.sink_offset + r.msg_size < u64_mod
      → At q from
      → from ≤ r.msg_size
      → r.msg_size - from ≤ fuel
      → Stopped q from (respond_segments h fuel q j)
  unfolding respond_segments
  loop-Stopped zero q from pos a b v le enough = stop_here q from v le (ground arith)
  loop-Stopped (suc fuel) q from pos a b v le enough =
      let more : ltb 0 (r.msg_size - from) ≡ ltb from r.msg_size = ground arith in
      let test : (ltb 0 (q.readresp_store j).msg_size && has_credit q)
          ≡ (ltb from r.msg_size && has_credit q) =
        ap (λ x. ltb 0 x.msg_size && has_credit q) v.entry ∙ ap (λ x. x && has_credit q) more in
      elim (Bool-cases (ltb from r.msg_size && has_credit q)) [
        | inr stop ↦ rw (test ∙ stop) (stop_here q from v le stop)
        | inl go ↦
            let next = from + min mtu (r.msg_size - from) in
            let rest =
              loop-Stopped fuel (sent q) next pos a b (sent-At q from v a b le) (omega arith)
                (ground arith) in
            rw (test ∙ go) (record {
              to = rest.to;
              segs =
                  (header from
                    ++ take (min mtu (r.msg_size - from)) (drop from (load m r.vaddr r.msg_size)))
                  ∷ rest.segs;
              cut = Cut.next (ground arith) rest.cut;
              added =
                  rest.added
                  ∙ ap (λ x. x ++ rest.segs) (sent-segments q from v le)
                  ∙ append_assoc (segments q) (_ ∷ []) rest.segs;
              at = rest.at;
              within = rest.within;
              stop = rest.stop;
            })
      ]
