-- ===== src/Rdmap/Rounds.antt =====
-- src/liburdma/interface.c: the loop of do_rdmap_send and do_rdmap_write, round by round, and how
-- a message is cut into segments.
use urdma.Prelude.{
  ℕ, zero, suc, ◌+◌, ◌-◌, ◌≤◌, ◌<◌, ◌≡◌, sym, ◌∙◌, ap, inl, inr, min, true, false, ◌&&◌, none, some,
  List, [], ◌∷◌, ◌++◌, arith, ltb, take, drop, Bool-cases,
}
use mathlib.Core.List.{append_assoc, append-nil}
use urdma.Host.{Host}
use urdma.Proto.{Bytes}
use urdma.Qp.{Qp, SendWqe}
use urdma.Transmission.Keeps.{send_ddp_segment-Keeps}
use urdma.Rdmap.{payload_at, has_credit, send_round, send_loop}
use urdma.Rdmap.Segments.{message, segments, payload_at-message, send_ddp_segment-segments}

-- `segs` are the bytes from `from` to `to` of a message, in order: each segment is the header for
-- its offset and the next bytes, as many as the MTU allows or as are left.
pub data Cut (header : ℕ → Bytes) (mtu total : ℕ) (bytes : Bytes)
    : ℕ → ℕ → List Bytes → Type 0 where
  done : {from : ℕ} → Cut header mtu total bytes from from []
  next :
      {from to : ℕ} {segs : List Bytes}
      → from < total
      → Cut header mtu total bytes (from + min mtu (total - from)) to segs
      → Cut header mtu total bytes from to
          ((header from ++ take (min mtu (total - from)) (drop from bytes)) ∷ segs)

abbrev pub sent_to : SendWqe → ℕ → SendWqe
sent_to w from = record w { bytes_sent = from }

module _ (h : Host) (alloc : (call : ℕ) → h.hdr_alloc call ≡ true) (i : ℕ)
    (header : SendWqe → ℕ → Bytes) (w : SendWqe) (mtu : ℕ) (bytes : Bytes) where
  -- The request has sent the bytes before `from`.
  pub record At (q : Qp) (from : ℕ) : Type 0 where
    pub entry : q.sq.storage i ≡ sent_to w from
    pub mtu_of : q.shm.mtu ≡ mtu
    pub bytes_of : message q w ≡ bytes

  round :
      (q : Qp) (from : ℕ)
      → At q from
      → At (send_round h q i header) (from + min mtu (w.total_length - from))
  unfolding send_round
  round q from v =
      let len = min q.shm.mtu ((q.sq.storage i).total_length - (q.sq.storage i).bytes_sent) in
      let k =
        (send_ddp_segment-Keeps h q
          (header (q.sq.storage i) q.shm.mtu ++ payload_at q (q.sq.storage i) len) none (some i)
          len).0 in
      record {
        entry = rw (v.entry, v.mtu_of) (ground arith);
        mtu_of = ap (λ s. s.mtu) k.shm ∙ v.mtu_of;
        bytes_of = rw k.memory v.bytes_of;
      }

  -- The segment of a round, by the request as it stands.
  abbrev segment_of : SendWqe → ℕ → Bytes → Bytes
  segment_of w' m b =
      header w' m ++ take (min m (w'.total_length - w'.bytes_sent)) (drop w'.bytes_sent b)

  round-segment_of :
      (q : Qp)
      → segments (send_round h q i header)
        ≡ segments q ++ segment_of (q.sq.storage i) q.shm.mtu (message q (q.sq.storage i)) ∷ []
  unfolding send_round
  round-segment_of q =
      let w' = q.sq.storage i in
      let len = min q.shm.mtu (w'.total_length - w'.bytes_sent) in
      send_ddp_segment-segments h q (header w' q.shm.mtu ++ payload_at q w' len) none (some i) len
        alloc
      ∙ ap (λ x. segments q ++ (header w' q.shm.mtu ++ x) ∷ []) (payload_at-message q w' len)

  round-segments :
      (q : Qp) (from : ℕ)
      → At q from
      → segments (send_round h q i header)
        ≡ segments q ++ segment_of (sent_to w from) mtu bytes ∷ []
  round-segments q from v =
      let w' = q.sq.storage i in
      round-segment_of q
      ∙ ap (λ x. segments q ++ segment_of w' x (message q w') ∷ []) v.mtu_of
      ∙ ap (λ x. segments q ++ segment_of x mtu (message q x) ∷ []) v.entry
      ∙ ap (λ x. segments q ++ segment_of (sent_to w from) mtu x ∷ []) v.bytes_of

  -- Where the loop stops: all bytes are sent, or the credits are used up.
  pub record Stopped (q : Qp) (from : ℕ) (q' : Qp) : Type 0 where
    pub to : ℕ
    pub segs : List Bytes
    pub cut : Cut (λ b. header (sent_to w b) mtu) mtu w.total_length bytes from to segs
    pub added : segments q' ≡ segments q ++ segs
    pub at : At q' to
    pub within : to ≤ w.total_length
    pub stop : (ltb to w.total_length && has_credit q') ≡ false

  pub loop-Stopped :
      (fuel : ℕ) (q : Qp) (from : ℕ)
      → 0 < mtu
      → At q from
      → from ≤ w.total_length
      → w.total_length - from ≤ fuel
      → Stopped q from (send_loop h fuel q i header)
  unfolding send_loop
  loop-Stopped zero q from pos v le enough = record {
    to = from;
    segs = [];
    cut = Cut.done;
    added = sym (append-nil (segments q));
    at = v;
    within = le;
    stop = ground arith;
  }
  loop-Stopped (suc fuel) q from pos v le enough =
      let test : (ltb (q.sq.storage i).bytes_sent (q.sq.storage i).total_length && has_credit q)
          ≡ (ltb from w.total_length && has_credit q) =
        ap (λ x. ltb x.bytes_sent x.total_length && has_credit q) v.entry in
      elim (Bool-cases (ltb from w.total_length && has_credit q)) [
        | inr stop ↦ rw (test ∙ stop) (record {
          to = from;
          segs = [];
          cut = Cut.done;
          added = sym (append-nil (segments q));
          at = v;
          within = le;
          stop = stop;
        })
        | inl go ↦
            let rest =
              loop-Stopped fuel (send_round h q i header) (from + min mtu (w.total_length - from))
                pos (round q from v) (omega arith) (ground arith) in
            rw (test ∙ go) (record {
              to = rest.to;
              segs = segment_of (sent_to w from) mtu bytes ∷ rest.segs;
              cut = Cut.next (ground arith) rest.cut;
              added =
                  rest.added
                  ∙ ap (λ x. x ++ rest.segs) (round-segments q from v)
                  ∙ append_assoc (segments q) (segment_of (sent_to w from) mtu bytes ∷ [])
                      rest.segs;
              at = rest.at;
              within = rest.within;
              stop = rest.stop;
            })
      ]
