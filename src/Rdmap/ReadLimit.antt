-- ===== src/Rdmap/ReadLimit.antt =====
-- src/liburdma/interface.c: do_rdmap_read_request, its limits on outstanding reads and on credits.
use urdma.Prelude.{
  ℕ, ◌+◌, refl, List, ◌%◌, ◌^◌, ap, ◌≢◌, ◌≤◌, ◌<◌, ◌≡◌, ◌∙◌, inl, inr, Bool, true, false, ◌||◌,
  none, some, [], ◌∷◌, ◌++◌, arith, leb, ◌==◌, Bool-cases,
}
use urdma.Host.{Host}
use urdma.Serial.{serial_greater_32}
use urdma.Proto.Headers.{ReadRequest, readreq_bytes}
use urdma.Qp.{Iovec, Qp, SendState, SendWqe}
use urdma.Transmission.Keeps.{send_ddp_segment-Keeps}
use urdma.Rdmap.{first_iov, is_transfer, readreq_of, do_rdmap_read_request}
use urdma.Rdmap.Segments.{segments, send_ddp_segment-segments}

-- The credits are used up.
abbrev pub no_credit : Qp → Bool
no_credit q =
    q.remote_ep.send_next_psn == q.remote_ep.send_max_psn
    || serial_greater_32 q.remote_ep.send_next_psn q.remote_ep.send_max_psn

-- The start and the length of the first buffer.
abbrev pub sink_of : List Iovec → ℕ × ℕ
sink_of [] = (0, 0)
sink_of (v ∷ vs) = (v.base, v.len % 2 ^ 32)

-- The header that the read request of an entry must have: the local key and the start and length
-- of the first buffer for the sink, the remote key and address for the source.
abbrev pub read_header : SendWqe → ReadRequest
read_header w = record {
  untagged = record {
    head = record { ddp_flags = 0x41; rdmap_info = 0x41; sink_stag = w.local_stag };
    qn = 1;
    msn = w.msn;
    mo = 0;
  };
  sink_offset = (sink_of w.iov).0;
  read_msg_size = (sink_of w.iov).1;
  source_stag = w.rkey;
  source_offset = w.remote_addr;
}

-- What a call makes of the request `i`.
pub data ReadAttempt (q : Qp) (i : ℕ) : Qp → Type 0 where
  not_in_transfer : (q.sq.storage i).state ≢ SendState.transfer → ReadAttempt q i q
  at_limit : q.shm.ord_max ≤ q.ord_active → ReadAttempt q i q
  out_of_credit : no_credit q ≡ true → ReadAttempt q i q
  requested :
      {q' : Qp}
      → (q.sq.storage i).state ≡ SendState.transfer
      → q.ord_active < q.shm.ord_max
      → no_credit q ≡ false
      → q'.ord_active ≡ q.ord_active + 1
      → segments q' ≡ segments q ++ readreq_bytes (read_header (q.sq.storage i)) ∷ []
      → q'.sq.storage i ≡ record (q.sq.storage i) { state = SendState.wait }
      → ReadAttempt q i q'

in_transfer : (s : SendState) → is_transfer s ≡ true → s ≡ SendState.transfer
in_transfer s e = grind (arith, e)

elsewhere : (s : SendState) → is_transfer s ≡ false → s ≢ SendState.transfer
elsewhere s e t = absurd (ground (arith, e, ap is_transfer t))

sink_of-first : (vs : List Iovec) → ((first_iov vs).base, (first_iov vs).len % 2 ^ 32) ≡ sink_of vs
sink_of-first [] = refl
sink_of-first (v ∷ vs) = refl

abbrev with_sink : SendWqe → ℕ × ℕ → ReadRequest
with_sink w sink =
    let r = read_header w in record r { sink_offset = sink.0; read_msg_size = sink.1 }

readreq_of-header : (w : SendWqe) → readreq_of w ≡ read_header w
unfolding readreq_of
readreq_of-header w = ap (with_sink w) (sink_of-first w.iov)

-- Let ord_max fit its 8 bits and every header mbuf be there. do_rdmap_read_request sends one read
-- request with the keys, addresses and length of the entry, counts it and has the entry wait, while
-- the entry is in transfer, fewer than ord_max reads are outstanding and there is a credit; or one
-- of these three fails and it changes nothing.
pub do_rdmap_read_request-ReadAttempt :
    (h : Host) (q : Qp) (i : ℕ)
    → ((call : ℕ) → h.hdr_alloc call ≡ true)
    → q.shm.ord_max < 256
    → ReadAttempt q i (do_rdmap_read_request h q i)
unfolding do_rdmap_read_request
do_rdmap_read_request-ReadAttempt h q i alloc small =
    let q1 : Qp = record q { ord_active = (q.ord_active + 1) % 256 } in
    let bytes = readreq_bytes (readreq_of (q.sq.storage i)) in
    let k = (send_ddp_segment-Keeps h q1 bytes none (some i) 0).0 in
    let sent = send_ddp_segment-segments h q1 bytes none (some i) 0 alloc in
    elim (Bool-cases (is_transfer (q.sq.storage i).state)) [
      | inr e ↦ rw e (ReadAttempt.not_in_transfer (elsewhere _ e))
      | inl e ↦ rw e (elim (Bool-cases (leb q.shm.ord_max q.ord_active)) [
        | inl full ↦ rw full (ReadAttempt.at_limit (ground arith))
        | inr room ↦ rw room (elim (Bool-cases (no_credit q)) [
          | inl out ↦ rw out (ReadAttempt.out_of_credit out)
          | inr credit ↦ rw credit (
              ReadAttempt.requested (in_transfer _ e) (ground arith) credit
                (k.ord_active ∙ ground arith)
                (sent
                  ∙ ap (λ r. segments q ++ readreq_bytes r ∷ [])
                      (readreq_of-header (q.sq.storage i)))
                (ground arith))
        ])
      ])
    ]
