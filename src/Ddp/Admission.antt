-- ===== src/Ddp/Admission.antt =====
-- src/liburdma/interface.c: which read requests process_rdma_read_request takes.
use urdma.Prelude.{
  ℕ, ◌+◌, ◌%◌, ◌≡◌, refl, ◌∙◌, ap, inl, inr, true, false, ◌||◌, none, some, [], ◌∷◌, ◌++◌, ltb, leb,
  Bool-cases, Option-cases,
}
use urdma.Prelude.Words.{u32}
use urdma.Host.{Host}
use urdma.Proto
use urdma.Proto.Headers.{rdmap_readreq_packet}
use urdma.Qp.{Qp, MemoryRegion, ReadResponse, update}
use urdma.Region.{usiw_mr_lookup, out_of_bounds}
use urdma.Transmission.Keeps.{send_ddp_segment-Keeps}
use urdma.Rdmap.{PacketContext, terminate_segment, do_rdmap_terminate}
use urdma.Rdmap.Segments.{segments, send_ddp_segment-segments}
use urdma.Ddp.Reads.{accept_read, process_rdma_read_request}

-- The response that is owed to a request.
abbrev pub owed : PacketContext → ReadResponse
owed orig =
    let req = rdmap_readreq_packet orig.rdmap in
    record {
      vaddr = req.source_offset;
      msg_size = req.read_msg_size;
      sink_stag = req.untagged.head.sink_stag;
      sink_offset = req.sink_offset;
      active = true;
    }

abbrev pub slot_of : Qp → PacketContext → ℕ
slot_of q orig = (rdmap_readreq_packet orig.rdmap).untagged.msn % q.shm.ird_max

-- What a call makes of a queue pair: the peer gets one TERMINATE, or the response is owed in a
-- slot that was free, for a range that passes the bounds test of a registered region.
pub data Admission (q : Qp) (orig : PacketContext) : Qp → Type 0 where
  refused :
      {q' : Qp} (errcode : ℕ)
      → q'.readresp_store ≡ q.readresp_store
      → segments q' ≡ segments q ++ terminate_segment orig errcode ∷ []
      → Admission q orig q'
  admitted :
      {q' : Qp} (mr : MemoryRegion)
      → usiw_mr_lookup q.pd (rdmap_readreq_packet orig.rdmap).source_stag ≡ some mr
      → out_of_bounds mr (owed orig).vaddr (owed orig).msg_size ≡ false
      → (q.readresp_store (slot_of q orig)).active ≡ false
      → q'.readresp_store ≡ update q.readresp_store (slot_of q orig) (owed orig)
      → segments q' ≡ segments q
      → Admission q orig q'

module _ (h : Host) (alloc : (call : ℕ) → h.hdr_alloc call ≡ true) (q : Qp)
    (orig : PacketContext) where
  terminate-Admission :
      (q1 : Qp) (errcode : ℕ)
      → q1.readresp_store ≡ q.readresp_store
      → segments q1 ≡ segments q
      → Admission q orig (do_rdmap_terminate h q1 orig errcode)
  unfolding do_rdmap_terminate
  terminate-Admission q1 errcode store same =
      let bytes = terminate_segment orig errcode in
      Admission.refused errcode
        ((send_ddp_segment-Keeps h q1 bytes none none 0).0.readresp_store ∙ store)
        (send_ddp_segment-segments h q1 bytes none none 0 alloc ∙ ap (λ x. x ++ bytes ∷ []) same)

  -- The queue pair after the expected number is moved on.
  abbrev expecting : ℕ → Qp
  expecting n = record q { remote_ep = record (q.remote_ep) { expected_read_msn = n } }

  accept-Admission :
      (n : ℕ) (mr : MemoryRegion)
      → usiw_mr_lookup q.pd (rdmap_readreq_packet orig.rdmap).source_stag ≡ some mr
      → Admission q orig
          (accept_read h (expecting n) orig (rdmap_readreq_packet orig.rdmap).untagged.msn mr)
  unfolding accept_read
  accept-Admission n mr found =
      elim (Bool-cases (out_of_bounds mr (owed orig).vaddr (owed orig).msg_size)) [
        | inl bad ↦
            rw bad (
              terminate-Admission (expecting n) Proto.rdmap_error_base_or_bounds_violation refl
                refl)
        | inr good ↦ rw good (elim (Bool-cases (q.readresp_store (slot_of q orig)).active) [
          | inl busy ↦ rw busy (
              terminate-Admission (expecting n) Proto.rdmap_error_remote_stream_catastrophic refl
                refl)
          | inr idle ↦ rw idle (Admission.admitted mr found good idle refl refl)
        ])
      ]

-- Let every header mbuf be there. process_rdma_read_request refuses a request with one TERMINATE
-- and owes nothing new, or it owes the response in a slot that was free, and then the range that
-- is read passes the bounds test of the region that the source steering tag names.
pub process_rdma_read_request-Admission :
    (h : Host) (q : Qp) (orig : PacketContext)
    → ((call : ℕ) → h.hdr_alloc call ≡ true)
    → Admission q orig (process_rdma_read_request h q orig)
unfolding process_rdma_read_request
process_rdma_read_request-Admission h q orig alloc =
    let req = rdmap_readreq_packet orig.rdmap in
    let msn = req.untagged.msn in
    let e = q.remote_ep in
    elim (Bool-cases
      (ltb msn e.expected_read_msn || leb (u32 (q.readresp_head_msn + q.shm.ird_max)) msn)) [
        | inl bad ↦
            rw bad
              (terminate-Admission h alloc q orig q Proto.ddp_error_untagged_invalid_msn refl refl)
        | inr good ↦ rw good (elim (Option-cases (usiw_mr_lookup q.pd req.source_stag)) [
          | inl absent ↦
              rw (absent, process_rdma_read_request)
                (terminate-Admission h alloc q orig (expecting h alloc q orig _)
                  Proto.rdmap_error_stag_invalid refl refl)
          | inr (mr, found) ↦
              rw (found, process_rdma_read_request) (accept-Admission h alloc q orig _ mr found)
        ])
      ]
