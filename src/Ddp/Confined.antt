-- ===== src/Ddp/Confined.antt =====
-- src/liburdma/interface.c, ddp_place_tagged_data: what a tagged segment can write.
use urdma.Prelude.{
  ℕ, ◌+◌, ◌%◌, ◌≤◌, ◌<◌, ◌≡◌, ◌⊎◌, refl, ◌∙◌, ap, inl, inr, none, some, [], ◌∷◌, arith, length,
  length-take, replicate, ◌++◌, drop, ◌==◌, Bool-cases, Option-cases,
}
use urdma.Prelude.Words.{u64_mod, u32_mod}
use urdma.Host.{Host}
use urdma.Proto
use urdma.Proto.{Bytes}
use urdma.Proto.Headers.{rdmap_packet, rdmap_tagged_packet}
use urdma.Qp.{Qp, MemoryRegion, SendOpcode, update}
use urdma.Completion.{send_lookup}
use urdma.Iov.{Memory, store}
use urdma.Region.{usiw_mr_lookup, out_of_bounds}
use urdma.Region.Bounds.{out_of_bounds_lem}
use urdma.Rdmap.{PacketContext, bytes_of, do_rdmap_terminate}
use urdma.Transmission.Keeps.{send_ddp_segment-Keeps}
use urdma.Ddp.Context.{payload_size, ddp_get_l_of}
use urdma.Ddp.Reads.{process_rdma_read_response}
use urdma.Ddp.Placement.{rdmap_opcode, write_tagged, ddp_place_tagged_data}

store-outside :
    (m : Memory) (a : ℕ) (bs : Bytes) (at : ℕ)
    → (at < a) ⊎ (a + length bs ≤ at)
    → store m a bs at ≡ m at
unfolding store
store-outside m a [] at out = refl
store-outside m a (b ∷ bs) at out =
    let rest : (at < a + 1) ⊎ (a + 1 + length bs ≤ at) = ground arith in
    ground (arith, store-outside (update m a b) (a + 1) bs at rest)

pub terminate-memory :
    (h : Host) (q : Qp) (orig : PacketContext) (errcode : ℕ)
    → (do_rdmap_terminate h q orig errcode).memory ≡ q.memory
unfolding do_rdmap_terminate
terminate-memory h q orig errcode = (send_ddp_segment-Keeps h q _ none none 0).0.memory

response-memory :
    (h : Host) (q : Qp) (orig : PacketContext)
    → (process_rdma_read_response h q orig).memory ≡ q.memory
unfolding process_rdma_read_response
response-memory h q orig =
    let stag = (rdmap_tagged_packet orig.rdmap).head.sink_stag in
    elim (Option-cases (send_lookup q.sq.storage q.sq.active SendOpcode.wr_read stag)) [
      | inl e ↦
          rw (e, process_rdma_read_response)
            (terminate-memory h q orig Proto.rdmap_error_opcode_unexpected)
      | inr (i, e) ↦
          rw (e, process_rdma_read_response)
            (elim (Bool-cases (ddp_get_l_of orig)) [
              | inl last ↦ rw last refl
              | inr more ↦ rw more refl
            ])
    ]

length-bytes_of_le : (n : ℕ) (b : Bytes) → length (bytes_of n b) ≤ n
length-bytes_of_le n b = omega (arith, length-take n (b ++ replicate n 0))

-- The 32-bit length of the payload, as the bounds test reads it.
abbrev pub rdma_length : PacketContext → ℕ
rdma_length orig = payload_size orig Proto.tagged_size % u32_mod

write_tagged-memory :
    (h : Host) (q : Qp) (orig : PacketContext) (mr : MemoryRegion) (a : ℕ)
    → (rdmap_tagged_packet orig.rdmap).offset + rdma_length orig < u64_mod
    → mr.addr + mr.length < u64_mod
    → (a < mr.addr) ⊎ (mr.addr + mr.length ≤ a)
    → (write_tagged h q orig mr).memory a ≡ q.memory a
unfolding write_tagged
write_tagged-memory h q orig mr a fits region out =
    let vaddr = (rdmap_tagged_packet orig.rdmap).offset in
    let len = rdma_length orig in
    let payload = bytes_of len (drop Proto.tagged_size orig.rdmap) in
    let q1 : Qp = record q { memory = store q.memory vaddr payload } in
    elim (Bool-cases (out_of_bounds mr vaddr len)) [
      | inl bad ↦ rw bad (
          ap (λ m. m a) (terminate-memory h q orig Proto.ddp_error_tagged_base_or_bounds_violation))
      | inr good ↦
          let inside = (out_of_bounds_lem mr vaddr len region (omega arith) (omega arith)).0 good in
          let beside : (a < vaddr) ⊎ (vaddr + length payload ≤ a) =
            ground (arith, length-bytes_of_le len (drop Proto.tagged_size orig.rdmap)) in
          let kept = store-outside q.memory vaddr payload a beside in
          rw good (elim (Bool-cases (rdmap_opcode orig == Proto.rdmap_opcode_rdma_write)) [
            | inl write ↦ rw write kept
            | inr other ↦
                rw other
                  (elim (Bool-cases (rdmap_opcode orig == Proto.rdmap_opcode_rdma_read_response)) [
                    | inl response ↦ rw response (ap (λ m. m a) (response-memory h q1 orig) ∙ kept)
                    | inr unknown ↦ rw unknown (
                        ap (λ m. m a)
                          (terminate-memory h q1 orig Proto.rdmap_error_opcode_unexpected)
                        ∙ kept)
                  ])
          ])
    ]

-- A tagged segment changes no byte outside the region that its steering tag names, and no byte
-- at all if the tag names none, as long as neither the region nor the data runs past the end of
-- the address space.
pub ddp_place_tagged_data-confined :
    (h : Host) (q : Qp) (orig : PacketContext) (a : ℕ)
    → (rdmap_tagged_packet orig.rdmap).offset + rdma_length orig < u64_mod
    → ((mr : MemoryRegion)
        → usiw_mr_lookup q.pd (rdmap_packet orig.rdmap).sink_stag ≡ some mr
        → (mr.addr + mr.length < u64_mod) × ((a < mr.addr) ⊎ (mr.addr + mr.length ≤ a)))
    → (ddp_place_tagged_data h q orig).memory a ≡ q.memory a
unfolding ddp_place_tagged_data
ddp_place_tagged_data-confined h q orig a fits out =
    elim (Option-cases (usiw_mr_lookup q.pd (rdmap_packet orig.rdmap).sink_stag)) [
      | inl e ↦
          rw (e, ddp_place_tagged_data)
            (ap (λ m. m a) (terminate-memory h q orig Proto.ddp_error_tagged_stag_invalid))
      | inr (mr, e) ↦
          let (region, outside) = out mr e in
          rw (e, ddp_place_tagged_data) (write_tagged-memory h q orig mr a fits region outside)
    ]
