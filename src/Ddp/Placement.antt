-- ===== src/Ddp/Placement.antt =====
-- src/liburdma/interface.c: ddp_place_tagged_data.
use urdma.Prelude.{ℕ, ◌%◌, none, some, ◌==◌, if◌then◌else◌, drop, get_or}
use urdma.Prelude.Words.{u32_mod}
use urdma.Host.{Host}
use urdma.Proto
use urdma.Proto.{Bytes, get_32}
use urdma.Proto.Headers.{rdmap_packet, rdmap_tagged_packet}
use urdma.Qp.{Qp, MemoryRegion}
use urdma.Iov.{store}
use urdma.Region.{usiw_mr_lookup, out_of_bounds}
use urdma.Rdmap.{PacketContext, bytes_of, do_rdmap_terminate}
use urdma.Ddp.Context.{payload_size}
use urdma.Ddp.Reads.{process_rdma_read_response}

abbrev pub rdmap_opcode : PacketContext → ℕ
rdmap_opcode orig = Proto.rdmap_get_opcode (get_or orig.rdmap 1 0)

-- Tagged data that lies within its region is written before the opcode is looked at.
unfoldable pub write_tagged : Host → Qp → PacketContext → MemoryRegion → Qp
write_tagged h q orig mr =
    let vaddr = (rdmap_tagged_packet orig.rdmap).offset in
    let rdma_length = payload_size orig Proto.tagged_size % u32_mod in
    let payload = bytes_of rdma_length (drop Proto.tagged_size orig.rdmap) in
    let q1 = record q { memory = store q.memory vaddr payload } in
    if out_of_bounds mr vaddr rdma_length
    then do_rdmap_terminate h q orig Proto.ddp_error_tagged_base_or_bounds_violation
    else if rdmap_opcode orig == Proto.rdmap_opcode_rdma_write
    then q1
    else if rdmap_opcode orig == Proto.rdmap_opcode_rdma_read_response
    then process_rdma_read_response h q1 orig
    else do_rdmap_terminate h q1 orig Proto.rdmap_error_opcode_unexpected

unfoldable pub ddp_place_tagged_data : Host → Qp → PacketContext → Qp
unfolding write_tagged
ddp_place_tagged_data h q orig = elim (usiw_mr_lookup q.pd (rdmap_packet orig.rdmap).sink_stag) [
  | none ↦ do_rdmap_terminate h q orig Proto.ddp_error_tagged_stag_invalid
  | some mr ↦ write_tagged h q orig mr
]
