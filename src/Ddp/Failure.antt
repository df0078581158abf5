-- ===== src/Ddp/Failure.antt =====
-- src/liburdma/interface.c: qp_shutdown and process_terminate. The kernel is told of the error
-- state by ibv_cmd_modify_qp, which is left out.
use urdma.Prelude.{ℕ, ◌+◌, ◌/◌, ◌%◌, ◌^◌, not, none, some, ◌==◌, if◌then◌else◌, drop}
use urdma.Host.{Host}
use urdma.Proto
use urdma.Proto.{Bytes, get_32}
use urdma.Proto.Headers.{rdmap_packet, rdmap_terminate_packet}
use urdma.Qp.{Qp, SendOpcode, WcStatus, ConnState, MrTable}
use urdma.Region.{usiw_mr_lookup, usiw_dereg_mr_real}
use urdma.Completion.{post_send_cqe, send_lookup, sq_flush, rq_flush}
use urdma.Transmission.{send_trp_fin}
use urdma.Rdmap.{PacketContext, error_class}

unfoldable pub qp_shutdown : Host → Qp → Qp
qp_shutdown h q =
    let q1 = send_trp_fin h q in
    let q2 = record q1 { shm = record (q1.shm) { conn_state = ConnState.error } } in
    rq_flush h (sq_flush h q2)

-- STAG_RDMA_READ
abbrev pub stag_rdma_read : ℕ → ℕ
stag_rdma_read x = 2 ^ 24 + x % 2 ^ 24

-- The structs that process_terminate reads start right behind the terminate header.
abbrev pub terminated : PacketContext → Bytes
terminated orig = drop Proto.terminate_size orig.rdmap

-- A read request was refused: its temporary region goes, and the request fails.
unfoldable pub fail_read : Host → Qp → ℕ → Qp
fail_read h q i =
    let stag = stag_rdma_read (q.sq.storage i).msn in
    let pd : MrTable = elim (usiw_mr_lookup q.pd stag) [
      | none ↦ q.pd
      | some _ ↦ usiw_dereg_mr_real q.pd stag
    ] in
    post_send_cqe h (record q { pd = pd }) i WcStatus.rem_access_err

unfoldable pub terminate_read : Host → Qp → PacketContext → Qp
unfolding fail_read
terminate_read h q orig =
    let stag = (rdmap_packet (terminated orig)).sink_stag in
    elim (send_lookup q.sq.storage q.sq.active SendOpcode.wr_read stag) [
      | none ↦ q
      | some i ↦ fail_read h q i
    ]

unfoldable pub terminate_tagged : Host → Qp → PacketContext → Qp
terminate_tagged h q orig =
    let head = rdmap_packet (terminated orig) in
    let failed : Qp =
      elim (send_lookup q.sq.storage q.sq.active SendOpcode.wr_write head.sink_stag) [
        | none ↦ q
        | some i ↦ post_send_cqe h q i WcStatus.rem_access_err
      ] in
    if Proto.rdmap_get_opcode head.rdmap_info == Proto.rdmap_opcode_rdma_write then failed else q

unfoldable pub process_terminate : Host → Qp → PacketContext → Qp
unfolding terminate_read terminate_tagged
process_terminate h q orig =
    let t = rdmap_terminate_packet orig.rdmap in
    let has_ddp_header = t.hdrct / 2 % 2 == 1 in
    if not has_ddp_header
    then qp_shutdown h q
    else if error_class t.error_code == 0x0100
    then terminate_read h q orig
    else if error_class t.error_code == 0x1100
    then terminate_tagged h q orig
    else qp_shutdown h q
