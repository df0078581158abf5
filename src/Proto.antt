-- ===== src/Proto.antt =====
-- include/proto.h and include/proto_trp.h: the DDP, RDMAP and TRP headers. A segment is the list
-- of its bytes; the packed structs of the headers are read and written at their offsets, in
-- network byte order. A read past the end of the bytes gives 0.
pub mod Fields
pub mod Headers
use urdma.Prelude.{ℕ, ◌+◌, ◌*◌, ◌/◌, ◌%◌, ◌^◌, Bool, List, [], ◌∷◌, ◌++◌, get_or, ◌==◌}

abbrev pub Bytes : Type 0
Bytes = List ℕ

unfoldable pub put_16 : ℕ → Bytes
put_16 n = (n / 2 ^ 8 % 2 ^ 8) ∷ (n % 2 ^ 8) ∷ []

unfoldable pub put_32 : ℕ → Bytes
put_32 n = (n / 2 ^ 24 % 2 ^ 8) ∷ (n / 2 ^ 16 % 2 ^ 8) ∷ (n / 2 ^ 8 % 2 ^ 8) ∷ (n % 2 ^ 8) ∷ []

unfoldable pub put_64 : ℕ → Bytes
unfolding put_32
put_64 n = put_32 (n / 2 ^ 32) ++ put_32 n

unfoldable pub get_16 : Bytes → ℕ → ℕ
get_16 b o = get_or b o 0 * 2 ^ 8 + get_or b (o + 1) 0

unfoldable pub get_32 : Bytes → ℕ → ℕ
get_32 b o =
    get_or b o 0 * 2 ^ 24
    + get_or b (o + 1) 0 * 2 ^ 16
    + get_or b (o + 2) 0 * 2 ^ 8
    + get_or b (o + 3) 0

unfoldable pub get_64 : Bytes → ℕ → ℕ
unfolding get_32
get_64 b o = get_32 b o * 2 ^ 32 + get_32 b (o + 4)

-- DDP_V1_… flags, and the fields of the two leading bytes.
abbrev pub ddp_v1_untagged_df : ℕ
ddp_v1_untagged_df = 0x01

abbrev pub ddp_v1_tagged_df : ℕ
ddp_v1_tagged_df = 0x81

abbrev pub ddp_v1_untagged_last_df : ℕ
ddp_v1_untagged_last_df = 0x41

abbrev pub ddp_v1_tagged_last_df : ℕ
ddp_v1_tagged_last_df = 0xc1

abbrev pub ddp_get_t : ℕ → Bool
ddp_get_t flags = flags / 2 ^ 7 % 2 == 1

abbrev pub ddp_get_l : ℕ → Bool
ddp_get_l flags = flags / 2 ^ 6 % 2 == 1

abbrev pub ddp_get_dv : ℕ → ℕ
ddp_get_dv flags = flags % 4

abbrev pub rdmap_v1 : ℕ
rdmap_v1 = 0x40

abbrev pub rdmap_get_rv : ℕ → ℕ
rdmap_get_rv info = info / 2 ^ 6 % 4

abbrev pub rdmap_get_opcode : ℕ → ℕ
rdmap_get_opcode info = info % 16

-- enum rdmap_packet_type
abbrev pub rdmap_opcode_rdma_write : ℕ
rdmap_opcode_rdma_write = 0

abbrev pub rdmap_opcode_rdma_read_request : ℕ
rdmap_opcode_rdma_read_request = 1

abbrev pub rdmap_opcode_rdma_read_response : ℕ
rdmap_opcode_rdma_read_response = 2

abbrev pub rdmap_opcode_send : ℕ
rdmap_opcode_send = 3

abbrev pub rdmap_opcode_send_inv : ℕ
rdmap_opcode_send_inv = 4

abbrev pub rdmap_opcode_send_se : ℕ
rdmap_opcode_send_se = 5

abbrev pub rdmap_opcode_send_se_inv : ℕ
rdmap_opcode_send_se_inv = 6

abbrev pub rdmap_opcode_terminate : ℕ
rdmap_opcode_terminate = 7

-- The sizes of the packed structs.
abbrev pub tagged_size : ℕ
tagged_size = 14

abbrev pub untagged_size : ℕ
untagged_size = 18

abbrev pub readreq_size : ℕ
readreq_size = 42

abbrev pub terminate_size : ℕ
terminate_size = 22

-- enum rdmap_errno, the codes that the program sends.
abbrev pub rdmap_error_stag_invalid : ℕ
rdmap_error_stag_invalid = 0x0100

abbrev pub rdmap_error_base_or_bounds_violation : ℕ
rdmap_error_base_or_bounds_violation = 0x0101

abbrev pub rdmap_error_version_invalid : ℕ
rdmap_error_version_invalid = 0x0205

abbrev pub rdmap_error_opcode_unexpected : ℕ
rdmap_error_opcode_unexpected = 0x0206

abbrev pub rdmap_error_remote_stream_catastrophic : ℕ
rdmap_error_remote_stream_catastrophic = 0x0207

abbrev pub ddp_error_tagged_stag_invalid : ℕ
ddp_error_tagged_stag_invalid = 0x1100

abbrev pub ddp_error_tagged_base_or_bounds_violation : ℕ
ddp_error_tagged_base_or_bounds_violation = 0x1101

abbrev pub ddp_error_tagged_version_invalid : ℕ
ddp_error_tagged_version_invalid = 0x1104

abbrev pub ddp_error_untagged_no_buffer : ℕ
ddp_error_untagged_no_buffer = 0x1202

abbrev pub ddp_error_untagged_invalid_msn : ℕ
ddp_error_untagged_invalid_msn = 0x1203

abbrev pub ddp_error_untagged_message_too_long : ℕ
ddp_error_untagged_message_too_long = 0x1205

abbrev pub ddp_error_untagged_version_invalid : ℕ
ddp_error_untagged_version_invalid = 0x1206

-- trp_hdr opcodes
abbrev pub trp_fin : ℕ
trp_fin = 0x4000

abbrev pub trp_sack : ℕ
trp_sack = 0x5000

-- opcode & trp_opcode_mask
abbrev pub trp_opcode_of : ℕ → ℕ
trp_opcode_of op = op / 2 ^ 12 % 2 ^ 4 * 2 ^ 12
