-- ===== src/Ddp/Context.antt =====
-- src/liburdma/interface.c: what the handlers of received segments read from the packet context.
use urdma.Prelude.{ℕ, ◌+◌, ◌-◌, Bool, get_or}
use urdma.Prelude.Words.{u64, u64_mod}
use urdma.Proto
use urdma.Proto.{Bytes, get_32}
use urdma.Rdmap.{PacketContext}

abbrev pub ddp_get_l_of : PacketContext → Bool
ddp_get_l_of orig = Proto.ddp_get_l (get_or orig.rdmap 0 0)

-- orig->ddp_seg_length - sizeof(header), a size_t
abbrev pub payload_size : PacketContext → ℕ → ℕ
payload_size orig header = u64 (orig.ddp_seg_length + u64_mod - header)
