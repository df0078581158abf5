-- ===== src/Cm/Messages.antt =====
-- src/kmod/cm.c: siw_send_trpreqrep and siw_recv_trp_rr, with struct trp_rr as the bytes of a
-- datagram.
use urdma.Prelude.{
  ℕ, ◌+◌, ◌%◌, ◌^◌, Bool, true, false, ◌||◌, not, [], ◌∷◌, ◌++◌, ltb, ◌==◌, if◌then◌else◌, length,
  take, drop, min,
}
use urdma.Proto.{Bytes, put_16, put_32, get_16, get_32}
use urdma.Cm.{Cep, RequestReply, pdata_len_max}

abbrev pub rr_size : ℕ
rr_size = 16

unfoldable pub rr_bytes : RequestReply → Bytes
unfolding put_16 put_32
rr_bytes r =
    put_32 r.psn
    ++ put_32 r.ack_psn
    ++ put_16 r.opcode
    ++ put_16 r.pd_len
    ++ put_16 r.ird
    ++ put_16 r.ord

unfoldable pub rr_of : Bytes → RequestReply
unfolding get_16 get_32
rr_of b = record {
  psn = get_32 b 0;
  ack_psn = get_32 b 4;
  opcode = get_16 b 8;
  pd_len = get_16 b 10;
  ird = get_16 b 12;
  ord = get_16 b 14;
}

-- The length of the private data is a u8 here. A failed send leaves the header as it was built.
unfoldable pub siw_send_trpreqrep : Bool → Cep → Bytes → Cep
unfolding rr_bytes
siw_send_trpreqrep sends cep pdata =
    let pd_len = length pdata % 2 ^ 8 in
    let r = cep.hdr in
    let hdr = record r { pd_len = pd_len } in
    record cep {
      hdr = hdr;
      sent = if sends then cep.sent ++ (rr_bytes hdr ++ take pd_len pdata) ∷ [] else cep.sent;
    }

-- The tests on the length that was received and the header.
unfoldable pub check_rr : Cep → ℕ → RequestReply → Bytes → Bool × Cep
check_rr cep rv hdr pdata =
    let received = record cep { hdr = hdr; pdata = pdata } in
    if ltb rv rr_size || ltb pdata_len_max hdr.pd_len || not (rv == rr_size + hdr.pd_len)
    then (false, received)
    else (true, received)

-- kernel_recvmsg writes what there is over the header and the buffer of the private data; a longer
-- datagram is cut off. The result is whether the datagram is one whole request or reply.
unfoldable pub siw_recv_trp_rr : Cep → Bytes → Bool × Cep
unfolding rr_bytes rr_of check_rr
siw_recv_trp_rr cep datagram =
    check_rr cep (min (length datagram) (rr_size + pdata_len_max))
      (rr_of (take rr_size datagram ++ drop (length datagram) (rr_bytes cep.hdr)))
      (take pdata_len_max (drop rr_size datagram))
