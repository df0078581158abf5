-- ===== src/Cm/Wire.antt =====
-- src/kmod/cm.c: what siw_recv_trp_rr makes of a message of siw_send_trpreqrep.
use urdma.Prelude.{
  ℕ, zero, suc, ◌+◌, ◌%◌, ◌^◌, ◌<◌, ◌≡◌, refl, ap, ◌∙◌, true, [], ◌++◌, arith, length, length-take,
  take, take_all, drop, min, ◌∷◌,
}
use urdma.Proto.{Bytes}
use urdma.Proto.Fields.{join_16, join_32}
use urdma.Cm.{Cep, RequestReply}
use urdma.Cm.Messages.{rr_bytes, rr_of, check_rr, siw_send_trpreqrep, siw_recv_trp_rr}

-- The numbers of a message fit the fields of its struct.
pub record RrFits (r : RequestReply) : Type 0 where
  pub psn : r.psn < 2 ^ 32
  pub ack_psn : r.ack_psn < 2 ^ 32
  pub opcode : r.opcode < 2 ^ 16
  pub ird : r.ird < 2 ^ 16
  pub ord : r.ord < 2 ^ 16

rr_of-bytes :
    (r : RequestReply) (n : ℕ)
    → RrFits r
    → n < 2 ^ 8
    → rr_of (rr_bytes (record r { pd_len = n })) ≡ record r { pd_len = n }
unfolding rr_of rr_bytes
rr_of-bytes r n f p = ground (
  arith,
  join_32 r.psn f.psn,
  join_32 r.ack_psn f.ack_psn,
  join_16 r.opcode f.opcode,
  join_16 n (omega (arith, p)),
  join_16 r.ird f.ird,
  join_16 r.ord f.ord,
)

abbrev pub truncated : Bytes → Bytes
truncated pdata = take (length pdata % 2 ^ 8) pdata

length-truncated : (pdata : Bytes) → length (truncated pdata) ≡ length pdata % 2 ^ 8
length-truncated pdata = omega (arith, length-take (length pdata % 2 ^ 8) pdata)

drop-nil : (n : ℕ) → drop {A = ℕ} n [] ≡ []
drop-nil zero = refl
drop-nil (suc n) = refl

after_header : (r : RequestReply) (rest : Bytes) → drop 16 (rr_bytes r ++ rest) ≡ rest
unfolding rr_bytes
after_header r rest = refl

length-message : (r : RequestReply) (rest : Bytes) → length (rr_bytes r ++ rest) ≡ 16 + length rest
unfolding rr_bytes
length-message r rest = omega arith

-- The bytes of a header in front of others, over any old header.
header_over :
    (r old : RequestReply) (rest : Bytes)
    → take 16 (rr_bytes r ++ rest) ++ drop (length (rr_bytes r ++ rest)) (rr_bytes old) ≡ rr_bytes r
unfolding rr_bytes
header_over r old rest = ap (λ l. rr_bytes r ++ l) (drop-nil (length rest))

-- What a receiver's endpoint looks like after a message.
abbrev pub delivered : Cep → Cep → Bytes → Cep
delivered sender receiver pdata =
    let r = sender.hdr in
    record receiver { hdr = record r { pd_len = length pdata % 2 ^ 8 }; pdata = truncated pdata }

-- The message that siw_send_trpreqrep hands to the socket.
abbrev pub message : Cep → Bytes → Bytes
message sender pdata =
    let r = sender.hdr in rr_bytes (record r { pd_len = length pdata % 2 ^ 8 }) ++ truncated pdata

check_rr-whole :
    (cep : Cep) (hdr : RequestReply) (pdata : Bytes)
    → hdr.pd_len < 256
    → check_rr cep (16 + hdr.pd_len) hdr pdata ≡ (true, record cep { hdr = hdr; pdata = pdata })
unfolding check_rr
check_rr-whole cep hdr pdata p = ground (arith, p)

-- If the numbers of the header fit their fields, siw_send_trpreqrep hands over one datagram, and
-- siw_recv_trp_rr of any endpoint accepts it and finds the header that was sent. Of the private
-- data it finds the first bytes, as many as its length modulo 256, so all only up to 255 bytes.
pub recv-send :
    (sender receiver : Cep) (pdata : Bytes)
    → RrFits sender.hdr
    → ((siw_send_trpreqrep true sender pdata).sent ≡ sender.sent ++ message sender pdata ∷ [])
      × (siw_recv_trp_rr receiver (message sender pdata) ≡ (true, delivered sender receiver pdata))
unfolding siw_send_trpreqrep siw_recv_trp_rr
recv-send sender receiver pdata f =
    let n = length pdata % 2 ^ 8 in
    let r = sender.hdr in
    let hdr = record r { pd_len = n } in
    let rest = truncated pdata in
    let size = length-message hdr rest ∙ ap (λ k. 16 + k) (length-truncated pdata) in
    let parsed = ap rr_of (header_over hdr receiver.hdr rest) ∙ rr_of-bytes r n f (omega arith) in
    let body =
      ap (take 512) (after_header hdr rest)
      ∙ take_all 512 rest (omega (arith, length-truncated pdata)) in
    let d = message sender pdata in
    let rv : min (length d) 528 ≡ 16 + n = omega (arith, size) in
    (
      refl,
      ap
            (λ l.
              check_rr receiver l (rr_of (take 16 d ++ drop (length d) (rr_bytes receiver.hdr)))
                (take 512 (drop 16 d)))
            rv
          ∙ ap (λ h. check_rr receiver (16 + n) h (take 512 (drop 16 d))) parsed
          ∙ ap (check_rr receiver (16 + n) hdr) body
          ∙ check_rr-whole receiver hdr rest (omega arith),
    )
