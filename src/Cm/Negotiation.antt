-- ===== src/Cm/Negotiation.antt =====
-- src/kmod/cm.c: what a request and a reply settle about outstanding reads.
use urdma.Prelude.{
  ℕ, zero, suc, ◌%◌, ◌^◌, ◌≤◌, ◌≡◌, ap, ◌∙◌, sym, Bool, true, List, [], ◌∷◌, ◌++◌, arith, min,
  Option, some,
}
use urdma.Proto.{Bytes}
use urdma.Cm.{siw_cm_upcall, Cep, CepState, KernelQp, trp_req}
use urdma.Cm.Messages.{siw_send_trpreqrep, siw_recv_trp_rr}
use urdma.Cm.Handshake.{
  siw_connect, siw_proc_trpreply, reply_received, siw_qp_rtr, rtr_by_state, irq_of, orq_of, or_one,
  max, modify_to_rts, accept_message, with_opcode, without_private_data, siw_cancel_timer,
}
use urdma.Cm.Passive.{siw_proc_trpreq, request_received, siw_accept, accept_open}
use urdma.Cm.Wire.{recv-send, message, delivered}

-- The endpoint that siw_connect builds its request on.
abbrev pub requester : Cep → ℕ → ℕ → Cep
requester cep ird ord =
    let r = cep.hdr in
    with_opcode (record cep { hdr = record r { ird = ird % 2 ^ 16; ord = ord % 2 ^ 16 } }) trp_req

-- What the two sides may have outstanding: reads that one side sends fit in what the other takes,
-- and the client keeps to the numbers it connected with.
pub record Agreed (ird ord : ℕ) (client server : Option KernelQp) : Type 0 where
  pub client_reads : orq_of client ≤ irq_of server
  pub server_reads : orq_of server ≤ irq_of client
  pub client_ird : irq_of client ≤ or_one ird
  pub client_ord : orq_of client ≤ or_one ord

last-append {ℓ} : {A : Type ℓ} (xs : List A) (a b : A) → xs ++ a ∷ [] ≡ xs ++ b ∷ [] → a ≡ b
last-append [] a b e = cc e
last-append (x ∷ xs) a b e = last-append xs a b (cc e)

connected :
    (cep c1 : Cep) (qp : KernelQp) (ird ord : ℕ) (pd : Bytes)
    → siw_connect true cep qp ird ord pd ≡ some c1
    → (c1.ird ≡ ird % 2 ^ 16)
      × (c1.ord ≡ ord % 2 ^ 16)
      × (c1.sent ≡ cep.sent ++ message (requester cep ird ord) pd ∷ [])
unfolding siw_connect siw_send_trpreqrep
connected cep c1 qp ird ord pd e = grind (arith, e)

-- The endpoint that takes a request offers the peer's numbers, the other way round.
request_received-numbers :
    (htons : ℕ → ℕ) (c s1 : Cep)
    → request_received htons true true (true, c) ≡ (true, s1)
    → (s1.ird ≡ c.hdr.ord) × (s1.ord ≡ c.hdr.ird)
unfolding request_received
request_received-numbers htons c s1 e = grind (arith, e)

accept_open-sizes :
    (connects memory_left : Bool) (c s2 : Cep) (qp : KernelQp) (ird ord : ℕ) (pd : Bytes)
    → accept_open connects memory_left c qp ird ord pd ≡ (true, s2)
    → (irq_of s2.qp ≡ or_one (ird % 2 ^ 16))
      × (orq_of s2.qp ≡ or_one (ord % 2 ^ 16))
      × (ord ≤ c.ord)
      × (s2.state ≡ CepState.accepting)
unfolding accept_open modify_to_rts
accept_open-sizes connects memory_left c s2 qp ird ord pd e = grind (arith, e)

reply_received-sizes :
    (connects : Bool) (c c2 : Cep) (qp : KernelQp)
    → reply_received connects qp (true, c) ≡ (true, c2)
    → (irq_of c2.qp ≡ or_one (max c.hdr.ord c.ird % 2 ^ 16))
      × (orq_of c2.qp ≡ or_one (min c.hdr.ird c.ord % 2 ^ 16))
unfolding reply_received modify_to_rts
reply_received-sizes connects c c2 qp e = grind (arith, e)

siw_accept-open :
    (connects memory_left : Bool) (c s2 : Cep) (qp : KernelQp) (ird ord : ℕ) (pd : Bytes)
    → siw_accept connects memory_left c qp ird ord pd ≡ (true, s2)
    → accept_open connects memory_left (without_private_data c) qp ird ord pd ≡ (true, s2)
unfolding siw_accept
siw_accept-open connects memory_left c s2 qp ird ord pd e = grind (arith, e)

rtr-sent :
    (c : Cep)
    → c.state ≡ CepState.accepting
    → (siw_qp_rtr true true c).sent ≡ c.sent ++ message (accept_message c) c.send_pdata ∷ []
unfolding siw_qp_rtr rtr_by_state siw_send_trpreqrep siw_cm_upcall
rtr-sent c e = ap (λ s. (rtr_by_state true true (siw_cancel_timer c) s).sent) e

or_one-least : (a b : ℕ) → a ≤ b → 1 ≤ b → or_one a ≤ b
or_one-least zero b p q = q
or_one-least (suc a) b p q = p

or_one-above : (a : ℕ) → (a ≤ or_one a) × (1 ≤ or_one a)
or_one-above zero = (omega arith, omega arith)
or_one-above (suc a) = (omega arith, omega arith)

or_one-word : (a n : ℕ) → a ≤ n % 2 ^ 16 → or_one a % 2 ^ 16 ≡ or_one a
or_one-word a n p = omega (arith, or_one-least a 65535 (omega (arith, p)) (omega arith))

max-least : (a b n : ℕ) → a ≤ n → b ≤ n → max a b ≤ n
max-least a b n p q = ground (arith, p, q)

max-above : (a b : ℕ) → a ≤ max a b
max-above a b = ground arith

settled :
    (ird ord ird' ord' : ℕ) (client server : Option KernelQp)
    → irq_of server ≡ or_one ird'
    → orq_of server ≡ or_one ord'
    → ord' ≤ ird % 2 ^ 16
    → irq_of client ≡ or_one (max (orq_of server % 2 ^ 16) (ird % 2 ^ 16) % 2 ^ 16)
    → orq_of client ≡ or_one (min (irq_of server % 2 ^ 16) (ord % 2 ^ 16) % 2 ^ 16)
    → Agreed ird ord client server
settled ird ord ird' ord' client server p q r u0 v0 =
    let word = or_one-word ord' ird r in
    let above = or_one-above ird in
    let m = max (orq_of server % 2 ^ 16) (ird % 2 ^ 16) in
    let w = min (irq_of server % 2 ^ 16) (ord % 2 ^ 16) in
    let most =
      max-least (orq_of server % 2 ^ 16) (ird % 2 ^ 16) 65535 (omega arith) (omega arith) in
    let m_word : m % 2 ^ 16 ≡ m = omega (arith, most) in
    let w_word : w % 2 ^ 16 ≡ w = omega arith in
    let u = u0 ∙ ap or_one m_word in
    let v = v0 ∙ ap or_one w_word in
    let small = or_one-least ord' (or_one ird) (omega (arith, r, above)) above.1 in
    record {
      client_reads = omega (
        arith,
        p,
        v,
        or_one-least w (irq_of server) (omega arith) (omega (arith, p, or_one-above ird')),
      );
      server_reads =
          omega
            (arith, q, u, word, max-above (orq_of server % 2 ^ 16) (ird % 2 ^ 16), or_one-above m);
      client_ird = omega (
        arith,
        u,
        or_one-least m (or_one ird)
            (max-least (orq_of server % 2 ^ 16) (ird % 2 ^ 16) (or_one ird)
              (omega (arith, q, word, small)) (omega (arith, above)))
            above.1,
      );
      client_ord = omega (
        arith,
        v,
        or_one-least w (or_one ord) (omega (arith, or_one-above ord)) (or_one-above ord).1,
      );
    }

-- If a handshake goes through, each side settles on reads that the other takes: a client sends a
-- request with its ird and ord, a server that takes it accepts with its own and replies, and the
-- client takes the reply. The datagrams are the ones that the two sides hand to their sockets. Then
-- neither side has more reads outstanding than the other takes, and the client's sizes are at most
-- the ones it connected with, or 1.
pub negotiated :
    (htons : ℕ → ℕ) (connects connects' memory_left : Bool) (client server c1 s1 s2 c2 : Cep)
    (cqp sqp : KernelQp) (ird ord ird' ord' : ℕ) (pd pd' request reply : Bytes)
    → siw_connect true client cqp ird ord pd ≡ some c1
    → c1.sent ≡ client.sent ++ request ∷ []
    → siw_proc_trpreq htons true true server request ≡ (true, s1)
    → siw_accept connects memory_left s1 sqp ird' ord' pd' ≡ (true, s2)
    → (siw_qp_rtr true true s2).sent ≡ s2.sent ++ reply ∷ []
    → siw_proc_trpreply connects' c1 cqp reply ≡ (true, c2)
    → Agreed ird ord c2.qp s2.qp
unfolding siw_proc_trpreq siw_proc_trpreply
negotiated htons connects connects' memory_left client server c1 s1 s2 c2 cqp sqp ird ord ird' ord'
      pd pd' request reply e1 e2 e3 e4 e5 e6 =
    let from = requester client ird ord in
    let (ird≡, ord≡, sent≡) = connected client c1 cqp ird ord pd e1 in
    let is_request : request ≡ message from pd =
      last-append client.sent request (message from pd) (sym e2 ∙ sent≡) in
    let got =
      (recv-send from server pd (record {
        psn = omega arith;
        ack_psn = omega arith;
        opcode = omega arith;
        ird = omega arith;
        ord = omega arith;
      })).1 in
    let taken = request_received-numbers htons (delivered from server pd) s1 (
      sym (ap (request_received htons true true) (ap (siw_recv_trp_rr server) is_request ∙ got))
      ∙ e3) in
    let (irq≡, orq≡, ord≤, accepting) =
      accept_open-sizes connects memory_left (without_private_data s1) s2 sqp ird' ord' pd'
        (siw_accept-open connects memory_left s1 s2 sqp ird' ord' pd' e4) in
    let back = accept_message s2 in
    let is_reply : reply ≡ message back s2.send_pdata =
      last-append s2.sent reply (message back s2.send_pdata) (sym e5 ∙ rtr-sent s2 accepting) in
    let got' =
      (recv-send back c1 s2.send_pdata (record {
        psn = omega arith;
        ack_psn = omega arith;
        opcode = omega arith;
        ird = omega arith;
        ord = omega arith;
      })).1 in
    let (irq', orq') =
      reply_received-sizes connects' (delivered back c1 s2.send_pdata) c2 cqp
        (sym (ap (reply_received connects' cqp) (ap (siw_recv_trp_rr c1) is_reply ∙ got')) ∙ e6) in
    settled ird ord (ird' % 2 ^ 16) (ord' % 2 ^ 16) c2.qp s2.qp irq≡ orq≡
      (omega (arith, ord≤, taken.1))
      (irq' ∙ ap (λ n. or_one (max (orq_of s2.qp % 2 ^ 16) n % 2 ^ 16)) ird≡)
      (orq' ∙ ap (λ n. or_one (min (irq_of s2.qp % 2 ^ 16) n % 2 ^ 16)) ord≡)
