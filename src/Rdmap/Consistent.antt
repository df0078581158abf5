-- ===== src/Rdmap/Consistent.antt =====
-- src/liburdma/interface.c: the functions that send segments and acknowledgements touch neither
-- the receive queue nor the completion queues.
use urdma.Prelude.{ℕ, zero, suc, ◌+◌, ◌%◌, ◌&&◌, ◌||◌, Option, none, some, ltb, leb, ◌==◌}
use urdma.Serial.{serial_greater_32}
use urdma.Host.{Host}
use urdma.Proto.{Bytes}
use urdma.Proto.Headers.{readreq_bytes}
use urdma.Qp.{Qp, SendWqe}
use urdma.Transmission.{send_ddp_segment}
use urdma.Transmission.Keeps.{Keeps, send_ddp_segment-Keeps}
use urdma.Completion.Consistent.{Consistent, if-Consistent}
use urdma.Rdmap.{
  PacketContext, do_rdmap_terminate, send_round, send_loop, has_credit, mark_sent, do_rdmap_send,
  do_rdmap_write, do_rdmap_read_request, readreq_of, is_transfer,
}

pub Keeps-Consistent : (q q' : Qp) → Keeps q q' → Consistent q → Consistent q'
Keeps-Consistent q q' k v = record { held = rw (k.rq0, k.cqs) v.held }

pub send_ddp_segment-Consistent :
    (h : Host) (q : Qp) (segment : Bytes) (readresp wqe : Option ℕ) (len : ℕ)
    → Consistent q
    → Consistent (send_ddp_segment h q segment readresp wqe len)
send_ddp_segment-Consistent h q segment readresp wqe len =
    Keeps-Consistent q _ (send_ddp_segment-Keeps h q segment readresp wqe len).0

pub terminate-Consistent :
    (h : Host) (q : Qp) (orig : PacketContext) (errcode : ℕ)
    → Consistent q
    → Consistent (do_rdmap_terminate h q orig errcode)
unfolding do_rdmap_terminate
terminate-Consistent h q orig errcode = send_ddp_segment-Consistent h q _ none none 0

send_loop-Consistent :
    (h : Host) (fuel : ℕ) (q : Qp) (i : ℕ) (header : SendWqe → ℕ → Bytes)
    → Consistent q
    → Consistent (send_loop h fuel q i header)
unfolding send_loop send_round
send_loop-Consistent h zero q i header v = v
send_loop-Consistent h (suc fuel) q i header v =
    let w = q.sq.storage i in
    let sent = send_ddp_segment-Consistent h q _ none (some i) _ v in
    if-Consistent (ltb w.bytes_sent w.total_length && has_credit q)
      (send_loop-Consistent h fuel (send_round h q i header) i header (record { held = sent.held }))
      v

mark_sent-Consistent : (q : Qp) (i : ℕ) → Consistent q → Consistent (mark_sent q i)
unfolding mark_sent
mark_sent-Consistent q i v =
    let w = q.sq.storage i in
    if-Consistent (w.bytes_sent == w.total_length) (record { held = v.held }) v

pub do_rdmap_send-Consistent :
    (h : Host) (q : Qp) (i : ℕ) → Consistent q → Consistent (do_rdmap_send h q i)
unfolding do_rdmap_send
do_rdmap_send-Consistent h q i v = mark_sent-Consistent _ i (send_loop-Consistent h _ q i _ v)

pub do_rdmap_write-Consistent :
    (h : Host) (q : Qp) (i : ℕ) → Consistent q → Consistent (do_rdmap_write h q i)
unfolding do_rdmap_write
do_rdmap_write-Consistent h q i v = mark_sent-Consistent _ i (send_loop-Consistent h _ q i _ v)

pub do_rdmap_read_request-Consistent :
    (h : Host) (q : Qp) (i : ℕ) → Consistent q → Consistent (do_rdmap_read_request h q i)
unfolding do_rdmap_read_request
do_rdmap_read_request-Consistent h q i v =
    let w = q.sq.storage i in
    let e = q.remote_ep in
    let q1 : Qp = record q { ord_active = (q.ord_active + 1) % 256 } in
    let sent =
      send_ddp_segment-Consistent h q1 (readreq_bytes (readreq_of w)) none (some i) 0
        (record { held = v.held }) in
    if-Consistent (is_transfer w.state)
      (if-Consistent (leb q.shm.ord_max q.ord_active) v (
        if-Consistent
          (e.send_next_psn == e.send_max_psn || serial_greater_32 e.send_next_psn e.send_max_psn) v
          (record { held = sent.held })))
      v
