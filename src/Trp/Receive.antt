-- ===== src/Trp/Receive.antt =====
-- src/liburdma/interface.c, process_data_packet: what the sequence number of a data packet does
-- to the receive state, and whether the packet goes on to the DDP layer.
use urdma.Prelude.{ℕ, ◌+◌, Bool, true, false, ◌&&◌, ◌||◌, ◌==◌, if◌then◌else◌}
use urdma.Prelude.Words.{u32}
use urdma.Serial.{serial_less_32, serial_greater_32}
use urdma.Trp.{Endpoint}

-- in_order and gap_placed go on; the others are dropped.
pub data Verdict : Type 0 where
  in_order gap_placed out_of_range gap_duplicate retransmission : Verdict

abbrev pub is_accepted : Verdict → Bool
is_accepted Verdict.in_order = true
is_accepted Verdict.gap_placed = true
is_accepted Verdict.out_of_range = false
is_accepted Verdict.gap_duplicate = false
is_accepted Verdict.retransmission = false

-- ctx.psn == recv_ack_psn
unfoldable pub advance : Endpoint → Endpoint
advance e =
    let next = u32 (e.recv_ack_psn + 1) in
    if e.recv_missing && next == e.sack_min
    then record e { recv_ack_psn = e.sack_max; recv_missing = false; ack_update = true }
    else record e { recv_ack_psn = next; ack_update = true }

-- The packet stands just below the range that was received out of order.
unfoldable pub extend_down : Endpoint → ℕ → Endpoint
extend_down e psn =
    if psn == e.recv_ack_psn
    then record e {
      sack_min = psn;
      recv_ack_psn = e.sack_max;
      recv_missing = false;
      ack_update = true;
    }
    else record e { sack_min = psn; ack_update = true }

-- serial_less_32(recv_ack_psn, ctx.psn)
unfoldable pub gap : Endpoint → ℕ → Endpoint × Verdict
unfolding extend_down
gap e psn =
    if e.recv_missing
    then (if psn == e.sack_max
        then (record e { sack_max = u32 (psn + 1); ack_update = true }, Verdict.gap_placed)
        else if u32 (psn + 1) == e.sack_min
        then (extend_down e psn, Verdict.gap_placed)
        else if serial_less_32 psn e.sack_min || serial_greater_32 psn e.sack_max
        then (e, Verdict.out_of_range)
        else (e, Verdict.gap_duplicate))
    else (
      record e { recv_missing = true; ack_update = true; sack_min = psn; sack_max = u32 (psn + 1) },
      Verdict.gap_placed,
    )

unfoldable pub receive_psn : Endpoint → ℕ → Endpoint × Verdict
receive_psn e psn =
    if psn == e.recv_ack_psn
    then (advance e, Verdict.in_order)
    else if serial_less_32 e.recv_ack_psn psn
    then gap e psn
    else (e, Verdict.retransmission)
