-- ===== src/Tests/Transport.antt =====
-- The theorems on the transport at concrete inputs.
use urdma.Prelude.{
  ℕ, ◌+◌, ◌%◌, ◌<◌, ◌≤◌, ◌↔◌, ◌≡◌, refl, true, false, none, List, [], ◌∷◌, ◌++◌, arith, length,
}
use urdma.Prelude.Words.{u32_mod, half32}
use urdma.Tests.Scenario.{
  host, host_progress, qp, endpoint, transmit, segment, qp-InFlight, third_mbuf-IsFresh,
}
use urdma.Serial.{serial_less_32, serial_greater_32, distance, serial_compare_lem}
use urdma.Trp.{Endpoint}
use urdma.Proto.Headers.{TrpHeader}
use urdma.Qp.{Transmit}
use urdma.Trp.Receive.{Verdict, receive_psn, is_accepted}
use urdma.Trp.Window.{Window, received, arrive, IsWindow, Represents}
use urdma.Trp.Refine.{Step, receive_psn-refines}
use urdma.Prelude.Counts.{bit, times}
use urdma.Trp.Once.{receive_all, arrive_all, receive_all-exactly_once}
use urdma.Udp.{flush_tx_queue, finish_cksum, fold_carries, dgram_frame}
use urdma.Udp.Flush.{flush_tx_queue-sends_all}
use urdma.Udp.Checksum.{finish_cksum_verifies}
use urdma.Transmission.{resend_ddp_segment, send_ddp_segment, tx_pending_entry}
use urdma.Transmission.Resend.{Outcome, resend_ddp_segment-limit}
use urdma.Transmission.Ring.{InFlight, send_ddp_segment-InFlight}
use urdma.Sweep.{sweep_acked}
use urdma.Sweep.Acked.{sweep_acked-releases}
use urdma.Sack.{process_trp_sack, process_trp_sack-overwrites_slot, uint64_max}

abbrev window : Window
window = record { ack = 7; missing = false; lo = 0; hi = 0 }

window-IsWindow : IsWindow window
window-IsWindow = record {
  above = λ e. absurd (ground arith);
  holds_some = λ e. absurd (ground arith);
  narrow = λ e. absurd (ground arith);
}

endpoint-Represents : Represents endpoint window
endpoint-Represents = record {
  ack = refl;
  missing = refl;
  lo = λ e. absurd (ground arith);
  hi = λ e. absurd (ground arith);
}

-- The packets 8, 7, 8 and 10 arrive: one out of order, a duplicate, and one after a loss.
abbrev arrivals : List ℕ
arrivals = 8 ∷ 7 ∷ 8 ∷ 10 ∷ []

unfold_run : (receive_all endpoint arrivals).1 ≡ 8 ∷ 7 ∷ 10 ∷ []
unfolding receive_all receive_psn urdma.Trp.Receive.advance urdma.Trp.Receive.gap serial_less_32
unfold_run = refl

receive_all_example :
    Represents (receive_all endpoint arrivals).0 (arrive_all window arrivals)
    × ((n : ℕ)
        → times n (receive_all endpoint arrivals).1 + bit (received window n)
          ≡ bit (received (arrive_all window arrivals) n))
unfolding arrive
receive_all_example =
    receive_all-exactly_once endpoint window arrivals endpoint-Represents window-IsWindow (
      (omega arith, omega arith),
      ((omega arith, omega arith), ((omega arith, omega arith), ((omega arith, omega arith), tt))),
    )

receive_psn_example :
    Step
      (receive_psn endpoint (8 % u32_mod)).0
      (receive_psn endpoint (8 % u32_mod)).1
      (arrive window 8).0
      (arrive window 8).1
receive_psn_example =
    receive_psn-refines endpoint window 8 endpoint-Represents window-IsWindow
      (omega arith, omega arith)

sweep_acked_example :
    InFlight (sweep_acked host 4 qp).0.remote_ep (sweep_acked host 4 qp).0.mbufs 2 1 2
sweep_acked_example =
    sweep_acked-releases host qp 2 0 2 1 qp-InFlight refl (omega arith) (omega arith) (omega arith)

send_ddp_segment_example :
    (endpoint.tx_pending (tx_pending_entry endpoint 2) ≡ 0)
    × InFlight
        (send_ddp_segment host qp segment none none 3).remote_ep
        (send_ddp_segment host qp segment none none 3).mbufs
        2
        0
        3
send_ddp_segment_example =
    send_ddp_segment-InFlight host qp segment none none 3 2 0 2 qp-InFlight (omega arith)
      third_mbuf-IsFresh

resend_ddp_segment_example :
    (((resend_ddp_segment host qp 1).0.mbufs 1).transmit_count ≡ 1 + 1)
    × Outcome host qp 1 (resend_ddp_segment host qp 1)
resend_ddp_segment_example = resend_ddp_segment-limit host qp 1 (omega arith)

abbrev trp : TrpHeader
trp = record { psn = 2; ack_psn = 7; opcode = 0 }

-- Six mbufs wait in the ring, at the addresses 21 to 26.
abbrev full_ring : Endpoint
full_ring = record endpoint { tx_pending = λ i. 21 + i; tx_pending_size = 8 }

process_trp_sack_example : (process_trp_sack full_ring 26 30).tx_pending 1 ≡ uint64_max
process_trp_sack_example =
    process_trp_sack-overwrites_slot full_ring 26 30 (omega arith) (omega arith)
      (unfold serial_less_32 in refl)

abbrev waiting : Transmit
waiting = record transmit { txq = dgram_frame host qp trp segment 6 ∷ [] }

flush_tx_queue_example :
    (length (flush_tx_queue host waiting).txq ≡ 0)
    × ((flush_tx_queue host waiting).wire ≡ [] ++ dgram_frame host qp trp segment 6 ∷ [])
flush_tx_queue_example = flush_tx_queue-sends_all host waiting host_progress

finish_cksum_example :
    (fold_carries 4 0x2fffd ≡ fold_carries 3 0x2fffd)
    × (0 < finish_cksum 0x2fffd)
    × (finish_cksum 0x2fffd ≤ 0xffff)
    × ((0x2fffd + finish_cksum 0x2fffd) % 0xffff ≡ 0)
finish_cksum_example = finish_cksum_verifies 0x2fffd 1 (omega arith)

serial_compare_example :
    (serial_less_32 0xfffffffe 1 ≡ true
      ↔ (0 < distance 0xfffffffe 1) × (distance 0xfffffffe 1 < half32))
    × (serial_greater_32 0xfffffffe 1 ≡ true
        ↔ (0 < distance 1 0xfffffffe) × (distance 1 0xfffffffe < half32))
serial_compare_example = serial_compare_lem 0xfffffffe 1 (omega arith) (omega arith)
