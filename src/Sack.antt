-- ===== src/Sack.antt =====
-- src/liburdma/interface.c: maybe_sack_pending and process_trp_sack. `sendmsg` is declared there
-- as a pointer into the array tx_pending, so `sendmsg + 1` is the address of the next slot of the
-- array, and the pending_datagram_info that the function reads and writes overlays the slots that
-- follow: its next_retransmit is the word 1 past the slot, its psn the low half of the word 5
-- past it. (sweep_unacked_packets has a `sendmsg` that points to the mbuf.)
use urdma.Prelude.{
  ℕ, zero, suc, ◌+◌, ◌-◌, ◌^◌, ◌<◌, ◌≡◌, ◌≢◌, ◌&&◌, ◌||◌, Bool, true, false, arith, ◌==◌,
  if◌then◌else◌,
}
use urdma.Prelude.Words.{u32}
use urdma.Serial.{serial_less_32}
use urdma.Trp.{Endpoint}
use urdma.Qp.{update}

abbrev pub uint64_max : ℕ
uint64_max = 2 ^ 64 - 1

abbrev pub in_sack : ℕ → ℕ → ℕ → Bool
in_sack psn psn_min psn_max =
    (psn_min == psn || serial_less_32 psn_min psn) && serial_less_32 psn psn_max

-- maybe_sack_pending on the struct that starts at the word `base`.
unfoldable pub maybe_sack_pending : (ℕ → ℕ) → ℕ → ℕ → ℕ → ℕ → ℕ
maybe_sack_pending words base psn_min psn_max =
    if in_sack (u32 (words (base + 4))) psn_min psn_max then update words base uint64_max else words

abbrev pub next_slot : ℕ → ℕ → ℕ
next_slot size i = if i + 1 == size then 0 else i + 1

-- The do-while loop; it comes back to the start after `size` rounds at most.
unfoldable pub sack_loop : ℕ → (ℕ → ℕ) → ℕ → ℕ → ℕ → ℕ → ℕ → ℕ → ℕ
sack_loop zero words size start i psn_min psn_max = words
sack_loop (suc fuel) words size start i psn_min psn_max =
    let words' = maybe_sack_pending words (i + 1) psn_min psn_max in
    let rest = sack_loop fuel words' size start (next_slot size i) psn_min psn_max in
    if next_slot size i == start || words' (next_slot size i) == 0 then words' else rest

unfoldable pub process_trp_sack : Endpoint → ℕ → ℕ → Endpoint
process_trp_sack e psn_min psn_max = record e {
  tx_pending =
      if e.tx_pending e.tx_head == 0
      then e.tx_pending
      else sack_loop e.tx_pending_size e.tx_pending e.tx_pending_size e.tx_head e.tx_head psn_min
          psn_max;
}

sack_loop-keeps :
    (fuel : ℕ) (words : ℕ → ℕ) (size start i lo hi j : ℕ)
    → words j ≡ uint64_max
    → sack_loop fuel words size start i lo hi j ≡ uint64_max
unfolding sack_loop maybe_sack_pending
sack_loop-keeps zero words size start i lo hi j e = e
sack_loop-keeps (suc fuel) words size start i lo hi j e =
    let words' = maybe_sack_pending words (i + 1) lo hi in
    let kept : words' j ≡ uint64_max = ground arith in
    ground (arith, kept, sack_loop-keeps fuel words' size start (next_slot size i) lo hi j)

sack_first :
    (fuel : ℕ) (words : ℕ → ℕ) (size i lo hi : ℕ)
    → in_sack (u32 (words (i + 1 + 4))) lo hi ≡ true
    → sack_loop (suc fuel) words size i i lo hi (i + 1) ≡ uint64_max
unfolding sack_loop
sack_first fuel words size i lo hi hit =
    let written : maybe_sack_pending words (i + 1) lo hi (i + 1) ≡ uint64_max =
      unfold maybe_sack_pending in rw hit (ground arith) in
    let words' = maybe_sack_pending words (i + 1) lo hi in
    ground
      (arith, written, sack_loop-keeps fuel words' size i (next_slot size i) lo hi (i + 1) written)

-- A SACK does not reach the retransmission deadlines, which stand behind the mbufs. Instead,
-- while a segment waits at the head of the ring and the low half of the word five slots further
-- lies in the acknowledged range, the slot after the head is overwritten with the pointer
-- 2 ^ 64 - 1, whatever it held.
pub process_trp_sack-overwrites_slot :
    (e : Endpoint) (psn_min psn_max : ℕ)
    → e.tx_pending e.tx_head ≢ 0
    → 0 < e.tx_pending_size
    → in_sack (u32 (e.tx_pending (e.tx_head + 1 + 4))) psn_min psn_max ≡ true
    → (process_trp_sack e psn_min psn_max).tx_pending (e.tx_head + 1) ≡ uint64_max
unfolding process_trp_sack
process_trp_sack-overwrites_slot e lo hi some_head pos hit =
    let waits : (e.tx_pending e.tx_head == 0) ≡ false = ground arith in
    rw waits (first e.tx_pending_size pos)
  where
    first :
        (fuel : ℕ)
        → 0 < fuel
        → sack_loop fuel e.tx_pending e.tx_pending_size e.tx_head e.tx_head lo hi (e.tx_head + 1)
          ≡ uint64_max
    first zero p = absurd (omega arith)
    first (suc fuel) p = sack_first fuel e.tx_pending e.tx_pending_size e.tx_head lo hi hit
