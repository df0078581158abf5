-- ===== src/Udp/Checksum.antt =====
-- src/liburdma/interface.c: The UDP checksum of send_udp_dgram.
use urdma.Prelude.{ℕ, zero, suc, ◌+◌, ◌/◌, ◌%◌, ◌^◌, ◌≤◌, ◌<◌, ◌≡◌, refl, arith}
use urdma.Prelude.Words.{u32_mod}
use urdma.Udp.{fold_carries, finish_cksum}

fold_round : (raw : ℕ) → (raw / 2 ^ 16 + raw % 2 ^ 16) % 0xffff ≡ raw % 0xffff
fold_round raw = omega arith

fold_carries-lem :
    (raw : ℕ)
    → raw < u32_mod
    → (fold_carries 3 raw ≤ 0xffff) × (fold_carries 3 raw % 0xffff ≡ raw % 0xffff)
unfolding fold_carries
fold_carries-lem raw h = ground (arith, fold_round raw, fold_round (raw / 2 ^ 16 + raw % 2 ^ 16))

fold_carries_small : (fuel v : ℕ) → v ≤ 0xffff → fold_carries fuel v ≡ v
unfolding fold_carries
fold_carries_small zero v h = refl
fold_carries_small (suc fuel) v h = ground arith

fold_carries_enough :
    (extra raw : ℕ) → raw < u32_mod → fold_carries (suc (suc (suc extra))) raw ≡ fold_carries 3 raw
unfolding fold_carries
fold_carries_enough extra raw h =
    let twice = (raw / 2 ^ 16 + raw % 2 ^ 16) / 2 ^ 16 + (raw / 2 ^ 16 + raw % 2 ^ 16) % 2 ^ 16 in
    ground (arith, fold_carries_small (suc extra) twice, fold_carries_small 1 twice)

-- For every 32-bit sum of the datagram's words the loop ends by its own test, further rounds
-- change nothing, the checksum fits 16 bits, is never the 0 that means "no checksum", and added
-- to the sum gives 0 in ones' complement arithmetic, which is what a receiver verifies.
pub finish_cksum_verifies :
    (raw extra : ℕ)
    → raw < u32_mod
    → (fold_carries (suc (suc (suc extra))) raw ≡ fold_carries 3 raw)
      × (0 < finish_cksum raw)
      × (finish_cksum raw ≤ 0xffff)
      × ((raw + finish_cksum raw) % 0xffff ≡ 0)
unfolding finish_cksum
finish_cksum_verifies raw extra h =
    let f = fold_carries-lem raw h in
    (fold_carries_enough extra raw h, ground (arith, f), ground (arith, f), ground (arith, f))
