-- ===== src/Completion/Owned.antt =====
-- src/liburdma/interface.c: who holds an entry of a work queue. An entry is free, waits on the
-- ring, is active, or is lost: neither in a ring nor in a list.
use urdma.Prelude.{ℕ, ◌+◌, ◌<◌, ◌≡◌, List, [], ◌∷◌, ◌++◌, ltb, ◌==◌, arith, length, length-append}
use urdma.Prelude.Counts.{bit, bit-most, times, times-append, times_self}
use urdma.Host.{erase}
use urdma.Qp.{RecvQueue, SendQueue}

-- Every index below `size` stands in one of the lists, once, and no other index does.
pub record Owned (lost : List ℕ) (size : ℕ) (ring free active : List ℕ) : Type 0 where
  pub each :
      (i : ℕ) → times i ring + times i free + times i active + times i lost ≡ bit (ltb i size)
  pub all : length ring + length free + length active + length lost ≡ size

abbrev pub RecvOwned : RecvQueue → Type 0
RecvOwned r = Owned [] r.max_wr r.ring r.free_ring r.active

abbrev pub SendOwned : List ℕ → SendQueue → Type 0
SendOwned lost s = Owned lost s.max_wr s.ring s.free_ring s.active

module _ {lost : List ℕ} {size : ℕ} {ring free active : List ℕ} where
  -- A free entry goes on the ring.
  pub wait-Owned :
      (i : ℕ)
      → Owned lost size ring (i ∷ free) active
      → Owned lost size (ring ++ i ∷ []) free active
  wait-Owned i o = record {
    each = λ n. omega (arith, o.each n, times-append n ring (i ∷ []));
    all = omega (arith, o.all, length-append ring (i ∷ []));
  }

  -- A free entry is lost.
  pub lose-Owned :
      (i : ℕ) → Owned lost size ring (i ∷ free) active → Owned (i ∷ lost) size ring free active
  lose-Owned i o = record { each = λ n. omega (arith, o.each n); all = omega (arith, o.all) }

  -- A free entry is put back.
  pub return-Owned :
      (i : ℕ)
      → Owned lost size ring (i ∷ free) active
      → Owned lost size ring (free ++ i ∷ []) active
  return-Owned i o = record {
    each = λ n. omega (arith, o.each n, times-append n free (i ∷ []));
    all = omega (arith, o.all, length-append free (i ∷ []));
  }

  -- A waiting entry becomes active.
  pub activate-Owned :
      (i : ℕ)
      → Owned lost size (i ∷ ring) free active
      → Owned lost size ring free (active ++ i ∷ [])
  activate-Owned i o = record {
    each = λ n. omega (arith, o.each n, times-append n active (i ∷ []));
    all = omega (arith, o.all, length-append active (i ∷ []));
  }

  pub free-times : (i : ℕ) → Owned lost size ring (i ∷ free) active → times i ring ≡ 0
  free-times i o = omega (arith, o.each i, times_self i free, bit-most (ltb i size))

  pub free-active : (i : ℕ) → Owned lost size ring (i ∷ free) active → times i active ≡ 0
  free-active i o = omega (arith, o.each i, times_self i free, bit-most (ltb i size))

-- Taking an entry off a list that has it takes it off once.
pub times-erase :
    (n i : ℕ) (xs : List ℕ) → 0 < times i xs → times n (erase xs i) + bit (n == i) ≡ times n xs
times-erase n i [] p = absurd (omega (arith, p))
times-erase n i (x ∷ xs) p = ground (arith, p, times-erase n i xs)

pub length-erase : (i : ℕ) (xs : List ℕ) → 0 < times i xs → length (erase xs i) + 1 ≡ length xs
length-erase i [] p = absurd (omega (arith, p))
length-erase i (x ∷ xs) p = ground (arith, p, length-erase i xs)

-- An active entry is put back.
pub release-Owned :
    {lost : List ℕ} {size : ℕ} {ring free active : List ℕ} (i : ℕ)
    → 0 < times i active
    → Owned lost size ring free active
    → Owned lost size ring (free ++ i ∷ []) (erase active i)
release-Owned {lost} {size} {ring} {free} {active} i p o = record {
  each = λ n. omega (arith, o.each n, times-append n free (i ∷ []), times-erase n i active p);
  all = omega (arith, o.all, length-append free (i ∷ []), length-erase i active p);
}
