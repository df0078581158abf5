-- ===== src/Host.antt =====
-- What the program calls and the repository does not implement: DPDK (rings, timers, checksums,
-- mbuf pools, the transmit burst) and the intrusive lists of ccan. A ring or a list stands for
-- the sequence of its entries, which are indices into an array of the program. `Laws` states the
-- documented behaviour that theorems use.
use urdma.Prelude.{
  ℕ, ◌≤◌, ◌<◌, ◌≡◌, Bool, Option, none, some, List, [], ◌∷◌, ◌++◌, ltb, length, ◌==◌, if◌then◌else◌,
  take, drop, min, ◌-◌,
}
use urdma.Proto.{Bytes}

pub record Host : Type 0 where
  -- rte_ring_enqueue, by the entries that the ring can hold, and rte_ring_dequeue; `none` is an
  -- error.
  pub ring_enqueue : ℕ → List ℕ → ℕ → Option (List ℕ)
  pub ring_dequeue : List ℕ → Option (ℕ × List ℕ)
  -- RING_ENQUEUE_BURST: the ring and how many entries it took; RING_DEQUEUE_BURST: the entries and
  -- the ring.
  pub ring_enqueue_burst : ℕ → List ℕ → List ℕ → List ℕ × ℕ
  pub ring_dequeue_burst : List ℕ → ℕ → List ℕ × List ℕ
  -- list_add_tail, list_del and list_top
  pub list_add_tail : List ℕ → ℕ → List ℕ
  pub list_del : List ℕ → ℕ → List ℕ
  pub list_top : List ℕ → Option ℕ
  -- rte_raw_cksum; rte_ipv4_cksum and rte_ipv4_phdr_cksum of the fields that vary (total length,
  -- source, destination, and for the latter whether the offload flags are set)
  pub raw_cksum : Bytes → ℕ
  pub ipv4_cksum : ℕ → ℕ → ℕ → ℕ
  pub phdr_cksum : ℕ → ℕ → ℕ → Bool → ℕ
  -- the word that rte_cpu_to_be_16 stores
  pub cpu_to_be_16 : ℕ → ℕ
  -- rte_get_timer_hz
  pub timer_hz : ℕ
  -- the result of rte_eth_tx_burst by the number of the call and the packets offered
  pub tx_burst : ℕ → ℕ → ℕ
  -- whether rte_pktmbuf_alloc finds a header mbuf, by the number of the call
  pub hdr_alloc : ℕ → Bool
  -- the address of the mbuf that rte_pktmbuf_alloc returns for a segment, by the number of the call
  pub ddp_alloc : ℕ → ℕ

abbrev pub erase : List ℕ → ℕ → List ℕ
erase [] x = []
erase (y ∷ ys) x = let rest = y ∷ erase ys x in if y == x then ys else rest

abbrev pub head? : List ℕ → Option ℕ
head? [] = none
head? (x ∷ xs) = some x

abbrev pub uncons : List ℕ → Option (ℕ × List ℕ)
uncons [] = none
uncons (x ∷ xs) = some (x, xs)

-- Rings are first in, first out; a list keeps its order and loses the deleted entry.
pub record Laws (h : Host) : Type 0 where
  pub enqueue :
      (n : ℕ) (r : List ℕ) (x : ℕ)
      → h.ring_enqueue n r x ≡ (if ltb (length r) n then some (r ++ x ∷ []) else none)
  pub dequeue : (r : List ℕ) → h.ring_dequeue r ≡ uncons r
  pub enqueue_burst :
      (n : ℕ) (r xs : List ℕ)
      → h.ring_enqueue_burst n r xs ≡ (r ++ take (n - length r) xs, min (n - length r) (length xs))
  pub dequeue_burst : (r : List ℕ) (n : ℕ) → h.ring_dequeue_burst r n ≡ (take n r, drop n r)
  pub add_tail : (l : List ℕ) (x : ℕ) → h.list_add_tail l x ≡ l ++ x ∷ []
  pub del : (l : List ℕ) (x : ℕ) → h.list_del l x ≡ erase l x
  pub top : (l : List ℕ) → h.list_top l ≡ head? l
  -- The transmit burst takes no more than it is offered.
  pub tx_most : (call n : ℕ) → h.tx_burst call n ≤ n

-- The NIC makes progress: it takes at least one packet of a burst.
abbrev pub TxProgress : Host → Type 0
TxProgress h = (call n : ℕ) → 0 < n → 0 < h.tx_burst call n
