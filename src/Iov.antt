-- ===== src/Iov.antt =====
-- src/liburdma/interface.c: memcpy_from_iov and memcpy_to_iov, the copies between a contiguous
-- buffer and the memory that a list of iovecs describes.
pub mod Copy
pub mod Scatter
pub mod Slice
use urdma.Prelude.{
  ℕ, zero, suc, ◌+◌, ◌-◌, min, Bool, ◌&&◌, List, [], ◌∷◌, ◌++◌, ltb, leb, if◌then◌else◌, length,
  take, drop,
}
use urdma.Proto.{Bytes}
use urdma.Qp.{Iovec, update}

abbrev pub Memory : Type 0
Memory = ℕ → ℕ

-- rte_memcpy out of and into memory.
unfoldable pub load : Memory → ℕ → ℕ → Bytes
load m a zero = []
load m a (suc n) = m a ∷ load m (a + 1) n

unfoldable pub store : Memory → ℕ → Bytes → Memory
store m a [] = m
store m a (b ∷ bs) = store (update m a b) (a + 1) bs

-- The loops, by the iovecs that are left; the bytes that the first one copies are its result.
unfoldable pub from_iov : Memory → List Iovec → ℕ → ℕ → ℕ → ℕ → Bytes
from_iov m [] dest_size prev pos offset = []
from_iov m (v ∷ vs) dest_size prev pos offset =
    let cur = min (prev + v.len - offset) (dest_size - pos) in
    let here = load m (v.base + (offset - prev)) cur in
    let inside = leb prev offset && ltb offset (prev + v.len) in
    let rest =
      from_iov m vs dest_size (prev + v.len) (if inside then pos + cur else pos)
        (if inside then offset + cur else offset) in
    if ltb pos dest_size then (if inside then here ++ rest else rest) else []

unfoldable pub memcpy_from_iov : Memory → ℕ → List Iovec → ℕ → Bytes
memcpy_from_iov m dest_size src offset = from_iov m src dest_size 0 0 offset

unfoldable pub to_iov : Memory → List Iovec → Bytes → ℕ → ℕ → ℕ → Memory
to_iov m [] src prev pos offset = m
to_iov m (v ∷ vs) src prev pos offset =
    let cur = min (prev + v.len - offset) (length src - pos) in
    let inside = leb prev offset && ltb offset (prev + v.len) in
    let m' = store m (v.base + (offset - prev)) (take cur (drop pos src)) in
    let rest =
      to_iov (if inside then m' else m) vs src (prev + v.len) (if inside then pos + cur else pos)
        (if inside then offset + cur else offset) in
    if ltb pos (length src) then rest else m

unfoldable pub memcpy_to_iov : Memory → List Iovec → Bytes → ℕ → Memory
memcpy_to_iov m dest src offset = to_iov m dest src 0 0 offset
