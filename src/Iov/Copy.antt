-- ===== src/Iov/Copy.antt =====
-- The iovecs as one sequence of addresses, and the copies in terms of it.
use urdma.Prelude.{
  ℕ, zero, suc, ◌+◌, ◌-◌, ◌≤◌, ◌<◌, ◌≡◌, refl, sym, ◌∙◌, ap, inl, inr, min, false, ◌&&◌, List, [],
  ◌∷◌, ◌++◌, map, arith, ltb, leb, length, take, drop, Bool-cases,
}
use mathlib.Core.Path.{ap₂}
use mathlib.Core.List.{map-append}
use urdma.Proto.{Bytes}
use urdma.Qp.{Iovec, update}
use urdma.Iov.{Memory, load, from_iov, memcpy_from_iov}

unfoldable pub span : ℕ → ℕ → List ℕ
span a zero = []
span a (suc n) = a ∷ span (a + 1) n

-- The addresses that the iovecs describe, in order.
unfoldable pub addresses : List Iovec → List ℕ
addresses [] = []
addresses (v ∷ vs) = span v.base v.len ++ addresses vs

-- Bytes stored one after the other at addresses, as far as both reach.
unfoldable pub scatter : Memory → List ℕ → Bytes → Memory
scatter m [] bs = m
scatter m (a ∷ as') [] = m
scatter m (a ∷ as') (b ∷ bs) = scatter (update m a b) as' bs

pub length-span : (a n : ℕ) → length (span a n) ≡ n
unfolding span
length-span a zero = refl
length-span a (suc n) = ap suc (length-span (a + 1) n)

pub load-span : (m : Memory) (a n : ℕ) → load m a n ≡ map m (span a n)
unfolding load span
load-span m a zero = refl
load-span m a (suc n) = ap (λ x. m a ∷ x) (load-span m (a + 1) n)

pub drop-span : (d a n : ℕ) → drop d (span a n) ≡ span (a + d) (n - d)
unfolding span
drop-span zero a n = ap₂ span (omega arith) (omega arith)
drop-span (suc d) a zero = ap (span (a + suc d)) {x = 0} {y = 0 - suc d} (omega arith)
drop-span (suc d) a (suc n) = drop-span d (a + 1) n ∙ ap₂ span (omega arith) (omega arith)

take-span : (n a l : ℕ) → take n (span a l) ≡ span a (min l n)
unfolding span
take-span zero a l = ap (span a) {x = 0} {y = min l 0} (omega arith)
take-span (suc n) a zero = ap (span a) {x = 0} {y = min 0 (suc n)} (omega arith)
take-span (suc n) a (suc l) =
    ap (λ r. a ∷ r) (take-span n (a + 1) l)
    ∙ ap (span a) {x = suc (min l n)} {y = min (suc l) (suc n)} (omega arith)

module _ {A : Type 0} where
  take-append : (n : ℕ) (xs ys : List A) → take n (xs ++ ys) ≡ take n xs ++ take (n - length xs) ys
  take-append zero [] ys = refl
  take-append zero (x ∷ xs) ys = ap (λ k. take k ys) {x = 0} {y = 0 - length (x ∷ xs)} (omega arith)
  take-append (suc n) [] ys = ap (λ k. take k ys) {x = suc n} {y = suc n - 0} (omega arith)
  take-append (suc n) (x ∷ xs) ys =
      ap (λ r. x ∷ r) (take-append n xs ys)
      ∙ ap (λ k. x ∷ take n xs ++ take k ys) {x = n - length xs} {y = suc n - length (x ∷ xs)}
          (omega arith)

  pub drop-append : (d : ℕ) (xs ys : List A) → d ≤ length xs → drop d (xs ++ ys) ≡ drop d xs ++ ys
  drop-append zero xs ys h = refl
  drop-append (suc d) [] ys h = absurd (omega arith)
  drop-append (suc d) (x ∷ xs) ys h = drop-append d xs ys (omega arith)

  pub drop-append_past :
      (d : ℕ) (xs ys : List A) → length xs ≤ d → drop d (xs ++ ys) ≡ drop (d - length xs) ys
  drop-append_past d [] ys h = ap (λ k. drop k ys) {x = d} {y = d - 0} (omega arith)
  drop-append_past zero (x ∷ xs) ys h = absurd (omega arith)
  drop-append_past (suc d) (x ∷ xs) ys h =
      drop-append_past d xs ys (omega arith)
      ∙ ap (λ k. drop k ys) {x = d - length xs} {y = suc d - length (x ∷ xs)} (omega arith)

-- A window that starts in the first iovec.
window_here :
    (a l d n : ℕ) (rest : List ℕ)
    → d ≤ l
    → take n (drop d (span a l ++ rest)) ≡ span (a + d) (min (l - d) n) ++ take (n - (l - d)) rest
window_here a l d n rest h =
    ap (take n) (
      drop-append d (span a l) rest (omega (arith, length-span a l))
      ∙ ap (λ x. x ++ rest) (drop-span d a l))
    ∙ take-append n (span (a + d) (l - d)) rest
    ∙ ap₂ (λ x k. x ++ take k rest) (take-span n (a + d) (l - d))
        (ap (λ k. n - k) (length-span (a + d) (l - d)))

-- A window that starts behind the first iovec.
pub window_past :
    (a l d n : ℕ) (rest : List ℕ)
    → l ≤ d
    → take n (drop d (span a l ++ rest)) ≡ take n (drop (d - l) rest)
window_past a l d n rest h = ap (take n) (
    drop-append_past d (span a l) rest (omega (arith, length-span a l))
    ∙ ap (λ k. drop (d - k) rest) (length-span a l))

from_iov-done :
    (m : Memory) (vs : List Iovec) (size prev pos offset : ℕ)
    → size ≤ pos
    → from_iov m vs size prev pos offset ≡ []
unfolding from_iov
from_iov-done m [] size prev pos offset h = refl
from_iov-done m (v ∷ vs) size prev pos offset h = ground arith

-- The loop after an iovec in which the window starts.
from_iov-rest :
    (m : Memory) (vs : List Iovec) (size prev pos offset : ℕ)
    → offset < prev
    → pos < size
    → (prev ≤ offset + min (prev - offset) (size - pos)
        → from_iov m vs size prev
            (pos + min (prev - offset) (size - pos))
            (offset + min (prev - offset) (size - pos))
          ≡ map m (
              take
                (size - (pos + min (prev - offset) (size - pos)))
                (drop (offset + min (prev - offset) (size - pos) - prev) (addresses vs))))
    → from_iov m vs size prev
        (pos + min (prev - offset) (size - pos))
        (offset + min (prev - offset) (size - pos))
      ≡ map m (take (size - pos - (prev - offset)) (addresses vs))
from_iov-rest m vs size prev pos offset h p ih =
    elim (Bool-cases (ltb (size - pos) (prev - offset))) [
      | inl short ↦
          from_iov-done m vs size prev _ _ (ground arith)
          ∙ ap (λ k. map m (take k (addresses vs))) {x = 0} {y = size - pos - (prev - offset)}
              (ground arith)
      | inr full ↦
          ih (ground arith)
          ∙ ap₂ (λ k d. map m (take k (drop d (addresses vs)))) (counts full) (starts full)
    ]
  where
    counts :
        ltb (size - pos) (prev - offset) ≡ false
        → size - (pos + min (prev - offset) (size - pos)) ≡ size - pos - (prev - offset)
    counts full = ground arith

    starts :
        ltb (size - pos) (prev - offset) ≡ false
        → offset + min (prev - offset) (size - pos) - prev ≡ 0
    starts full = ground arith

pub drop-nil : (d : ℕ) → drop {A = ℕ} d [] ≡ []
drop-nil zero = refl
drop-nil (suc d) = refl

take-nil : (n : ℕ) → take {A = ℕ} n [] ≡ []
take-nil zero = refl
take-nil (suc n) = refl

from_iov-window :
    (m : Memory) (vs : List Iovec) (size prev pos offset : ℕ)
    → prev ≤ offset
    → from_iov m vs size prev pos offset
      ≡ map m (take (size - pos) (drop (offset - prev) (addresses vs)))
unfolding from_iov addresses
from_iov-window m [] size prev pos offset h =
    sym (ap (map m) (ap (take (size - pos)) (drop-nil (offset - prev)) ∙ take-nil (size - pos)))
from_iov-window m (v ∷ vs) size prev pos offset h =
    let n = size - pos in
    let d = offset - prev in
    elim (Bool-cases (ltb pos size)) [
      | inr done ↦ rw done (
          ap (λ k. map m (take k (drop d (span v.base v.len ++ addresses vs)))) {x = 0} {y = n}
            (ground arith))
      | inl more ↦ rw more (elim (Bool-cases (leb prev offset && ltb offset (prev + v.len))) [
        | inl inside ↦ rw inside (
            let lens : prev + v.len - offset ≡ v.len - d = omega arith in
            let tail =
              from_iov-rest m vs size (prev + v.len) pos offset (ground arith) (ground arith)
                (from_iov-window m vs size (prev + v.len) _ _) in
            ap₂ (λ x y. x ++ y)
              (load-span m (v.base + d) _ ∙ ap (λ k. map m (span (v.base + d) (min k n))) lens)
              (tail ∙ ap (λ k. map m (take (n - k) (addresses vs))) lens)
            ∙ sym (map-append m _ _)
            ∙ ap (map m) (sym (window_here v.base v.len d n (addresses vs) (ground arith))))
        | inr behind ↦ rw behind (
            from_iov-window m vs size (prev + v.len) pos offset (ground arith)
            ∙ ap (λ k. map m (take n (drop k (addresses vs)))) {x = offset - (prev + v.len)}
                {y = d - v.len} (omega arith)
            ∙ ap (map m) (sym (window_past v.base v.len d n (addresses vs) (ground arith))))
      ])
    ]

-- memcpy_from_iov reads the bytes at the addresses that the iovecs describe, from the offset on,
-- as many as are asked for or as there are, across iovecs of any lengths.
pub memcpy_from_iov_lem :
    (m : Memory) (size : ℕ) (src : List Iovec) (offset : ℕ)
    → memcpy_from_iov m size src offset ≡ map m (take size (drop offset (addresses src)))
unfolding memcpy_from_iov
memcpy_from_iov_lem m size src offset =
    from_iov-window m src size 0 0 offset (omega arith)
    ∙ ap₂ (λ n k. map m (take n (drop k (addresses src)))) size_lem offset_lem
  where
    size_lem : size - 0 ≡ size
    size_lem = omega arith

    offset_lem : offset - 0 ≡ offset
    offset_lem = omega arith
