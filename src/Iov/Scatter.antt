-- ===== src/Iov/Scatter.antt =====
-- memcpy_to_iov in terms of the addresses that the iovecs describe.
use urdma.Prelude.{
  ℕ, zero, suc, ◌+◌, ◌-◌, ◌≤◌, ◌<◌, ◌≡◌, refl, sym, ◌∙◌, ap, inl, inr, min, true, false, ◌&&◌, List,
  [], ◌∷◌, ◌++◌, arith, ltb, leb, length, take, drop, Bool-cases,
}
use mathlib.Core.Path.{ap₂}
use urdma.Proto.{Bytes}
use urdma.Qp.{Iovec, update}
use urdma.Iov.{Memory, store, to_iov, memcpy_to_iov}
use urdma.Iov.Copy.{
  span, addresses, scatter, drop-append, drop-span, length-span, drop-append_past, drop-nil,
}

scatter-none : (m : Memory) (as' : List ℕ) → scatter m as' [] ≡ m
unfolding scatter
scatter-none m [] = refl
scatter-none m (a ∷ as') = refl

scatter-span :
    (m : Memory) (a l : ℕ) (rest : List ℕ) (bs : Bytes)
    → scatter m (span a l ++ rest) bs ≡ scatter (store m a (take l bs)) rest (drop l bs)
unfolding scatter span store
scatter-span m a zero rest bs = refl
scatter-span m a (suc l) rest [] = sym (scatter-none m rest)
scatter-span m a (suc l) rest (b ∷ bs) = scatter-span (update m a b) (a + 1) l rest bs

take-min : (l : ℕ) (bs : Bytes) → take (min l (length bs)) bs ≡ take l bs
take-min zero bs = ap (λ k. take k bs) {x = min 0 (length bs)} {y = 0} (omega arith)
take-min (suc l) [] = ap (λ k. take {A = ℕ} k []) {x = min (suc l) 0} {y = 0} (omega arith)
take-min (suc l) (b ∷ bs) =
    ap (λ k. take k (b ∷ bs)) {x = min (suc l) (suc (length bs))} {y = suc (min l (length bs))}
      (omega arith)
    ∙ ap (λ r. b ∷ r) (take-min l bs)

pub drop-drop : (i j : ℕ) (bs : Bytes) → drop j (drop i bs) ≡ drop (i + j) bs
drop-drop zero j bs = ap (λ k. drop k bs) {x = j} {y = 0 + j} (omega arith)
drop-drop (suc i) zero [] = ap (λ k. drop {A = ℕ} k []) {x = suc i} {y = suc i + 0} (omega arith)
drop-drop (suc i) (suc j) [] =
    ap (λ k. drop {A = ℕ} k []) {x = suc (i + suc j)} {y = suc i + suc j} (omega arith)
drop-drop (suc i) j (b ∷ bs) =
    drop-drop i j bs ∙ ap (λ k. drop k (b ∷ bs)) {x = suc (i + j)} {y = suc i + j} (omega arith)

drop-past : (k : ℕ) (bs : Bytes) → length bs ≤ k → drop k bs ≡ []
drop-past zero [] h = refl
drop-past (suc k) [] h = refl
drop-past zero (b ∷ bs) h = absurd (omega arith)
drop-past (suc k) (b ∷ bs) h = drop-past k bs (omega arith)

length-drop : (k : ℕ) (bs : Bytes) → length (drop k bs) ≡ length bs - k
length-drop zero bs = omega arith
length-drop (suc k) [] = omega arith
length-drop (suc k) (b ∷ bs) = omega (arith, length-drop k bs)

to_iov-done :
    (m : Memory) (vs : List Iovec) (src : Bytes) (prev pos offset : ℕ)
    → length src ≤ pos
    → to_iov m vs src prev pos offset ≡ m
unfolding to_iov
to_iov-done m [] src prev pos offset h = refl
to_iov-done m (v ∷ vs) src prev pos offset h = ground arith

-- The loop after an iovec in which the window starts.
to_iov-rest :
    (m : Memory) (vs : List Iovec) (src : Bytes) (prev pos offset cur : ℕ)
    → cur ≡ min (prev - offset) (length src - pos)
    → offset < prev
    → pos < length src
    → (prev ≤ offset + cur
        → to_iov m vs src prev (pos + cur) (offset + cur)
          ≡ scatter m (drop (offset + cur - prev) (addresses vs)) (drop (pos + cur) src))
    → to_iov m vs src prev (pos + cur) (offset + cur)
      ≡ scatter m (addresses vs) (drop (pos + (prev - offset)) src)
to_iov-rest m vs src prev pos offset cur e h p ih =
    elim (Bool-cases (ltb (length src - pos) (prev - offset))) [
      | inl short ↦
          to_iov-done m vs src prev _ _ (ground arith)
          ∙ sym (
              ap (scatter m (addresses vs)) (drop-past (pos + (prev - offset)) src (ground arith))
              ∙ scatter-none m (addresses vs))
      | inr full ↦
          let same : cur ≡ prev - offset = ground arith in
          ih (omega arith)
          ∙ ap₂ (λ k i. scatter m (drop k (addresses vs)) (drop i src)) (starts same)
              (ap (λ k. pos + k) same)
    ]
  where
    starts : cur ≡ prev - offset → offset + cur - prev ≡ 0
    starts same = omega arith

to_iov-window :
    (m : Memory) (vs : List Iovec) (src : Bytes) (prev pos offset : ℕ)
    → prev ≤ offset
    → to_iov m vs src prev pos offset
      ≡ scatter m (drop (offset - prev) (addresses vs)) (drop pos src)
unfolding to_iov addresses scatter
to_iov-window m [] src prev pos offset h =
    sym (ap (λ l. scatter m l (drop pos src)) (drop-nil (offset - prev)))
to_iov-window m (v ∷ vs) src prev pos offset h =
    let d = offset - prev in
    elim (Bool-cases (ltb pos (length src))) [
      | inr done ↦ rw done (
          sym (
            ap (scatter m (drop d (span v.base v.len ++ addresses vs)))
              (drop-past pos src (ground arith))
            ∙ scatter-none m _))
      | inl more ↦ rw more (elim (Bool-cases (leb prev offset && ltb offset (prev + v.len))) [
        | inl inside ↦ rw inside (
            let lens : prev + v.len - offset ≡ v.len - d = omega arith in
            let cur = min (prev + v.len - offset) (length src - pos) in
            let here = v.base + d in
            let bs = drop pos src in
            let m' = store m here (take cur bs) in
            let taken : take cur bs ≡ take (v.len - d) bs =
              ap₂ (λ k n. take (min k n) bs) lens (sym (length-drop pos src))
              ∙ take-min (v.len - d) bs in
            to_iov-rest m' vs src (prev + v.len) pos offset cur refl (ground arith) (ground arith)
              (to_iov-window m' vs src (prev + v.len) _ _)
            ∙ ap₂ (λ x k. scatter (store m here x) (addresses vs) (drop (pos + k) src)) taken lens
            ∙ ap (scatter (store m here (take (v.len - d) bs)) (addresses vs))
                (sym (drop-drop pos (v.len - d) src))
            ∙ sym (scatter-span m here (v.len - d) (addresses vs) bs)
            ∙ ap (λ l. scatter m l bs)
                (sym (
                  drop-append d (span v.base v.len) (addresses vs) (omega_le inside)
                  ∙ ap (λ x. x ++ addresses vs) (drop-span d v.base v.len))))
        | inr behind ↦ rw behind (
            to_iov-window m vs src (prev + v.len) pos offset (ground arith)
            ∙ ap (λ k. scatter m (drop k (addresses vs)) (drop pos src))
                {x = offset - (prev + v.len)} {y = d - v.len} (omega arith)
            ∙ ap (λ l. scatter m l (drop pos src))
                (sym (
                  drop-append_past d (span v.base v.len) (addresses vs) (past behind)
                  ∙ ap (λ k. drop (d - k) (addresses vs)) (length-span v.base v.len))))
      ])
    ]
  where
    omega_le :
        (leb prev offset && ltb offset (prev + v.len)) ≡ true
        → offset - prev ≤ length (span v.base v.len)
    omega_le inside = rw (length-span v.base v.len) (ground arith)

    past :
        (leb prev offset && ltb offset (prev + v.len)) ≡ false
        → length (span v.base v.len) ≤ offset - prev
    past behind = rw (length-span v.base v.len) (ground arith)

-- memcpy_to_iov stores the bytes, one after the other, at the addresses that the iovecs describe
-- from the offset on, across iovecs of any lengths, and drops the bytes for which none is left.
pub memcpy_to_iov_lem :
    (m : Memory) (dest : List Iovec) (src : Bytes) (offset : ℕ)
    → memcpy_to_iov m dest src offset ≡ scatter m (drop offset (addresses dest)) src
unfolding memcpy_to_iov
memcpy_to_iov_lem m dest src offset =
    to_iov-window m dest src 0 0 offset (omega arith)
    ∙ ap (λ k. scatter m (drop k (addresses dest)) src) {x = offset - 0} {y = offset} (omega arith)
