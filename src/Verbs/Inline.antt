-- ===== src/Verbs/Inline.antt =====
-- src/liburdma/verbs.c, do_inline: the bytes that are copied into the entry.
use mathlib.Core.List.{append_assoc, append-nil, map-append}
use mathlib.Core.Path.{subst}
use urdma.Prelude.{
  ℕ, ◌+◌, ◌≤◌, ◌<◌, ◌≡◌, refl, sym, ◌∙◌, ap, inl, inr, List, [], ◌∷◌, ◌++◌, map, arith, ltb, ltb→lt,
  ltb→le, length, length-append, length-take, length-map, take, drop, Bool-cases,
}
use native.Mathlib.Nat.{mod-eq_of_lt}
use urdma.Prelude.Words.{u32, u32_mod}
use urdma.Proto.{Bytes}
use urdma.Qp.{Iovec}
use urdma.Iov.{Memory, load}
use urdma.Iov.Copy.{addresses, span, load-span, length-span}
use urdma.Verbs.Send.{Inlined, copied, too_long, write_at, inline_loop}

-- The number of bytes that the buffers hold.
abbrev pub size_of : List Iovec → ℕ
size_of vs = length (addresses vs)

-- What copying `sges` behind the first `offset` bytes of `dest` comes to.
pub data Copies (m : Memory) (max_inline : ℕ) (dest : Bytes) (offset : ℕ) (sges : List Iovec)
    : Inlined → Type 0 where
  fits :
      (d : Bytes)
      → offset + size_of sges ≤ max_inline
      → take (offset + size_of sges) d ≡ take offset dest ++ map m (addresses sges)
      → Copies m max_inline dest offset sges (copied d (offset + size_of sges))
  exceeds :
      (d : Bytes)
      → max_inline < offset + size_of sges
      → Copies m max_inline dest offset sges (too_long d)

take-left : (xs ys : Bytes) → take (length xs) (xs ++ ys) ≡ xs
take-left [] ys = refl
take-left (x ∷ xs) ys = ap (λ l. x ∷ l) (take-left xs ys)

length-prefix :
    (dest src : Bytes) (offset : ℕ)
    → offset ≤ length dest
    → length (take offset dest ++ src) ≡ offset + length src
length-prefix dest src offset p =
    omega (arith, length-append (take offset dest) src, length-take offset dest)

take-write_at :
    (dest src : Bytes) (offset : ℕ)
    → offset ≤ length dest
    → take (offset + length src) (write_at dest offset src) ≡ take offset dest ++ src
take-write_at dest src offset p =
    let front = take offset dest ++ src in
    let back = drop (offset + length src) dest in
    ap (λ n. take n (front ++ back)) (sym (length-prefix dest src offset p)) ∙ take-left front back

length-write_at :
    (dest src : Bytes) (offset : ℕ)
    → offset ≤ length dest
    → offset + length src ≤ length (write_at dest offset src)
length-write_at dest src offset p = omega (
  arith,
  length-take offset dest,
  length-append (take offset dest ++ src) (drop (offset + length src) dest),
  length-append (take offset dest) src,
)

length-load : (m : Memory) (a n : ℕ) → length (load m a n) ≡ n
length-load m a n = ap length (load-span m a n) ∙ length-map m (span a n) ∙ length-span a n

pub size-cons : (v : Iovec) (vs : List Iovec) → size_of (v ∷ vs) ≡ v.len + size_of vs
unfolding addresses
size-cons v vs =
    omega (arith, length-append (span v.base v.len) (addresses vs), length-span v.base v.len)

Copies-cons :
    (m : Memory) (max_inline : ℕ) (dest : Bytes) (offset : ℕ) (v : Iovec) (vs : List Iovec)
    (r : Inlined)
    → offset ≤ length dest
    → Copies m max_inline (write_at dest offset (load m v.base v.len)) (offset + v.len) vs r
    → Copies m max_inline dest offset (v ∷ vs) r
unfolding addresses
Copies-cons m max_inline dest offset v vs _ p (exceeds d over) =
    exceeds d (omega (arith, over, size-cons v vs))
Copies-cons m max_inline dest offset v vs _ p (fits d inside bytes) =
    let src = load m v.base v.len in
    let total : offset + v.len + size_of vs ≡ offset + size_of (v ∷ vs) =
      omega (arith, size-cons v vs) in
    let front : take (offset + v.len) (write_at dest offset src) ≡ take offset dest ++ src =
      ap (λ n. take (offset + n) (write_at dest offset src)) (sym (length-load m v.base v.len))
      ∙ take-write_at dest src offset p in
    let whole =
      bytes
      ∙ ap (λ l. l ++ map m (addresses vs)) front
      ∙ append_assoc (take offset dest) src (map m (addresses vs))
      ∙ ap (λ l. take offset dest ++ (l ++ map m (addresses vs))) (load-span m v.base v.len)
      ∙ ap (λ l. take offset dest ++ l) (sym (map-append m (span v.base v.len) (addresses vs))) in
    subst (λ n. Copies m max_inline dest offset (v ∷ vs) (copied d n)) (sym total)
      (fits d (omega (arith, inside, total)) (ap (λ n. take n d) (sym total) ∙ whole))

base-Copies :
    (m : Memory) (max_inline : ℕ) (dest : Bytes) (offset : ℕ)
    → offset ≤ max_inline
    → Copies m max_inline dest offset [] (copied dest offset)
unfolding addresses
base-Copies m max_inline dest offset p =
    let none_left : offset + 0 ≡ offset = omega arith in
    subst (λ n. Copies m max_inline dest offset [] (copied dest n)) none_left
      (fits dest (omega (arith, p))
        (ap (λ n. take n dest) none_left ∙ sym (append-nil (take offset dest))))

-- For buffers of less than 2^32 bytes in all, the loop of do_inline copies them one after the other
-- if they fit, and refuses them if they do not.
pub inline_loop-Copies :
    (m : Memory) (max_inline : ℕ) (dest : Bytes) (offset : ℕ) (sges : List Iovec)
    → offset ≤ max_inline
    → offset ≤ length dest
    → offset + size_of sges < u32_mod
    → Copies m max_inline dest offset sges (inline_loop m max_inline dest offset sges)
unfolding inline_loop addresses
inline_loop-Copies m max_inline dest offset [] p q small = base-Copies m max_inline dest offset p
inline_loop-Copies m max_inline dest offset (v ∷ vs) p q small =
    let next = offset + v.len in
    let sum : u32 next ≡ next = mod-eq_of_lt (omega (arith, small, size-cons v vs)) in
    let src = load m v.base v.len in
    let dest' = write_at dest offset src in
    elim (Bool-cases (ltb max_inline next)) [
      | inl over ↦
          rw (ap (ltb max_inline) sum ∙ over, inline_loop)
            (exceeds dest (omega (arith, ltb→lt _ _ over, size-cons v vs)))
      | inr under ↦
          let long : next ≤ length dest' =
            omega (arith, length-write_at dest src offset q, length-load m v.base v.len) in
          let rest =
            inline_loop-Copies m max_inline dest' next vs (ltb→le _ _ under) long
              (omega (arith, small, size-cons v vs)) in
          rw (ap (ltb max_inline) sum ∙ under, inline_loop)
            (Copies-cons m max_inline dest offset v vs _ q (
              subst (λ n. Copies m max_inline dest' next vs (inline_loop m max_inline dest' n vs))
                (sym sum) rest))
    ]
