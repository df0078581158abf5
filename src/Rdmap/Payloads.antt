-- ===== src/Rdmap/Payloads.antt =====
-- The payloads of the segments of a message, put together, and the flag on the last one.
use urdma.Prelude.{
  ℕ, zero, suc, ◌+◌, ◌-◌, ◌≤◌, ◌<◌, ◌≡◌, refl, sym, ◌∙◌, ap, min, true, List, [], ◌∷◌, ◌++◌, arith,
  ◌==◌, length, take, drop,
}
use urdma.Host.{Host}
use urdma.Proto
use urdma.Proto.{Bytes}
use urdma.Proto.Headers.{untagged_bytes}
use urdma.Qp.{Qp, SendWqe}
use urdma.Iov.Scatter.{drop-drop}
use urdma.Rdmap.{send_header, write_header}
use urdma.Rdmap.Segments.{message}
use urdma.Rdmap.Rounds.{Cut, sent_to}
use urdma.Rdmap.Transfer.{send_header_at, do_rdmap_send-Transferred}

-- The segments without their headers of `n` bytes, put together.
abbrev pub payloads : ℕ → List Bytes → Bytes
payloads n [] = []
payloads n (s ∷ segs) = drop n s ++ payloads n segs

take_add : (a b : ℕ) (xs : Bytes) → take (a + b) xs ≡ take a xs ++ take b (drop a xs)
take_add zero b xs = ap (λ k. take k xs) {x = 0 + b} {y = b} (omega arith)
take_add (suc a) b [] = take_none (suc a + b) ∙ sym (take_none b)
  where
    take_none : (n : ℕ) → take {A = ℕ} n [] ≡ []
    take_none zero = refl
    take_none (suc n) = refl
take_add (suc a) b (x ∷ xs) =
    ap (λ k. take k (x ∷ xs)) {x = suc a + b} {y = suc (a + b)} (omega arith)
    ∙ ap (λ r. x ∷ r) (take_add a b xs)

drop-header : (head bytes : Bytes) → drop (length head) (head ++ bytes) ≡ bytes
drop-header [] bytes = refl
drop-header (x ∷ head) bytes = drop-header head bytes

module _ (header : ℕ → Bytes) (n mtu total : ℕ) (bytes : Bytes)
    (size : (b : ℕ) → length (header b) ≡ n) where
  Cut-le : (from to : ℕ) (segs : List Bytes) → Cut header mtu total bytes from to segs → from ≤ to
  Cut-le from to segs Cut.done = omega arith
  Cut-le from to segs (Cut.next lt rest) = omega (arith, Cut-le _ to _ rest)

  Cut-payloads :
      (from to : ℕ) (segs : List Bytes)
      → Cut header mtu total bytes from to segs
      → payloads n segs ≡ take (to - from) (drop from bytes)
  Cut-payloads from to segs Cut.done =
      ap (λ k. take k (drop from bytes)) {x = 0} {y = from - from} (omega arith)
  Cut-payloads from to segs (Cut.next {segs = rest_segs} lt rest) =
      let len = min mtu (total - from) in
      let piece = take len (drop from bytes) in
      ap (λ k. drop k (header from ++ piece) ++ payloads n rest_segs) (sym (size from))
      ∙ ap (λ x. x ++ payloads n rest_segs) (drop-header (header from) piece)
      ∙ ap (λ x. piece ++ x) (Cut-payloads (from + len) to rest_segs rest)
      ∙ ap (λ x. piece ++ take (to - (from + len)) x) (sym (drop-drop from len bytes))
      ∙ sym (take_add len (to - (from + len)) (drop from bytes))
      ∙ ap (λ k. take k (drop from bytes)) {x = len + (to - (from + len))} {y = to - from}
          (omega (arith, Cut-le (from + len) to rest_segs rest))

untagged_bytes-length :
    (w : SendWqe) (mtu : ℕ) → length (untagged_bytes (send_header_at w mtu)) ≡ Proto.untagged_size
unfolding untagged_bytes
untagged_bytes-length w mtu = ground arith

-- Let every header mbuf be there and the MTU not be 0. The payloads of the segments that
-- do_rdmap_send sends, put together, are the bytes of the message from where the request stood to
-- where it stands afterwards.
pub do_rdmap_send-payloads :
    (h : Host) (q : Qp) (i : ℕ) (alloc : (call : ℕ) → h.hdr_alloc call ≡ true) (pos : 0 < q.shm.mtu)
    (le : (q.sq.storage i).bytes_sent ≤ (q.sq.storage i).total_length)
    → let t = do_rdmap_send-Transferred h q i alloc pos le in
      let w = q.sq.storage i in
      payloads Proto.untagged_size t.segs
      ≡ take (t.to - w.bytes_sent) (drop w.bytes_sent (message q w))
do_rdmap_send-payloads h q i alloc pos le =
    let t = do_rdmap_send-Transferred h q i alloc pos le in
    let w = q.sq.storage i in
    Cut-payloads (λ from. untagged_bytes (send_header_at (sent_to w from) q.shm.mtu))
      Proto.untagged_size q.shm.mtu w.total_length (message q w)
      (λ b. untagged_bytes-length (sent_to w b) q.shm.mtu) w.bytes_sent t.to t.segs t.cut

-- While bytes are left, the segment that is sent next carries the L flag exactly if it takes the
-- request to the end of its message; so do the segments of an RDMA WRITE.
send_header-last :
    (w : SendWqe) (mtu : ℕ)
    → w.bytes_sent ≤ w.total_length
    → let ends = w.bytes_sent + min mtu (w.total_length - w.bytes_sent) == w.total_length in
      (Proto.ddp_get_l (send_header w mtu).head.ddp_flags ≡ ends)
      × (Proto.ddp_get_l (write_header w mtu).head.ddp_flags ≡ ends)
unfolding send_header write_header
send_header-last w mtu le = ground arith
