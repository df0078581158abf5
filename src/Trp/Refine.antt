-- ===== src/Trp/Refine.antt =====
-- src/liburdma/interface.c, process_data_packet: the 32-bit receiver against the specification of Window.
use urdma.Prelude.{
  ℕ, ◌+◌, ◌%◌, ◌<◌, ◌≡◌, ◌∙◌, Bool, true, false, arith, ltb, ◌==◌, Bool-cases, inl, inr,
}
use urdma.Prelude.Words.{u32, u32_mod, half32}
use urdma.Serial.{serial_less_32, serial_greater_32}
use urdma.Trp.{Endpoint}
use urdma.Trp.Receive.{Verdict, is_accepted, advance, extend_down, gap, receive_psn}
use urdma.Trp.Window.{
  Window, arrive, IsWindow, Represents, InReach, less_ahead, less_behind, greater_ahead,
  greater_behind,
}

-- Words of close numbers compare as the numbers do.
pub same_word :
    (a n : ℕ) → a < n + half32 → n < a + half32 → (a % u32_mod == n % u32_mod) ≡ (a == n)
same_word a n p q = ground arith

pub less_word :
    (a n : ℕ)
    → a < n + half32
    → n < a + half32
    → serial_less_32 (a % u32_mod) (n % u32_mod) ≡ ltb a n
less_word a n p q = ground (arith, less_ahead a n, less_behind a n)

pub greater_word :
    (a n : ℕ)
    → a < n + half32
    → n < a + half32
    → serial_greater_32 (n % u32_mod) (a % u32_mod) ≡ ltb a n
greater_word a n p q = ground (arith, greater_ahead a n, greater_behind a n)

suc_word : (n : ℕ) → u32 (n % u32_mod + 1) ≡ (n + 1) % u32_mod
suc_word n = omega arith

-- What one arrival must establish.
pub record Step (e : Endpoint) (v : Verdict) (w : Window) (taken : Bool) : Type 0 where
  pub represents : Represents e w
  pub window : IsWindow w
  pub verdict : is_accepted v ≡ taken

module _ (e : Endpoint) (w : Window) (n : ℕ) (r : Represents e w) (v : IsWindow w)
    (close : InReach w n) where
  advance-Step : n ≡ w.ack → Step (advance e) Verdict.in_order (arrive w n).0 (arrive w n).1
  unfolding advance arrive
  advance-Step at = elim (Bool-cases w.missing) [
    | inl m ↦
        let gap_next = same_word (n + 1) w.lo in
        ground (
          arith,
          r,
          v,
          r.ack,
          r.missing,
          r.lo m,
          suc_word n,
          v.above m,
          v.narrow m,
          v.holds_some m,
          gap_next,
        )
    | inr m ↦ ground (arith, r.ack, r.missing, suc_word n)
  ]

  gap-Step_missing :
      w.missing ≡ true
      → w.ack < n
      → Step (gap e (n % u32_mod)).0 (gap e (n % u32_mod)).1 (arrive w n).0 (arrive w n).1
  unfolding gap extend_down arrive
  gap-Step_missing m above = ground (
    arith,
    r.ack,
    r.missing,
    r.lo m,
    r.hi m,
    suc_word n,
    v.above m,
    v.narrow m,
    v.holds_some m,
    same_word n w.hi,
    same_word (n + 1) w.lo,
    same_word n w.ack,
    less_word n w.lo,
    greater_word w.hi n,
  )

  gap-Step_first :
      w.missing ≡ false
      → w.ack < n
      → Step (gap e (n % u32_mod)).0 (gap e (n % u32_mod)).1 (arrive w n).0 (arrive w n).1
  unfolding gap extend_down arrive
  gap-Step_first m above = ground (arith, r.ack, r.missing, suc_word n)

  old-Step : n < w.ack → Step e Verdict.retransmission (arrive w n).0 (arrive w n).1
  unfolding arrive
  old-Step below = ground (arith, r, v)

  -- Within reach of the window, the receive code on 32-bit words takes or drops a packet as the
  -- specification does, and its new state stands for the specification's.
  pub receive_psn-refines :
      let (e', verdict) = receive_psn e (n % u32_mod) in
      let (w', taken) = arrive w n in Step e' verdict w' taken
  unfolding receive_psn
  receive_psn-refines = elim (Bool-cases (n == w.ack)) [
    | inl at ↦
        let test : (n % u32_mod == e.recv_ack_psn) ≡ true = ground (arith, r.ack) in
        rw test (advance-Step (ground arith))
    | inr off ↦
        let test : (n % u32_mod == e.recv_ack_psn) ≡ false =
          rw r.ack (same_word n w.ack (omega arith) (omega arith) ∙ off) in
        let less : serial_less_32 e.recv_ack_psn (n % u32_mod) ≡ ltb w.ack n =
          rw r.ack (less_word w.ack n (omega arith) (omega arith)) in
        rw (test, less)
          (elim (Bool-cases (ltb w.ack n)) [
            | inl above ↦ rw above (elim (Bool-cases w.missing) [
              | inl m ↦ gap-Step_missing m (ground arith)
              | inr m ↦ gap-Step_first m (ground arith)
            ])
            | inr below ↦ rw below (old-Step (ground arith))
          ])
  ]
