-- ===== src/Trp/Once.antt =====
-- Runs of the receiver over any order of arrivals, with losses and duplicates: which packets go
-- on to the DDP layer, and how often.
use urdma.Prelude.{
  ℕ, ◌+◌, ◌%◌, ◌≡◌, refl, Bool, true, false, List, [], ◌∷◌, arith, ◌==◌, if◌then◌else◌,
}
use urdma.Prelude.Words.{u32_mod}
use urdma.Prelude.Counts.{bit, times}
use urdma.Trp.{Endpoint}
use urdma.Trp.Receive.{is_accepted, receive_psn}
use urdma.Trp.Window.{Window, received, arrive, IsWindow, Represents, InReach}
use urdma.Trp.Refine.{receive_psn-refines}

-- The state after a run of arrivals, and the packets that went on, in order.
unfoldable pub receive_all : Endpoint → List ℕ → Endpoint × List ℕ
receive_all e [] = (e, [])
receive_all e (n ∷ ns) =
    let (e', verdict) = receive_psn e (n % u32_mod) in
    let (e'', out) = receive_all e' ns in (e'', if is_accepted verdict then n ∷ out else out)

unfoldable pub arrive_all : Window → List ℕ → Window
arrive_all w [] = w
arrive_all w (n ∷ ns) = arrive_all (arrive w n).0 ns

abbrev pub AllInReach : Window → List ℕ → Type 0
AllInReach w [] = Unit
AllInReach w (n ∷ ns) = InReach w n × AllInReach (arrive w n).0 ns

-- One arrival adds exactly its own number to the received ones, when it is taken.
arrive-received :
    (w : Window) (n m : ℕ)
    → IsWindow w
    → bit (received (arrive w n).0 m)
      ≡ bit (received w m) + (if (arrive w n).1 then bit (m == n) else 0)
unfolding arrive
arrive-received w n m v = ground (arith, v)

times-if :
    (b : Bool) (m n : ℕ) (out : List ℕ)
    → times m (if b then n ∷ out else out) ≡ (if b then bit (m == n) else 0) + times m out
times-if true m n out = refl
times-if false m n out = omega arith

-- Let the packets numbered `ns` arrive in any order, with losses and repetitions, each within
-- reach of the window. Every number that was not received before and is afterwards went on to
-- the DDP layer exactly once, every other number not at all, and the words of the final state
-- stand for the window of the specification.
pub receive_all-exactly_once :
    (e : Endpoint) (w : Window) (ns : List ℕ)
    → Represents e w
    → IsWindow w
    → AllInReach w ns
    → Represents (receive_all e ns).0 (arrive_all w ns)
      × ((n : ℕ)
          → times n (receive_all e ns).1 + bit (received w n) ≡ bit (received (arrive_all w ns) n))
unfolding receive_all arrive_all
receive_all-exactly_once e w [] r v _ = (r, λ n. omega arith)
receive_all-exactly_once e w (n ∷ ns) r v (close, rest) =
    let s = receive_psn-refines e w n r v close in
    let (e', verdict) = receive_psn e (n % u32_mod) in
    let (represents, once) =
      receive_all-exactly_once e' (arrive w n).0 ns s.represents s.window rest in
    (represents, λ m. counted m s.verdict (once m))
  where
    counted :
        (m : ℕ)
        → is_accepted (receive_psn e (n % u32_mod)).1 ≡ (arrive w n).1
        → times m (receive_all (receive_psn e (n % u32_mod)).0 ns).1
            + bit (received (arrive w n).0 m)
          ≡ bit (received (arrive_all (arrive w n).0 ns) m)
        → times m (receive_all e (n ∷ ns)).1 + bit (received w m)
          ≡ bit (received (arrive_all (arrive w n).0 ns) m)
    counted m same ih =
        let out = (receive_all (receive_psn e (n % u32_mod)).0 ns).1 in
        let head : times m (receive_all e (n ∷ ns)).1
            ≡ (if (arrive w n).1 then bit (m == n) else 0) + times m out =
          rw same (times-if (arrive w n).1 m n out) in
        omega (arith, head, ih, arrive-received w n m v)
