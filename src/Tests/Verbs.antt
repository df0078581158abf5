-- ===== src/Tests/Verbs.antt =====
-- The verbs on concrete requests.
use urdma.Prelude.{ℕ, ◌≡◌, refl, Bool, true, false, some, List, [], ◌∷◌, ◌==◌, if◌then◌else◌, arith}
use urdma.Qp.{Qp, Iovec}
use urdma.Iov.Copy.{addresses, span}
use urdma.Region.{usiw_mr_lookup, usiw_dereg_mr_real}
use urdma.Completion.Flush.{IsValidCq}
use urdma.Completion.Owned.{SendOwned}
use urdma.Completion.Consistent.{Consistent}
use urdma.Progress.{kni_step}
use urdma.Verbs.Requests.{SendWr, RecvWr, WrOpcode}
use urdma.Verbs.Recv.{usiw_post_recv, usiw_recv_wqe_queue_init}
use urdma.Verbs.Send.{usiw_post_send}
use urdma.Verbs.PostSendOrder.{SendOutcome, AllSmall}
use urdma.Verbs.PostSendOutcome.{usiw_post_send-SendOutcome}
use urdma.Verbs.Poll.{usiw_poll_cq, init_cq}
use urdma.Verbs.PollOrder.{Polled, usiw_poll_cq-Polled}
use urdma.Verbs.Regions.{urdma_reg_mr_with_rkey}
use urdma.Verbs.RegionsFound.{reg-lookup}
use urdma.Verbs.State.{QpState, QpCap, usiw_modify_qp}
use urdma.Verbs.Closing.{IsClosed, usiw_modify_qp-IsClosed}
use urdma.Verbs.Create.{create_caps, next_pow2}
use urdma.Verbs.Sizes.{Caps, create_caps-Caps}
use urdma.Verbs.Session.{start, next, posts_recv, pass, polls, Fresh, after, set_cq}
use urdma.Verbs.Session.Invariant.{Reach-Consistent}
use urdma.Tests.Scenario.{host, host-Laws, qp, cq, regions, no_completion, recv_wqe}

abbrev buffer : ℕ → ℕ → Iovec
buffer base len = record { base = base; len = len }

abbrev two_receives : List RecvWr
two_receives =
    (record { wr_id = 7; sg_list = buffer 500 8 ∷ [] })
    ∷ (record { wr_id = 8; sg_list = buffer 600 8 ∷ [] })
    ∷ []

abbrev request : WrOpcode → Bool → List Iovec → SendWr
request op inline sg_list = record {
  wr_id = 9;
  opcode = op;
  signaled = true;
  inline = inline;
  sg_list = sg_list;
  lkey = 9;
  remote_addr = 4000;
  rkey = 12;
}

abbrev three_sends : List SendWr
three_sends =
    request WrOpcode.send true (buffer 500 3 ∷ buffer 600 2 ∷ [])
    ∷ request WrOpcode.rdma_write false (buffer 700 9 ∷ [])
    ∷ request WrOpcode.rdma_read false (buffer 1000 4 ∷ [])
    ∷ []

sq-SendOwned : SendOwned [] qp.sq
sq-SendOwned = record { each = λ i. ground arith; all = refl }

three_sends-AllSmall : AllSmall three_sends
unfolding addresses span
three_sends-AllSmall = (omega arith, (omega arith, (omega arith, tt)))

usiw_post_send_example : SendOutcome [] qp three_sends (usiw_post_send host qp three_sends)
usiw_post_send_example =
    usiw_post_send-SendOutcome host [] qp three_sends host-Laws three_sends-AllSmall sq-SendOwned

cq-IsValidCq : IsValidCq (cq 0)
cq-IsValidCq = record {
  distinct = ((refl, (refl, (refl, tt))), ((refl, (refl, tt)), ((refl, tt), (tt, tt))));
  room = omega arith;
}

usiw_poll_cq_example : Polled (cq 0) 4 (usiw_poll_cq host (cq 0) 4).0 (usiw_poll_cq host (cq 0) 4).1
usiw_poll_cq_example = usiw_poll_cq-Polled host (cq 0) 4 host-Laws cq-IsValidCq

abbrev asked : QpCap
asked = record {
  max_send_wr = 64;
  max_recv_wr = 1023;
  max_send_sge = 0;
  max_recv_sge = 5;
  max_inline_data = 50;
}

create_caps_example : Caps true asked (create_caps true asked)
create_caps_example = create_caps-Caps true asked

send_ring_of_127 : next_pow2 65 ≡ 128
unfolding next_pow2
send_ring_of_127 = refl

-- The key 9 is in use before.
reg-lookup_example :
    (usiw_mr_lookup (urdma_reg_mr_with_rkey regions 2000 16 3 9) 9 ≡ (
      if 9 == 9
      then some (record { rkey = 9; addr = 2000; length = 16; access = 3 })
      else usiw_mr_lookup regions 9))
    × (usiw_mr_lookup (usiw_dereg_mr_real (urdma_reg_mr_with_rkey regions 2000 16 3 9) 9) 9
        ≡ usiw_mr_lookup regions 9)
reg-lookup_example = reg-lookup regions 2000 16 3 9 9

usiw_modify_qp_example :
    ((usiw_modify_qp 0 (some QpState.sqd) qp).0 ≡ 0)
    × IsClosed host qp (usiw_modify_qp 0 (some QpState.sqd) qp).1
usiw_modify_qp_example = usiw_modify_qp-IsClosed host qp QpState.sqd refl

abbrev fresh : Qp
unfolding usiw_recv_wqe_queue_init init_cq
fresh = record qp {
  rq0 = usiw_recv_wqe_queue_init host (recv_wqe 0) 3 3;
  cqs = λ id. init_cq host (λ _. no_completion) id 3;
}

fresh-Fresh : Fresh host fresh
unfolding usiw_recv_wqe_queue_init init_cq fresh
fresh-Fresh = record {
  zeroed = recv_wqe 0;
  max_wr = 3;
  max_sge = 3;
  rq0 = refl;
  size = λ id. 3;
  cqs = λ id. refl;
}

abbrev posted_receives : Qp
posted_receives = after (usiw_post_recv host fresh two_receives)

abbrev passed : Qp
passed = (kni_step host posted_receives true (λ i. 0) []).0

Reach-Consistent_example : Consistent (set_cq passed 1 (usiw_poll_cq host (passed.cqs 1) 2).1)
Reach-Consistent_example =
    Reach-Consistent host fresh (set_cq passed 1 (usiw_poll_cq host (passed.cqs 1) 2).1) host-Laws
      fresh-Fresh
      (next
        (next (next (start fresh) (posts_recv fresh two_receives))
          (pass posted_receives true (λ i. 0) []))
        (polls passed 1 2))
