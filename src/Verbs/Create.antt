-- ===== src/Verbs/Create.antt =====
-- src/liburdma/verbs.c: next_pow2, the test and adjustment of the capabilities in usiw_create_qp,
-- and the size that usiw_create_cq gives a completion queue. The number of doublings of next_pow2
-- is its fuel: 31 take 1 past every int.
use urdma.Prelude.{
  ℕ, zero, suc, ◌+◌, ◌-◌, ◌*◌, ◌/◌, ◌^◌, Bool, ◌||◌, not, Option, none, some, ltb, ◌==◌,
  if◌then◌else◌,
}
use urdma.Verbs.Recv.{iov_len_max}
use urdma.Verbs.State.{QpCap}

unfoldable pub double_until : ℕ → ℕ → ℕ → ℕ
double_until zero out goal = out
double_until (suc fuel) out goal =
    let rest = double_until fuel (out * 2) goal in if ltb out goal then rest else out

unfoldable pub next_pow2 : ℕ → ℕ
unfolding double_until
next_pow2 goal = double_until 31 1 goal

abbrev pub size_pow2_max : ℕ
size_pow2_max = 2 ^ 30

abbrev pub max_wr_limit : ℕ
max_wr_limit = 1023

-- sizeof(struct iovec)
abbrev pub iovec_size : ℕ
iovec_size = 16

abbrev pub max : ℕ → ℕ → ℕ
max a b = if ltb b a then a else b

-- Whether usiw_create_qp refuses the capabilities; `known_type` is whether the type is UD or RC.
unfoldable pub caps_refused : Bool → QpCap → Bool
caps_refused known_type cap =
    not known_type
    || ltb max_wr_limit cap.max_send_wr
    || ltb max_wr_limit cap.max_recv_wr
    || ltb iov_len_max cap.max_send_sge
    || ltb iov_len_max cap.max_recv_sge
    || ltb (iovec_size * iov_len_max) cap.max_inline_data

-- The rings hold one less than a power of two.
unfoldable pub ring_size : ℕ → ℕ
unfolding next_pow2
ring_size n = max (next_pow2 (n + 1) - 1) 63

abbrev pub or_three : ℕ → ℕ
or_three n = if n == 0 then 3 else n

unfoldable pub adjust_caps : QpCap → QpCap
unfolding ring_size
adjust_caps cap =
    let sge = or_three cap.max_send_sge in
    let sz = sge * iovec_size in
    record {
      max_send_wr = ring_size cap.max_send_wr;
      max_recv_wr = ring_size cap.max_recv_wr;
      max_send_sge =
          if ltb sz cap.max_inline_data then (cap.max_inline_data - 1) / iovec_size + 1 else sge;
      max_recv_sge = or_three cap.max_recv_sge;
      max_inline_data = if ltb cap.max_inline_data sz then sz else cap.max_inline_data;
    }

unfoldable pub create_caps : Bool → QpCap → Option QpCap
unfolding caps_refused adjust_caps
create_caps known_type cap = if caps_refused known_type cap then none else some (adjust_caps cap)

-- The size of a completion queue; `none` if it is refused.
unfoldable pub cq_size : ℕ → Option ℕ
unfolding next_pow2
cq_size size = if ltb size_pow2_max (size + 1) then none else some (next_pow2 (size + 1) - 1)
