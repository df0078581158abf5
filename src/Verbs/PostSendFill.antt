-- ===== src/Verbs/PostSendFill.antt =====
-- src/liburdma/verbs.c, usiw_post_send: what the switch on the opcode makes of an entry.
use mathlib.Core.Path.{subst}
use urdma.Prelude.{
  ℕ, ◌+◌, ◌<◌, ◌≡◌, ◌≢◌, refl, sym, ap, ◌∙◌, Bool, true, false, ◌||◌, Option, none, some, map,
  arith, take, inl, inr, if◌then◌else◌,
}
use urdma.Prelude.Words.{u32_mod}
use urdma.Qp.{Qp, SendWqe, SendOpcode, MemoryRegion}
use urdma.Iov.Copy.{addresses}
use urdma.Region.{usiw_mr_lookup}
use urdma.Verbs.Requests.{SendWr, WrOpcode, Errno}
use urdma.Verbs.Inline.{size_of, Copies, fits, exceeds, inline_loop-Copies}
use urdma.Verbs.Send.{
  Inlined, Prepared, ready, kept, inline_loop, do_inline, inline_if, prepare, prepare_read,
  read_sink, remote_write, set_flags, send_entry,
}
use urdma.Verbs.PostSend.{
  opcode_of, target_of, write_bit, InlineOk, SinkOk, Requested, Fills, filled, not_known, bad_sink,
  too_much_inline, inline_read, Outline, Outline-Requested,
}

inline-Requested :
    (q : Qp) (wr : SendWr) (w : SendWqe)
    → Outline q wr w
    → w.is_inline ≡ true
    → wr.inline ≡ true
    → w.total_length ≡ size_of wr.sg_list
    → take w.total_length w.inline_data ≡ map q.memory (addresses wr.sg_list)
    → Requested q.memory q.pd q.sig_all wr (send_entry w wr)
inline-Requested q wr w (opcode, target, sink, signaled) e asked size bytes = record {
  context = refl;
  opcode = opcode;
  target = target;
  sink = sink;
  signaled = signaled;
  inline = e ∙ sym asked;
  state = refl;
  unnumbered = refl;
  unsent = refl;
  unacked = refl;
  size = rw e size;
  bytes = rw e bytes;
}

do_inline-Fills :
    (q : Qp) (wr : SendWr) (w : SendWqe)
    → size_of wr.sg_list < u32_mod
    → Outline q wr w
    → wr.inline ≡ true
    → wr.opcode ≢ WrOpcode.rdma_read
    → Fills q wr (do_inline q w wr.sg_list)
unfolding do_inline
do_inline-Fills q wr w small o asked no_read =
    of_copies (inline_loop q.memory q.sq.max_inline w.inline_data 0 wr.sg_list) (
      inline_loop-Copies q.memory q.sq.max_inline w.inline_data 0 wr.sg_list (omega arith)
        (omega arith) (omega (arith, small)))
  where
    of_copies :
        (r : Inlined)
        → Copies q.memory q.sq.max_inline w.inline_data 0 wr.sg_list r
        → Fills q wr (elim r [
          | Inlined.copied data_bytes offset ↦
              ready (record w { is_inline = true; inline_data = data_bytes; total_length = offset })
          | Inlined.too_long data_bytes ↦
              kept (record w { is_inline = true; inline_data = data_bytes }) Errno.einval
        ])
    of_copies _ (fits d inside bytes) =
        let w' = record w {
          is_inline = true;
          inline_data = d;
          total_length = 0 + size_of wr.sg_list;
        } in
        filled w' (inline-Requested q wr w' o refl asked (omega arith) bytes)
          (λ _. (no_read, omega (arith, inside)))
    of_copies _ (exceeds d over) = too_much_inline _ asked no_read (omega (arith, over))

not_inline : (wr : SendWr) (max_inline : ℕ) → wr.inline ≡ false → InlineOk max_inline wr
not_inline wr max_inline apart asked = absurd (ground (arith, apart, asked))

inline_if-Fills :
    (q : Qp) (wr : SendWr) (w : SendWqe) (inline : Bool)
    → wr.inline ≡ inline
    → wr.opcode ≢ WrOpcode.rdma_read
    → size_of wr.sg_list < u32_mod
    → Outline q wr w
    → w.is_inline ≡ false
    → Fills q wr (inline_if inline q w wr.sg_list)
inline_if-Fills q wr w true asked no_read small o e = do_inline-Fills q wr w small o asked no_read
inline_if-Fills q wr w false apart no_read small o e =
    filled w (Outline-Requested q wr w small o e apart) (not_inline wr q.sq.max_inline apart)

if-Fills :
    {q : Qp} {wr : SendWr} (b : Bool) {x y : Prepared}
    → (b ≡ true → Fills q wr x)
    → (b ≡ false → Fills q wr y)
    → Fills q wr (if b then x else y)
if-Fills true u v = u refl
if-Fills false u v = v refl

abbrev reading : SendWqe → SendWr → SendWqe
reading w wr = record w {
  opcode = SendOpcode.wr_read;
  remote_addr = wr.remote_addr;
  rkey = wr.rkey;
}

reading-Outline :
    (q : Qp) (wr : SendWr) (w : SendWqe) (mr : MemoryRegion)
    → wr.opcode ≡ WrOpcode.rdma_read
    → usiw_mr_lookup q.pd wr.lkey ≡ some mr
    → write_bit mr ≡ 1
    → w.signaled ≡ (wr.signaled || q.sig_all)
    → Outline q wr (record (reading w wr) { local_stag = mr.rkey })
reading-Outline q wr w mr op found allowed signaled = (
  ap opcode_of op,
  refl,
  subst (SinkOk q.pd wr (record (reading w wr) { local_stag = mr.rkey })) (sym op)
      (mr, found, allowed, refl),
  signaled,
)

read_sink-Fills :
    (q : Qp) (wr : SendWr) (w : SendWqe) (o : Option MemoryRegion)
    → size_of wr.sg_list < u32_mod
    → wr.opcode ≡ WrOpcode.rdma_read
    → usiw_mr_lookup q.pd wr.lkey ≡ o
    → w.signaled ≡ (wr.signaled || q.sig_all)
    → w.is_inline ≡ false
    → wr.inline ≡ false
    → Fills q wr (read_sink (reading w wr) o)
read_sink-Fills q wr w none small op found signaled e apart = bad_sink _ op apart (inl found)
read_sink-Fills q wr w (some mr) small op found signaled e apart =
    if-Fills (remote_write mr)
      (λ allowed.
        filled _
          (Outline-Requested q wr (record (reading w wr) { local_stag = mr.rkey }) small
            (reading-Outline q wr w mr op found (ground (arith, allowed)) signaled) e apart)
          (not_inline wr q.sq.max_inline apart))
      (λ denied. bad_sink _ op apart (inr (mr, found, ground (arith, denied))))

read-Fills :
    (q : Qp) (wr : SendWr) (w : SendWqe)
    → size_of wr.sg_list < u32_mod
    → wr.opcode ≡ WrOpcode.rdma_read
    → w.signaled ≡ (wr.signaled || q.sig_all)
    → w.is_inline ≡ false
    → Fills q wr (prepare_read q w wr)
unfolding prepare_read
read-Fills q wr w small op signaled e =
    if-Fills wr.inline (λ asked. inline_read w asked op)
      (λ apart. read_sink-Fills q wr w (usiw_mr_lookup q.pd wr.lkey) small op refl signaled e apart)

abbrev sending : SendWqe → SendWqe
sending w = record w { opcode = SendOpcode.wr_send }

abbrev writing : SendWqe → SendWr → SendWqe
writing w wr = record w {
  opcode = SendOpcode.wr_write;
  remote_addr = wr.remote_addr;
  rkey = wr.rkey;
}

not_a_read :
    (wr : SendWr) (op : WrOpcode)
    → wr.opcode ≡ op
    → op ≢ WrOpcode.rdma_read
    → wr.opcode ≢ WrOpcode.rdma_read
not_a_read wr op e other read = other (sym e ∙ read)

pub prepare-Fills :
    (q : Qp) (wr : SendWr) (w : SendWqe)
    → size_of wr.sg_list < u32_mod
    → Fills q wr (prepare q (set_flags q w wr) wr wr.opcode)
unfolding prepare
prepare-Fills q wr w small = by_opcode wr.opcode refl
  where
    by_opcode : (op : WrOpcode) → wr.opcode ≡ op → Fills q wr (prepare q (set_flags q w wr) wr op)
    by_opcode WrOpcode.send op =
        inline_if-Fills q wr (sending (set_flags q w wr)) wr.inline refl
          (not_a_read wr WrOpcode.send op (λ e. absurd (ground (arith, e)))) small
          (
            ap opcode_of op,
            ap (λ t. target_of t w.remote_addr w.rkey) op
                ∙ sym (ap (λ t. target_of t wr.remote_addr wr.rkey) op),
            subst (SinkOk q.pd wr (sending (set_flags q w wr))) (sym op) tt,
            refl,
          )
          refl
    by_opcode WrOpcode.rdma_write op =
        inline_if-Fills q wr (writing (set_flags q w wr) wr) wr.inline refl
          (not_a_read wr WrOpcode.rdma_write op (λ e. absurd (ground (arith, e)))) small
          (
            ap opcode_of op,
            refl,
            subst (SinkOk q.pd wr (writing (set_flags q w wr) wr)) (sym op) tt,
            refl,
          )
          refl
    by_opcode WrOpcode.rdma_read op = read-Fills q wr (set_flags q w wr) small op refl refl
    by_opcode WrOpcode.unknown op = not_known (set_flags q w wr) op
