-- ===== src/Tests/Components.antt =====
-- The theorems on the heap, the copies, the completions, the regions and the headers at concrete
-- inputs.
use urdma.Prelude.{
  ℕ, ◌+◌, ◌≤◌, ◌≡◌, ◌↔◌, ◌⊎◌, false, some, List, [], ◌∷◌, ◌++◌, arith, take, drop, map,
}
use urdma.Prelude.Words.{u64_mod}
use urdma.Tests.Scenario.{host, host-Laws, qp, heap, cq, region, regions}
use urdma.BinHeap.{BinHeap, insert, peek, pop}
use urdma.BinHeap.Order.{IsValid}
use urdma.BinHeap.Operations.{Inserted, Popped, insert_correct, pop-peek_correct}
use urdma.Qp.{Iovec}
use urdma.Iov.{memcpy_from_iov, memcpy_to_iov}
use urdma.Iov.Copy.{addresses, scatter, memcpy_from_iov_lem}
use urdma.Iov.Scatter.{memcpy_to_iov_lem}
use urdma.Completion.{rq_flush}
use urdma.Completion.Flush.{posted, IsValidCq}
use urdma.Completion.FlushRecv.{recv_wc, rq_flush_completes_all}
use urdma.Region.{out_of_bounds, usiw_mr_lookup, usiw_dereg_mr_real}
use urdma.Region.Bounds.{out_of_bounds_lem, lookup-dereg_ne}
use urdma.Qp.{WcStatus}
use urdma.Proto.Headers.{
  Tagged, tagged_bytes, rdmap_tagged_packet, Rdmap, Untagged, ReadRequest, Terminate,
  rdmap_untagged_packet, rdmap_terminate_packet, untagged_bytes, terminate_bytes,
}
use urdma.Proto.Fields.{Fits, tagged_roundtrip, untagged_roundtrip, terminate_roundtrip}

heap-IsValid : IsValid heap
heap-IsValid = record { fits = omega arith; order = λ c p q. ground arith }

insert_example : (h' : BinHeap) × (insert heap 1 ≡ some h') × Inserted heap 1 h'
insert_example = insert_correct heap 1 heap-IsValid (omega arith)

pop-peek_example :
    (least : ℕ) × (h' : BinHeap) × (peek heap ≡ some least)
    × (pop heap ≡ some h')
    × Popped heap least h'
pop-peek_example = pop-peek_correct heap heap-IsValid (omega arith)

abbrev iov : List Iovec
iov = (record { base = 10; len = 2 }) ∷ (record { base = 50; len = 4 }) ∷ []

memcpy_from_iov_example :
    memcpy_from_iov qp.memory 3 iov 1 ≡ map qp.memory (take 3 (drop 1 (addresses iov)))
memcpy_from_iov_example = memcpy_from_iov_lem qp.memory 3 iov 1

memcpy_to_iov_example :
    memcpy_to_iov qp.memory iov (7 ∷ 8 ∷ 9 ∷ []) 1
    ≡ scatter qp.memory (drop 1 (addresses iov)) (7 ∷ 8 ∷ 9 ∷ [])
memcpy_to_iov_example = memcpy_to_iov_lem qp.memory iov (7 ∷ 8 ∷ 9 ∷ []) 1

cq-IsValidCq : IsValidCq (cq 1)
cq-IsValidCq = record { distinct = ground arith; room = omega arith }

rq_flush_example :
    ((rq_flush host qp).rq0.active ≡ [])
    × ((rq_flush host qp).rq0.ring ≡ [])
    × (posted ((rq_flush host qp).cqs 1)
        ≡ posted (cq 1) ++ map (recv_wc 1 qp.rq0.storage WcStatus.wr_flush_err) (0 ∷ 1 ∷ 2 ∷ []))
rq_flush_example = rq_flush_completes_all host qp host-Laws cq-IsValidCq (omega arith)

out_of_bounds_example :
    out_of_bounds region 1010 54 ≡ false
    ↔ (1000 ≤ 1010)
      × ((1010 + 54 ≤ 1000 + 64) ⊎ ((u64_mod ≤ 1010 + 54) × (1010 + 54 ≤ u64_mod + 1000 + 64)))
out_of_bounds_example = out_of_bounds_lem region 1010 54 (omega arith) (omega arith) (omega arith)

lookup-dereg_example : usiw_mr_lookup (usiw_dereg_mr_real regions 9) 5 ≡ usiw_mr_lookup regions 5
lookup-dereg_example = lookup-dereg_ne regions 9 5 (omega arith)

abbrev rdmap : Rdmap
rdmap = record { ddp_flags = 0x41; rdmap_info = 0x43; sink_stag = 0x12345678 }

abbrev untagged : Untagged
untagged = record { head = rdmap; qn = 1; msn = 300; mo = 70000 }

untagged-Fits : Fits untagged
untagged-Fits = record { stag = omega arith; qn = omega arith; msn = omega arith; mo = omega arith }

untagged_roundtrip_example : rdmap_untagged_packet (untagged_bytes untagged ++ 1 ∷ []) ≡ untagged
untagged_roundtrip_example = untagged_roundtrip untagged (1 ∷ []) untagged-Fits

abbrev tagged : Tagged
tagged = record { head = rdmap; offset = 0x123456789abc }

tagged_roundtrip_example : rdmap_tagged_packet (tagged_bytes tagged ++ 9 ∷ []) ≡ tagged
tagged_roundtrip_example = tagged_roundtrip tagged (9 ∷ []) (omega arith) (omega arith)

abbrev readreq : ReadRequest
readreq = record {
  untagged = untagged;
  sink_offset = 0x123456789abc;
  read_msg_size = 4096;
  source_stag = 7;
  source_offset = 0x10000;
}

abbrev terminate : Terminate
terminate = record { untagged = untagged; error_code = 0x1101; hdrct = 3; reserved = 0 }

terminate_roundtrip_example : rdmap_terminate_packet (terminate_bytes terminate ++ []) ≡ terminate
terminate_roundtrip_example = terminate_roundtrip terminate [] untagged-Fits (omega arith)
