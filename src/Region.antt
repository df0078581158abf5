-- ===== src/Region.antt =====
-- src/liburdma/interface.c: usiw_mr_lookup and usiw_dereg_mr_real, and the test by which
-- process_rdma_read_request and ddp_place_tagged_data hold an access against a region. The
-- program passes the link that the lookup found to usiw_dereg_mr_real; here it is found again.
pub mod Bounds
use urdma.Prelude.{
  ℕ, ◌+◌, ◌%◌, Bool, ◌||◌, Option, none, some, List, [], ◌∷◌, ltb, ◌==◌, if◌then◌else◌,
}
use urdma.Prelude.Words.{u64}
use urdma.Qp.{MemoryRegion, MrTable, update}

unfoldable pub find_mr : List MemoryRegion → ℕ → Option MemoryRegion
find_mr [] rkey = none
find_mr (mr ∷ mrs) rkey = if mr.rkey == rkey then some mr else find_mr mrs rkey

unfoldable pub usiw_mr_lookup : MrTable → ℕ → Option MemoryRegion
unfolding find_mr
usiw_mr_lookup tbl rkey = find_mr (tbl.entries (rkey % tbl.capacity)) rkey

unfoldable pub unlink_mr : List MemoryRegion → ℕ → List MemoryRegion
unlink_mr [] rkey = []
unlink_mr (mr ∷ mrs) rkey =
    let rest = mr ∷ unlink_mr mrs rkey in if mr.rkey == rkey then mrs else rest

unfoldable pub usiw_dereg_mr_real : MrTable → ℕ → MrTable
unfolding unlink_mr
usiw_dereg_mr_real tbl rkey =
    let bucket = rkey % tbl.capacity in
    record tbl { entries = update tbl.entries bucket (unlink_mr (tbl.entries bucket) rkey) }

-- vaddr < mr->addr || vaddr + rdma_length > mr->addr + mr->length, on 64-bit words
unfoldable pub out_of_bounds : MemoryRegion → ℕ → ℕ → Bool
out_of_bounds mr vaddr rdma_length =
    ltb vaddr mr.addr || ltb (u64 (mr.addr + mr.length)) (u64 (vaddr + rdma_length))
