-- ===== src/Region/Bounds.antt =====
-- Which accesses the bounds test lets through, and what a lookup finds.
use urdma.Prelude.{ℕ, ◌+◌, ◌%◌, ◌≤◌, ◌<◌, ◌≡◌, ◌≢◌, ◌↔◌, ◌⊎◌, refl, false, List, [], ◌∷◌, arith}
use urdma.Prelude.Words.{u64_mod, u32_mod}
use urdma.Qp.{MemoryRegion, MrTable}
use urdma.Region.{find_mr, usiw_mr_lookup, unlink_mr, usiw_dereg_mr_real, out_of_bounds}

-- For a region that does not wrap and a 32-bit length, the test lets an access through exactly
-- if it starts at or after the start of the region and either ends within the region, or runs
-- past the end of the address space and, wrapped around, ends at or below the end of the region.
pub out_of_bounds_lem :
    (mr : MemoryRegion) (vaddr rdma_length : ℕ)
    → mr.addr + mr.length < u64_mod
    → vaddr < u64_mod
    → rdma_length < u32_mod
    → out_of_bounds mr vaddr rdma_length ≡ false
      ↔ (mr.addr ≤ vaddr)
        × ((vaddr + rdma_length ≤ mr.addr + mr.length)
            ⊎ ((u64_mod ≤ vaddr + rdma_length)
                × (vaddr + rdma_length ≤ u64_mod + mr.addr + mr.length)))
unfolding out_of_bounds
out_of_bounds_lem mr vaddr len a b c = ground arith

-- The keys of a table are unique: at most one region of a bucket has a given key.
find_mr-unlink_ne :
    (mrs : List MemoryRegion) (rkey other : ℕ)
    → rkey ≢ other
    → find_mr (unlink_mr mrs rkey) other ≡ find_mr mrs other
unfolding find_mr unlink_mr
find_mr-unlink_ne [] rkey other ne = refl
find_mr-unlink_ne (mr ∷ mrs) rkey other ne = ground (arith, find_mr-unlink_ne mrs rkey other ne)

-- Deregistering one key does not change what any other key finds.
pub lookup-dereg_ne :
    (tbl : MrTable) (rkey other : ℕ)
    → rkey ≢ other
    → usiw_mr_lookup (usiw_dereg_mr_real tbl rkey) other ≡ usiw_mr_lookup tbl other
unfolding usiw_mr_lookup usiw_dereg_mr_real
lookup-dereg_ne tbl rkey other ne =
    ground (arith, find_mr-unlink_ne (tbl.entries (rkey % tbl.capacity)) rkey other)
