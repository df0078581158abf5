-- ===== src/Verbs/Regions.antt =====
-- src/liburdma/verbs.c: usiw_hash_mr, urdma_reg_mr_with_rkey and usiw_reg_mr, if the allocation
-- succeeds. rte_jhash_3words is a parameter.
use urdma.Prelude.{ℕ, ◌/◌, ◌%◌, ◌^◌, Option, none, some, ◌∷◌, ltb, if◌then◌else◌}
use urdma.Prelude.Words.{u32_mod}
use urdma.Qp.{MemoryRegion, MrTable, update}

-- Masking by 0xffffff is the remainder by 2 ^ 24.
unfoldable pub usiw_hash_mr : (ℕ → ℕ → ℕ → ℕ → ℕ) → ℕ → ℕ → ℕ
usiw_hash_mr jhash_3words addr len =
    jhash_3words (addr / u32_mod) (addr % u32_mod) (len % u32_mod) 0 % 2 ^ 24

-- The new region is the first of its chain.
unfoldable pub urdma_reg_mr_with_rkey : MrTable → ℕ → ℕ → ℕ → ℕ → MrTable
urdma_reg_mr_with_rkey tbl addr len access rkey =
    let hash = rkey % tbl.capacity in
    let mr : MemoryRegion = record { rkey = rkey; addr = addr; length = len; access = access } in
    record tbl { entries = update tbl.entries hash (mr ∷ tbl.entries hash) }

abbrev pub max_mr_size : ℕ
max_mr_size = 2 ^ 30

-- `none` is EINVAL; else the key of the region and the table.
unfoldable pub usiw_reg_mr : (ℕ → ℕ → ℕ → ℕ → ℕ) → MrTable → ℕ → ℕ → ℕ → Option (ℕ × MrTable)
unfolding usiw_hash_mr urdma_reg_mr_with_rkey
usiw_reg_mr jhash_3words tbl addr len access =
    let rkey = usiw_hash_mr jhash_3words addr len in
    if ltb max_mr_size len
    then none
    else some (rkey, urdma_reg_mr_with_rkey tbl addr len access rkey)
