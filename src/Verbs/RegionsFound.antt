-- ===== src/Verbs/RegionsFound.antt =====
-- src/liburdma/verbs.c: registering a region against looking it up and deregistering it
-- (src/liburdma/interface.c).
use urdma.Prelude.{
  ℕ, ◌%◌, ◌≡◌, refl, sym, ◌∙◌, ap, inl, inr, true, false, some, ◌∷◌, ◌==◌, if◌then◌else◌, arith,
  Bool-cases, ==→eq,
}
use urdma.Qp.{MemoryRegion, MrTable, update}
use urdma.Region.{find_mr, usiw_mr_lookup, unlink_mr, usiw_dereg_mr_real}
use urdma.Verbs.Regions.{urdma_reg_mr_with_rkey}

same : (n : ℕ) → (n == n) ≡ true
same n = ground arith

-- A new first link of one chain, as lookups of any key see it.
lookup-update :
    (tbl : MrTable) (mr : MemoryRegion) (bucket key : ℕ)
    → (mr.rkey == key) ≡ false
    → find_mr (update tbl.entries bucket (mr ∷ tbl.entries bucket) (key % tbl.capacity)) key
      ≡ find_mr (tbl.entries (key % tbl.capacity)) key
unfolding find_mr
lookup-update tbl mr bucket key differs = elim (Bool-cases (bucket == key % tbl.capacity)) [
  | inl here ↦ rw (here, differs) (ap (λ b. find_mr (tbl.entries b) key) (==→eq _ _ here))
  | inr away ↦ rw away refl
]

found_at :
    (tbl : MrTable) (addr len access rkey key : ℕ)
    → (rkey == key) ≡ true
    → usiw_mr_lookup (urdma_reg_mr_with_rkey tbl addr len access rkey) key
      ≡ some (record { rkey = rkey; addr = addr; length = len; access = access })
unfolding usiw_mr_lookup urdma_reg_mr_with_rkey find_mr
found_at tbl addr len access rkey key e =
    let here : (rkey % tbl.capacity == key % tbl.capacity) ≡ true =
      ap (λ k. rkey % tbl.capacity == k % tbl.capacity) (sym (==→eq rkey key e))
      ∙ same (rkey % tbl.capacity) in
    rw (here, e) refl

dereg_found :
    (tbl : MrTable) (addr len access rkey : ℕ) (bucket : ℕ)
    → (usiw_dereg_mr_real (urdma_reg_mr_with_rkey tbl addr len access rkey) rkey).entries bucket
      ≡ tbl.entries bucket
unfolding usiw_dereg_mr_real urdma_reg_mr_with_rkey unlink_mr
dereg_found tbl addr len access rkey bucket =
    let h = rkey % tbl.capacity in
    elim (Bool-cases (h == bucket)) [
      | inl here ↦ rw (here, same h, same rkey) (ap tbl.entries (==→eq h bucket here))
      | inr away ↦ rw away refl
    ]

other_at :
    (tbl : MrTable) (addr len access rkey key : ℕ)
    → (rkey == key) ≡ false
    → usiw_mr_lookup (urdma_reg_mr_with_rkey tbl addr len access rkey) key ≡ usiw_mr_lookup tbl key
unfolding usiw_mr_lookup urdma_reg_mr_with_rkey
other_at tbl addr len access rkey key ne =
    lookup-update tbl (record { rkey = rkey; addr = addr; length = len; access = access })
      (rkey % tbl.capacity) key ne

-- After urdma_reg_mr_with_rkey, a lookup of the key finds the new region, also if the key was in
-- use, a lookup of any other key finds what it found before, and deregistering the key makes every
-- lookup find what it found before the registration.
pub reg-lookup :
    (tbl : MrTable) (addr len access rkey key : ℕ)
    → (usiw_mr_lookup (urdma_reg_mr_with_rkey tbl addr len access rkey) key ≡ (
        if rkey == key
        then some (record { rkey = rkey; addr = addr; length = len; access = access })
        else usiw_mr_lookup tbl key))
      × (usiw_mr_lookup
            (usiw_dereg_mr_real (urdma_reg_mr_with_rkey tbl addr len access rkey) rkey)
            key
          ≡ usiw_mr_lookup tbl key)
unfolding usiw_mr_lookup usiw_dereg_mr_real urdma_reg_mr_with_rkey
reg-lookup tbl addr len access rkey key = (
  elim (Bool-cases (rkey == key)) [
    | inl e ↦ rw e (found_at tbl addr len access rkey key e)
    | inr ne ↦ rw ne (other_at tbl addr len access rkey key ne)
  ],
  ap (λ l. find_mr l key) (dereg_found tbl addr len access rkey (key % tbl.capacity)),
)
