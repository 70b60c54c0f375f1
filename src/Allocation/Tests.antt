-- ===== src/Allocation/Tests.antt =====
-- Runs of the allocation engine, and the inputs of the witnesses.
use flowcart.Prelude.{ℕ, String, ◌≡◌, ◌↔◌, arith, All, refl, some, List, [], ◌∷◌, pos, ok}
use flowcart.Allocation.Model.{
  AllocationItem, AllocationRequest, InventoryCandidate, AllocationDecision, AllocationResult,
}
use flowcart.Allocation.Engine.{allocate, normalize_request}
use flowcart.Allocation.Correct.{Fulfils, allocate-Fulfils}
use flowcart.Allocation.Complete.{Covered, allocate_iff}
use flowcart.Allocation.Provenance.{IsSourced, allocate-IsSourced}
use flowcart.Allocation.Request.{Accepted, IsWellFormed, normalize_request-accepts}

abbrev item : ℕ → ℕ → AllocationItem
item product n = record { product_id = product; quantity = pos n }

abbrev stock : ℕ → ℕ → String → ℕ → ℕ → InventoryCandidate
stock level warehouse code product n = record {
  inventory_level_id = level;
  warehouse_id = warehouse;
  warehouse_code = code;
  product_id = product;
  available = pos n;
}

abbrev decision : ℕ → ℕ → String → ℕ → ℕ → AllocationDecision
decision level warehouse code product n = record {
  product_id = product;
  inventory_level_id = level;
  warehouse_id = warehouse;
  warehouse_code = code;
  quantity = pos n;
}

-- TestAllocateSplitsSameProductDeterministically
splits_product :
    allocate
      (record { items = item 1 8 ∷ [] })
      (stock 201 22 "WH-2" 1 4 ∷ stock 101 11 "WH-1" 1 5 ∷ [])
    ≡ some
        (ok (record { decisions = decision 101 11 "WH-1" 1 5 ∷ decision 201 22 "WH-2" 1 3 ∷ [] }))
unfolding allocate
splits_product = refl

abbrev two_products : AllocationRequest
two_products = record { items = item 1 5 ∷ item 2 10 ∷ [] }

abbrev three_warehouses : List InventoryCandidate
three_warehouses =
    stock 101 11 "A" 1 100 ∷ stock 102 11 "A" 2 4 ∷ stock 201 22 "B" 2 3 ∷ stock 301 33 "C" 2 3 ∷ []

abbrev four_decisions : AllocationResult
four_decisions = record {
  decisions =
      decision 101 11 "A" 1 5
      ∷ decision 102 11 "A" 2 4
      ∷ decision 102 11 "A" 2 4
      ∷ decision 201 22 "B" 2 2
      ∷ [];
}

-- Level 102 holds 4 units and is given 8: what the first round took is off the snapshot's
-- `availableBy`, which orders the warehouses, but not off the candidates, which are taken from.
takes_a_level_twice : allocate two_products three_warehouses ≡ some (ok four_decisions)
unfolding allocate
takes_a_level_twice = refl

allocate-Fulfils_example : Fulfils two_products (allocate two_products three_warehouses)
allocate-Fulfils_example =
    allocate-Fulfils two_products three_warehouses (ground arith) (ground arith) (ground arith)

allocate-IsSourced_example : All (IsSourced three_warehouses) four_decisions.decisions
allocate-IsSourced_example =
    allocate-IsSourced two_products three_warehouses four_decisions takes_a_level_twice

normalize_request-accepts_example :
    Accepted (normalize_request two_products) ↔ IsWellFormed two_products
normalize_request-accepts_example = normalize_request-accepts two_products

allocate_iff_example :
    ((r : AllocationResult) × (allocate two_products three_warehouses ≡ some (ok r)))
    ↔ (IsWellFormed two_products × Covered two_products three_warehouses)
allocate_iff_example =
    allocate_iff two_products three_warehouses (ground arith) (ground arith) (ground arith)
      (λ _. refl, (λ _. refl, (λ _. refl, (λ _. refl, tt)))) (λ p. ground arith)
