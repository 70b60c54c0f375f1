-- ===== src/Allocation/Engine.antt =====
-- `Allocate` of apps/api/internal/allocation/engine.go and the functions that it calls.
use flowcart.Prelude.{
  ℕ, zero, suc, ◌+◌, Bool, true, false, not, ◌&&◌, ◌||◌, Option, none, some, List, [], ◌∷◌, ◌++◌, ℤ,
  pos, pos_part, Map, lookup, insert, length, ltb, ◌==◌, if◌then◌else◌, ltb_ℤ, leb_ℤ, add64, sub64,
  sort_by, Result, ok, err,
}
use flowcart.Allocation.Model.{
  nil_id, AllocationItem, AllocationRequest, InventoryCandidate, AllocationDecision,
  AllocationResult, WarehouseSnapshot, AllocationError, invalid_request, insufficient_inventory,
}
use flowcart.Allocation.Score.{get, warehouse_less, single_warehouse_less, greedy_warehouse_less}

unfoldable pub normalize_items : List AllocationItem → Map ℤ → Result AllocationError (Map ℤ)
normalize_items [] remaining = ok remaining
normalize_items (item ∷ rest) remaining =
    let more = normalize_items rest (insert item.product_id item.quantity remaining) in
    if item.product_id == nil_id || leb_ℤ item.quantity (pos 0)
    then err invalid_request
    else elim (lookup item.product_id remaining) [ some _ ↦ err invalid_request | none ↦ more ]

-- `normalizeRequest`
unfoldable pub normalize_request : AllocationRequest → Result AllocationError (Map ℤ)
unfolding normalize_items
normalize_request request =
    if length request.items == 0 then err invalid_request else normalize_items request.items []

-- `m[k] += v`
abbrev pub bump : ℕ → ℤ → Map ℤ → Map ℤ
bump k v m = insert k (add64 (get k m) v) m

-- `m[k] -= v`
abbrev pub drop_by : ℕ → ℤ → Map ℤ → Map ℤ
drop_by k v m = insert k (sub64 (get k m) v) m

-- the first lines of the loop of `groupWarehouses`
abbrev pub usable : InventoryCandidate → Bool
usable c = not (
    c.inventory_level_id == nil_id
    || c.warehouse_id == nil_id
    || c.product_id == nil_id
    || leb_ℤ c.available (pos 0))

-- the rest of it: the snapshot of the candidate's warehouse is found, or made, and extended
unfoldable pub add_candidate : InventoryCandidate → List WarehouseSnapshot → List WarehouseSnapshot
add_candidate c [] =
    record {
      id = c.warehouse_id;
      code = c.warehouse_code;
      candidates = c ∷ [];
      available_by = bump c.product_id c.available [];
    }
    ∷ []
add_candidate c (w ∷ ws) =
    if w.id == c.warehouse_id
    then record w {
      candidates = w.candidates ++ c ∷ [];
      available_by = bump c.product_id c.available w.available_by;
    }
      ∷ ws
    else w ∷ add_candidate c ws

unfoldable pub collect : List InventoryCandidate → List WarehouseSnapshot → List WarehouseSnapshot
collect [] ws = ws
collect (c ∷ cs) ws = collect cs (if usable c then add_candidate c ws else ws)

abbrev pub level_less : InventoryCandidate → InventoryCandidate → Bool
level_less a b = ltb a.inventory_level_id b.inventory_level_id

unfoldable pub sort_candidates : List WarehouseSnapshot → List WarehouseSnapshot
sort_candidates [] = []
sort_candidates (w ∷ ws) =
    record w { candidates = sort_by level_less w.candidates } ∷ sort_candidates ws

-- `groupWarehouses`
unfoldable pub group_warehouses : List InventoryCandidate → List WarehouseSnapshot
unfolding add_candidate collect sort_candidates sort_by warehouse_less add64
group_warehouses candidates = sort_by warehouse_less (sort_candidates (collect candidates []))

unfoldable pub network_total : List InventoryCandidate → Map ℤ → Map ℤ
network_total [] total = total
network_total (c ∷ cs) total =
    network_total cs
      (if ltb_ℤ (pos 0) c.available then bump c.product_id c.available total else total)

-- every quantity is covered by a map of availabilities
unfoldable pub covers : Map ℤ → Map ℤ → Bool
covers available [] = true
covers available ((product, quantity) ∷ rest) =
    not (ltb_ℤ (get product available) quantity) && covers available rest

-- `networkCanSatisfy`
unfoldable pub network_can_satisfy : Map ℤ → List InventoryCandidate → Bool
unfolding network_total covers add64
network_can_satisfy remaining candidates = covers (network_total candidates []) remaining

-- one round of the loop of `bestSingleWarehouse`
unfoldable pub better_single :
    Map ℤ → WarehouseSnapshot → Option WarehouseSnapshot → Option WarehouseSnapshot
better_single remaining w none = if covers w.available_by remaining then some w else none
better_single remaining w (some best) =
    if covers w.available_by remaining && single_warehouse_less w best remaining
    then some w
    else some best

unfoldable pub single_from :
    Map ℤ → List WarehouseSnapshot → Option WarehouseSnapshot → Option WarehouseSnapshot
single_from remaining [] best = best
single_from remaining (w ∷ ws) best = single_from remaining ws (better_single remaining w best)

-- `bestSingleWarehouse`
unfoldable pub best_single_warehouse : Map ℤ → List WarehouseSnapshot → Option WarehouseSnapshot
unfolding covers better_single single_from single_warehouse_less
best_single_warehouse remaining warehouses = single_from remaining warehouses none

abbrev pub decide : InventoryCandidate → ℤ → AllocationDecision
decide c quantity = record {
  product_id = c.product_id;
  inventory_level_id = c.inventory_level_id;
  warehouse_id = c.warehouse_id;
  warehouse_code = c.warehouse_code;
  quantity = quantity;
}

unfoldable pub allocate_from : Map ℤ → List InventoryCandidate → List AllocationDecision
allocate_from remaining [] = []
allocate_from remaining (c ∷ cs) =
    let rest = allocate_from remaining cs in
    let wanted = get c.product_id remaining in
    if leb_ℤ wanted (pos 0)
    then rest
    else let quantity = if ltb_ℤ c.available wanted then c.available else wanted in
      if ltb_ℤ (pos 0) quantity then decide c quantity ∷ rest else rest

-- `allocateFromWarehouse`
unfoldable pub allocate_from_warehouse : Map ℤ → WarehouseSnapshot → List AllocationDecision
unfolding allocate_from
allocate_from_warehouse remaining warehouse = allocate_from remaining warehouse.candidates

-- `remaining[decision.ProductID] -= decision.Quantity` over the decisions
unfoldable pub take_decisions : List AllocationDecision → Map ℤ → Map ℤ
unfolding sub64
take_decisions [] remaining = remaining
take_decisions (d ∷ ds) remaining = take_decisions ds (drop_by d.product_id d.quantity remaining)

-- `allocateFromWarehouses`
unfoldable pub allocate_from_warehouses : Map ℤ → List WarehouseSnapshot → List AllocationDecision
unfolding allocate_from_warehouse take_decisions
allocate_from_warehouses remaining [] = []
allocate_from_warehouses remaining (w ∷ ws) =
    let decisions = allocate_from_warehouse remaining w in
    decisions ++ allocate_from_warehouses (take_decisions decisions remaining) ws

-- one round of the loop of `bestGreedyWarehouse`
unfoldable pub better_greedy :
    Map ℤ → WarehouseSnapshot → Option WarehouseSnapshot → Option WarehouseSnapshot
better_greedy remaining w best =
    if length (allocate_from_warehouse remaining w) == 0 then best else elim best [
      | none ↦ some w
      | some b ↦ if greedy_warehouse_less w b remaining then some w else some b
    ]

unfoldable pub greedy_from :
    Map ℤ → List WarehouseSnapshot → Option WarehouseSnapshot → Option WarehouseSnapshot
greedy_from remaining [] best = best
greedy_from remaining (w ∷ ws) best = greedy_from remaining ws (better_greedy remaining w best)

-- `bestGreedyWarehouse`
unfoldable pub best_greedy_warehouse : Map ℤ → List WarehouseSnapshot → Option WarehouseSnapshot
unfolding better_greedy greedy_from greedy_warehouse_less allocate_from_warehouse
best_greedy_warehouse remaining warehouses = greedy_from remaining warehouses none

-- `hasRemaining`
unfoldable pub has_remaining : Map ℤ → Bool
has_remaining [] = false
has_remaining ((_, quantity) ∷ rest) = ltb_ℤ (pos 0) quantity || has_remaining rest

-- `best.availableBy[...] -= ...` through the pointer to the chosen snapshot: the one with its id
unfoldable pub take_stock :
    ℕ → List AllocationDecision → List WarehouseSnapshot → List WarehouseSnapshot
take_stock id ds [] = []
take_stock id ds (w ∷ ws) =
    (if w.id == id then record w { available_by = take_decisions ds w.available_by } else w)
    ∷ take_stock id ds ws

-- The loop of `Allocate`; `none` when the fuel runs out.
unfoldable pub greedy :
    ℕ
    → Map ℤ
    → List WarehouseSnapshot
    → List AllocationDecision
    → Option (Result AllocationError AllocationResult)
greedy zero remaining warehouses decisions = none
greedy (suc fuel) remaining warehouses decisions = elim (has_remaining remaining) [
  | false ↦ some (ok (record { decisions = decisions }))
  | true ↦ elim (best_greedy_warehouse remaining warehouses) [
    | none ↦ some (err insufficient_inventory)
    | some best ↦
        let taken = allocate_from_warehouse remaining best in
        greedy fuel (take_decisions taken remaining) (take_stock best.id taken warehouses)
          (decisions ++ taken)
  ]
]

-- The units that are asked for: no round of the loop takes less than one.
unfoldable pub units_left : Map ℤ → ℕ
units_left [] = 0
units_left ((_, quantity) ∷ rest) = pos_part quantity + units_left rest

unfoldable pub allocate_remaining :
    Map ℤ → List InventoryCandidate → Option (Result AllocationError AllocationResult)
unfolding group_warehouses network_can_satisfy best_single_warehouse allocate_from_warehouses
    best_greedy_warehouse has_remaining take_stock greedy units_left
allocate_remaining remaining candidates =
    let warehouses = group_warehouses candidates in
    if length warehouses == 0 || not (network_can_satisfy remaining candidates)
    then some (err insufficient_inventory)
    else elim (best_single_warehouse remaining warehouses) [
      | some w ↦ some (ok (record { decisions = allocate_from_warehouses remaining (w ∷ []) }))
      | none ↦ greedy (units_left remaining + 1) remaining warehouses []
    ]

-- `Allocate`
unfoldable pub allocate :
    AllocationRequest → List InventoryCandidate → Option (Result AllocationError AllocationResult)
unfolding allocate_remaining normalize_request
allocate request candidates = elim (normalize_request request) [
  | err e ↦ some (err e)
  | ok remaining ↦ allocate_remaining remaining candidates
]
