-- ===== src/Order/Automatic.antt =====
-- `AutoCreate` of apps/api/internal/order/auto_repository.go: the allocation engine chooses the
-- levels. Its request and its candidates are those of flowcart.Allocation.
use text.Mathlib.Text.{◌==◌ as text_eq}
use flowcart.Prelude.{
  ℕ, ◌+◌, String, Bool, not, ◌&&◌, Option, none, some, List, [], ◌∷◌, ◌==◌, ltb, first, map, select,
  sort_by, take, length, if◌then◌else◌, ℤ, pos, ◌-ℤ◌, Result, ok, err,
}
use flowcart.Database.{
  Db, Clock, Tx, InventoryLevel, ◌>>=◌, ◌>>◌, pure, throw, gets, modify, throw_if,
}
use flowcart.Database.Sales.{AllocationMethod}
use flowcart.Database.Stock.{
  find_level, find_product, find_warehouse, expire_reservations, reserved_quantity, reserved_on,
}
use flowcart.Allocation.Model.{
  AllocationItem, InventoryCandidate, AllocationDecision, AllocationResult, AllocationError,
  insufficient_inventory, invalid_request,
}
use flowcart.Allocation.Engine.{allocate}
use flowcart.Order.Model.{
  OrderError, invalid_input, idempotency_key_reused, insufficient_network_stock,
  automatic_allocation_complexity, inactive_product, nil_dereference, AutoItemInput,
  AutoCreateInput, OrderView,
}
use flowcart.Order.Reading.{get_order}
use flowcart.Order.Pricing.{Line, lock_prices, lift, total_lines, no_totals}
use flowcart.Order.Placing.{has_key, insert_order, set_totals, insert_lines}
use flowcart.Order.Cancelling.{holds}

abbrev pub auto_candidate_budget : ℕ
auto_candidate_budget = 64

abbrev pub auto_reservation_budget : ℕ
auto_reservation_budget = 32

abbrev pub requested_products : List AutoItemInput → List ℕ
requested_products [] = []
requested_products (i ∷ is) = i.product_id ∷ requested_products is

-- `WHERE organization_id=$1 AND product_id=ANY($2)`
abbrev pub is_stock_of : ℕ → List ℕ → InventoryLevel → Bool
is_stock_of organization products l =
    l.organization_id == organization && holds l.product_id products

abbrev pub level_ids : List InventoryLevel → List ℕ
level_ids [] = []
level_ids (l ∷ ls) = l.id ∷ level_ids ls

-- `discoverInventoryIDs`, with its `ORDER BY id LIMIT $3`
unfoldable pub discover_inventory_ids : ℕ → List ℕ → Tx OrderError (List ℕ)
unfolding sort_by
discover_inventory_ids organization products = do
  ids ← gets (λ db.
      take (auto_candidate_budget + 1)
        (sort_by ltb (level_ids (select (is_stock_of organization products) db.levels))))
  throw_if (ltb auto_candidate_budget (length ids)) automatic_allocation_complexity
  pure ids

-- `lockAutoCandidate`, with the stock on hand as what is available; `none` is `false`
unfoldable pub lock_auto_candidate : ℕ → ℕ → Tx OrderError (Option InventoryCandidate)
lock_auto_candidate organization id db = elim (find_level organization id db) [
  | none ↦ pure none db
  | some level ↦ elim (find_product organization level.product_id db) [
    | none ↦ pure none db
    | some product ↦ elim (find_warehouse organization level.warehouse_id db) [
      | none ↦ pure none db
      | some warehouse ↦
          if not product.is_active
          then throw inactive_product db
          else if not warehouse.is_active
          then pure none db
          else pure
              (some (record {
                inventory_level_id = id;
                warehouse_id = level.warehouse_id;
                warehouse_code = warehouse.code;
                product_id = level.product_id;
                available = pos level.on_hand_quantity;
              }))
              db
    ]
  ]
]

-- `effectiveAvailableTx`; both numbers are `int64`s that are not negative
unfoldable pub effective_available : Clock → ℕ → ℕ → ℤ → Db → ℤ
unfolding reserved_on ◌-ℤ◌
effective_available clock organization id on_hand db =
    on_hand -ℤ pos (reserved_quantity clock organization id db)

-- the loop over the levels
unfoldable pub lock_candidates : Clock → ℕ → List ℕ → Tx OrderError (List InventoryCandidate)
unfolding lock_auto_candidate expire_reservations effective_available
lock_candidates clock organization [] = pure []
lock_candidates clock organization (id ∷ ids) = do
  found ← lock_auto_candidate organization id
  elim found [
    | none ↦ lock_candidates clock organization ids
    | some c ↦ do
      modify (expire_reservations clock organization id)
      available ← gets (effective_available clock organization id c.available)
      rest ← lock_candidates clock organization ids
      pure (record c { available = available } ∷ rest)
  ]

-- `AllocationRequestFromAuto`
abbrev pub request_from_auto : List AutoItemInput → List AllocationItem
request_from_auto [] = []
request_from_auto (i ∷ is) =
    record { product_id = i.product_id; quantity = i.quantity } ∷ request_from_auto is

-- the result of `Allocate` with its errors in the words of orders; the engine always ends
unfoldable pub allocated_or_throw :
    Option (Result AllocationError AllocationResult) → Result OrderError (List AllocationDecision)
allocated_or_throw none = err nil_dereference
allocated_or_throw (some (err insufficient_inventory)) = err insufficient_network_stock
allocated_or_throw (some (err invalid_request)) = err invalid_input
allocated_or_throw (some (ok r)) = ok r.decisions

-- `byProduct[productID]`, as what is reserved of which level
unfoldable pub decisions_for : ℕ → List AllocationDecision → List (ℕ × ℤ)
decisions_for product [] = []
decisions_for product (d ∷ ds) =
    let rest = decisions_for product ds in
    if d.product_id == product then (d.inventory_level_id, d.quantity) ∷ rest else rest

abbrev pub auto_line : List AllocationDecision → AutoItemInput → Line
auto_line decisions i = record {
  product_id = i.product_id;
  quantity = i.quantity;
  reserves = decisions_for i.product_id decisions;
}

-- what follows the insertion of the order's row
unfoldable pub fill_auto_order : Clock → ℕ → ℕ → AutoCreateInput → Tx OrderError OrderView
unfolding discover_inventory_ids lock_candidates lock_prices allocated_or_throw decisions_for
    total_lines set_totals insert_lines get_order sort_by allocate
fill_auto_order clock organization id input = do
  ids ← discover_inventory_ids organization (requested_products input.items)
  candidates ← lock_candidates clock organization (sort_by ltb ids)
  prices ← lock_prices organization (requested_products input.items) []
  decisions ←
      lift (
        allocated_or_throw (allocate (record { items = request_from_auto input.items }) candidates))
  throw_if (ltb auto_reservation_budget (length decisions)) automatic_allocation_complexity
  totals ← lift (total_lines prices (map (auto_line decisions) input.items) no_totals)
  set_totals organization id totals
  insert_lines clock organization id totals.lines
  get_order organization id

-- `AutoCreate`. The lookup of the key before the transaction and the one in it are the same here.
unfoldable pub auto_create :
    Clock → ℕ → ℕ → String → String → AutoCreateInput → Tx OrderError OrderView
unfolding insert_order fill_auto_order get_order
auto_create clock organization user key hash input = do
  existing ← gets (λ db. first (has_key organization key) db.orders)
  elim existing [
    | some o ↦ do
      throw_if (not (text_eq o.request_hash hash)) idempotency_key_reused
      get_order organization o.id
    | none ↦ do
      id ←
          insert_order clock organization user key hash AllocationMethod.automatic
            (some "minimize_splits_v1")
      fill_auto_order clock organization id input
  ]
