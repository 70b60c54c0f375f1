-- ===== src/Order/Creating.antt =====
-- `Create` of apps/api/internal/order/repository.go.
use text.Mathlib.Text.{◌==◌ as text_eq}
use flowcart.Prelude.{
  ℕ, String, Bool, false, not, ◌&&◌, ◌||◌, none, some, List, [], ◌∷◌, ◌==◌, ltb, first, map,
  sort_by, ℤ, pos, ◌-ℤ◌, ltb_ℤ, Map, lookup,
}
use flowcart.Database.{Clock, Tx, AuditEvent, ◌>>=◌, ◌>>◌, pure, gets, or_throw, modify, throw_if}
use flowcart.Database.Audit.{append_event}
use flowcart.Database.Sales.{AllocationMethod}
use flowcart.Database.Stock.{
  find_level, find_product, find_warehouse, expire_reservations, reserved_quantity, reserved_on,
}
use flowcart.Order.Model.{
  OrderError, invalid_input, not_found, insufficient_available_stock, idempotency_key_reused,
  inactive_product, inactive_warehouse, database_error, ItemInput, CreateInput, OrderView,
}
use flowcart.Order.Reading.{get_order}
use flowcart.Order.Pricing.{Line, lock_prices, lift, total_lines, no_totals}
use flowcart.Order.Placing.{has_key, insert_order, set_totals, insert_lines}

abbrev pub contains : ℕ → List ℕ → Bool
contains x [] = false
contains x (y ∷ ys) = y == x || contains x ys

-- the loop over `input.Items` that compares what is asked of a level with what is free of it
unfoldable pub asks_too_much : ℤ → ℕ → List ItemInput → Bool
asks_too_much free level [] = false
asks_too_much free level (i ∷ is) =
    (i.inventory_level_id == level && ltb_ℤ free i.quantity) || asks_too_much free level is

-- the loop over the sorted identifiers of the levels: the product of each. `onHand` and `reserved`
-- are `int64`s that are not negative, so their difference does not wrap.
unfoldable pub lock_stock : Clock → ℕ → List ItemInput → List ℕ → List ℕ → Tx OrderError (Map ℕ)
unfolding expire_reservations reserved_on asks_too_much ◌-ℤ◌
lock_stock clock organization items [] seen = pure []
lock_stock clock organization items (id ∷ ids) seen = do
  level ← (λ db. or_throw (find_level organization id db) not_found db)
  product ← (λ db. or_throw (find_product organization level.product_id db) not_found db)
  warehouse ← (λ db. or_throw (find_warehouse organization level.warehouse_id db) not_found db)
  throw_if (not product.is_active) inactive_product
  throw_if (not warehouse.is_active) inactive_warehouse
  throw_if (contains level.product_id seen) invalid_input
  modify (expire_reservations clock organization id)
  reserved ← gets (reserved_quantity clock organization id)
  throw_if (asks_too_much (pos level.on_hand_quantity -ℤ pos reserved) id items)
      insufficient_available_stock
  rest ← lock_stock clock organization items ids (level.product_id ∷ seen)
  pure ((id, level.product_id) ∷ rest)

-- a missing key gives the nil product, as a Go map does
abbrev pub product_of : Map ℕ → ℕ → ℕ
product_of products level = elim (lookup level products) [ none ↦ 0 | some p ↦ p ]

abbrev pub line_of : Map ℕ → ItemInput → Line
line_of products i = record {
  product_id = product_of products i.inventory_level_id;
  quantity = i.quantity;
  reserves = (i.inventory_level_id, i.quantity) ∷ [];
}

abbrev pub levels_of : List ItemInput → List ℕ
levels_of [] = []
levels_of (i ∷ is) = i.inventory_level_id ∷ levels_of is

abbrev pub products_in : Map ℕ → List ℕ
products_in [] = []
products_in ((_, p) ∷ rest) = p ∷ products_in rest

abbrev pub order_event : String → ℕ → ℕ → ℕ → AuditEvent
order_event type organization user id = record {
  organization_id = organization;
  event_type = type;
  resource_type = "order";
  resource_id = id;
  actor_type = "user";
  actor_user_id = some user;
  source_type = "order";
  source_id = id;
}

-- what follows the insertion of the order's row
unfoldable pub fill_order : Clock → ℕ → ℕ → ℕ → CreateInput → Tx OrderError OrderView
unfolding lock_stock lock_prices total_lines set_totals insert_lines get_order append_event sort_by
fill_order clock organization user id input = do
  products ← lock_stock clock organization input.items (sort_by ltb (levels_of input.items)) []
  prices ← lock_prices organization (sort_by ltb (products_in products)) []
  totals ← lift (total_lines prices (map (line_of products) input.items) no_totals)
  set_totals organization id totals
  insert_lines clock organization id totals.lines
  view ← get_order organization id
  append_event database_error (order_event "order.created" organization user id)
  pure view

-- `Create`
unfoldable pub create : Clock → ℕ → ℕ → String → String → CreateInput → Tx OrderError OrderView
unfolding insert_order fill_order get_order
create clock organization user key hash input = do
  existing ← gets (λ db. first (has_key organization key) db.orders)
  elim existing [
    | some o ↦ do
      throw_if (not (text_eq o.request_hash hash)) idempotency_key_reused
      get_order organization o.id
    | none ↦ do
      id ← insert_order clock organization user key hash AllocationMethod.manual none
      fill_order clock organization user id input
  ]
