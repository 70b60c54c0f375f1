-- ===== src/Order/Placing.antt =====
-- What `Create` and `AutoCreate` of apps/api/internal/order write: the order, its items and the
-- reservations of them.
use text.Mathlib.Text.{◌==◌ as text_eq}
use flowcart.Prelude.{
  ℕ, suc, ◌+◌, String, Bool, ◌&&◌, ◌||◌, Option, none, some, List, [], ◌∷◌, ◌++◌, ◌==◌, first,
  update, ℤ, pos, pos_part, ltb_ℤ, leb_ℤ,
}
use flowcart.Database.{
  Clock, Tx, Reservation, active, ◌>>=◌, ◌>>◌, pure, throw, gets, modify, throw_if,
}
use flowcart.Database.Sales.{Order, OrderItem, OrderStatus, AllocationMethod}
use flowcart.Inventory.Repository.{reservation_ttl}
use flowcart.Order.Model.{OrderError, database_error}
use flowcart.Order.Reading.{is_order}
use flowcart.Order.Pricing.{PricedLine, Totals}

abbrev pub has_key : ℕ → String → Order → Bool
has_key organization key o = o.organization_id == organization && text_eq o.idempotency_key key

abbrev pub new_order :
    Clock → ℕ → ℕ → ℕ → String → String → AllocationMethod → Option String → Order
new_order clock id organization user key hash method strategy = record {
  id = id;
  organization_id = organization;
  created_by_user_id = user;
  status = OrderStatus.pending;
  idempotency_key = key;
  request_hash = hash;
  allocation_method = method;
  allocation_strategy = strategy;
  created_at = clock.now;
  cancelled_at = none;
  paid_at = none;
  cancel_requested_at = none;
  fulfilled_at = none;
  currency_code = none;
  subtotal_minor = none;
}

-- `INSERT INTO orders`, once no order has the key
unfoldable pub insert_order :
    Clock → ℕ → ℕ → String → String → AllocationMethod → Option String → Tx OrderError ℕ
insert_order clock organization user key hash method strategy db = pure db.next_id (record db {
  orders = db.orders ++ new_order clock db.next_id organization user key hash method strategy ∷ [];
  next_id = suc db.next_id;
})

abbrev pub priced : String → ℕ → Order → Order
priced currency subtotal o = record o {
  currency_code = some currency;
  subtotal_minor = some subtotal;
}

-- `UPDATE orders SET currency_code=$3, subtotal_minor=$4`, with the CHECKs of both columns
unfoldable pub set_totals : ℕ → ℕ → Totals → Tx OrderError (Unit {0})
set_totals organization order t = do
  throw_if (text_eq t.currency "" || ltb_ℤ t.subtotal (pos 0)) database_error
  modify (λ db. record db {
    orders =
        update (is_order organization order) (priced t.currency (pos_part t.subtotal)) db.orders;
  })

-- the unique key `(organization_id, order_id, product_id)`
abbrev pub is_item_of_product : ℕ → ℕ → ℕ → OrderItem → Bool
is_item_of_product organization order product i =
    i.organization_id == organization && i.order_id == order && i.product_id == product

abbrev pub new_item : Clock → ℕ → ℕ → ℕ → PricedLine → OrderItem
new_item clock id organization order p = record {
  id = id;
  organization_id = organization;
  order_id = order;
  product_id = (p.snapshot).product_id;
  sku_snapshot = (p.snapshot).sku;
  product_name_snapshot = (p.snapshot).name;
  quantity = pos_part (p.line).quantity;
  unit_price_minor_snapshot = some (p.snapshot).price;
  currency_code_snapshot = some (p.snapshot).currency;
  line_total_minor = some (pos_part p.total);
  created_at = clock.now;
}

-- `INSERT INTO order_items`, with `CHECK (quantity > 0)`, `CHECK (line_total_minor >= 0)` and the
-- unique key
unfoldable pub insert_order_item : Clock → ℕ → ℕ → PricedLine → Tx OrderError ℕ
insert_order_item clock organization order p = do
  throw_if (leb_ℤ (p.line).quantity (pos 0) || ltb_ℤ p.total (pos 0)) database_error
  existing ←
      gets
        (λ db. first (is_item_of_product organization order (p.snapshot).product_id) db.order_items)
  elim existing [ none ↦ pure tt | some _ ↦ throw database_error ]
  id ← gets (λ db. db.next_id)
  modify (λ db. record db {
    order_items = db.order_items ++ new_item clock id organization order p ∷ [];
    next_id = suc db.next_id;
  })
  pure id

abbrev pub item_reservation : Clock → ℕ → ℕ → ℕ → ℕ → ℕ → Reservation
item_reservation clock id organization item level quantity = record {
  id = id;
  organization_id = organization;
  inventory_level_id = level;
  order_item_id = some item;
  quantity = quantity;
  status = active;
  expires_at = clock.now + reservation_ttl;
  created_at = clock.now;
  released_at = none;
  expired_at = none;
}

-- `INSERT INTO inventory_reservations`, with `CHECK (quantity > 0)`
unfoldable pub reserve_for_item : Clock → ℕ → ℕ → ℕ → ℤ → Tx OrderError (Unit {0})
reserve_for_item clock organization item level quantity = do
  throw_if (leb_ℤ quantity (pos 0)) database_error
  modify (λ db. record db {
    reservations =
        db.reservations
        ++ item_reservation clock db.next_id organization item level (pos_part quantity) ∷ [];
    next_id = suc db.next_id;
  })

unfoldable pub reserve_all : Clock → ℕ → ℕ → List (ℕ × ℤ) → Tx OrderError (Unit {0})
unfolding reserve_for_item
reserve_all clock organization item [] = pure tt
reserve_all clock organization item ((level, quantity) ∷ rest) = do
  reserve_for_item clock organization item level quantity
  reserve_all clock organization item rest

-- the loop over the items that inserts them, each with its reservations
unfoldable pub insert_lines : Clock → ℕ → ℕ → List PricedLine → Tx OrderError (Unit {0})
unfolding insert_order_item reserve_all
insert_lines clock organization order [] = pure tt
insert_lines clock organization order (p ∷ ps) = do
  item ← insert_order_item clock organization order p
  reserve_all clock organization item (p.line).reserves
  insert_lines clock organization order ps
