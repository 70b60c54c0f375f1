-- ===== src/Order/Cancelling.antt =====
-- `Cancel` of apps/api/internal/order/repository.go.
use flowcart.Prelude.{
  ℕ, Bool, true, false, ◌&&◌, ◌||◌, Option, none, some, List, [], ◌∷◌, ◌==◌, ltb, update, select,
  sort_by,
}
use flowcart.Database.{
  Db, Clock, Tx, Reservation, ◌>>=◌, ◌>>◌, pure, gets, or_throw, modify, throw_if,
}
use flowcart.Database.Sales.{Order, OrderItem, OrderStatus, Payment, PaymentStatus, CloseReason}
use flowcart.Database.Stock.{find_level, is_active_status}
use flowcart.Inventory.Repository.{let_go}
use flowcart.Order.Model.{OrderError, not_found, payment_already_succeeded, OrderView}
use flowcart.Order.Reading.{is_order, find_order, is_order_item, bare, get_order}

-- the item with an identifier is one of the order's
unfoldable pub holds_item : ℕ → ℕ → ℕ → List OrderItem → Bool
holds_item organization order item [] = false
holds_item organization order item (i ∷ is) =
    (is_order_item organization order i && i.id == item) || holds_item organization order item is

-- `FROM inventory_reservations r JOIN order_items oi ON … WHERE r.organization_id=$1 AND
-- oi.order_id=$2`
unfoldable pub is_for_order : ℕ → ℕ → List OrderItem → Reservation → Bool
unfolding holds_item
is_for_order organization order items r =
    r.organization_id == organization
    && elim r.order_item_id [ none ↦ false | some item ↦ holds_item organization order item items ]

abbrev pub holds : ℕ → List ℕ → Bool
holds x [] = false
holds x (y ∷ ys) = y == x || holds x ys

-- `SELECT DISTINCT r.inventory_level_id`
unfoldable pub distinct_levels : List Reservation → List ℕ
distinct_levels [] = []
distinct_levels (r ∷ rs) =
    let rest = distinct_levels rs in
    elim (holds r.inventory_level_id rest) [ true ↦ rest | false ↦ r.inventory_level_id ∷ rest ]

abbrev pub levels_of_order : ℕ → ℕ → Db → List ℕ
levels_of_order organization order db =
    sort_by ltb
      (distinct_levels (select (is_for_order organization order db.order_items) db.reservations))

-- the loop that locks the levels
unfoldable pub lock_order_levels : {E : Type 0} → ℕ → E → List ℕ → Tx E (Unit {0})
lock_order_levels organization failure [] = pure tt
lock_order_levels organization failure (id ∷ ids) = do
  (λ db. or_throw (find_level organization id db) failure db)
  lock_order_levels organization failure ids

abbrev pub is_payment_of : ℕ → ℕ → Payment → Bool
is_payment_of organization order p = p.organization_id == organization && p.order_id == order

abbrev pub is_succeeded : PaymentStatus → Bool
is_succeeded PaymentStatus.succeeded = true
is_succeeded _ = false

abbrev pub is_pending_payment : PaymentStatus → Bool
is_pending_payment PaymentStatus.pending = true
is_pending_payment _ = false

abbrev pub has_provider : Payment → Bool
has_provider p = elim p.provider_name [ none ↦ false | some _ ↦ true ]

-- the loop over the payments of the order
unfoldable pub any_payment : (Payment → Bool) → List Payment → Bool
any_payment test [] = false
any_payment test (p ∷ ps) = test p || any_payment test ps

abbrev pub is_pending_order : OrderStatus → Bool
is_pending_order OrderStatus.pending = true
is_pending_order _ = false

-- `COALESCE(…,NOW())`
abbrev pub or_now : ℕ → Option ℕ → Option ℕ
or_now now none = some now
or_now now (some time) = some time

abbrev pub is_open_payment : ℕ → ℕ → Payment → Bool
is_open_payment organization order p =
    is_payment_of organization order p && is_pending_payment p.status

abbrev pub request_payment_cancel : ℕ → Payment → Payment
request_payment_cancel now p = record p {
  cancel_requested_at = or_now now p.cancel_requested_at;
  close_reason = some CloseReason.customer;
  next_reconcile_at = some now;
}

abbrev pub request_order_cancel : ℕ → Order → Order
request_order_cancel now o = record o { cancel_requested_at = or_now now o.cancel_requested_at }

-- a pending order with a payment at a provider: the cancellation waits for the provider
unfoldable pub request_cancel : Clock → ℕ → ℕ → Tx OrderError OrderView
request_cancel clock organization id = do
  modify (λ db. record db {
    payments =
        update (is_open_payment organization id) (request_payment_cancel clock.now) db.payments;
    orders = update (is_order organization id) (request_order_cancel clock.now) db.orders;
  })
  order ← (λ db. or_throw (find_order organization id db) not_found db)
  pure (bare order)

abbrev pub cancel_payment : Payment → Payment
cancel_payment p = record p { status = PaymentStatus.cancelled }

abbrev pub cancel_order : ℕ → Order → Order
cancel_order now o = record o { status = OrderStatus.cancelled; cancelled_at = some now }

abbrev pub is_active_of : ℕ → ℕ → List OrderItem → Reservation → Bool
is_active_of organization order items r =
    is_for_order organization order items r && is_active_status r.status

-- the other pending orders: their payments are cancelled and their reservations let go
unfoldable pub cancel_now : ℕ → ℕ → ℕ → Db → Db
unfolding is_for_order
cancel_now now organization id db = record db {
  payments = update (is_open_payment organization id) cancel_payment db.payments;
  reservations = update (is_active_of organization id db.order_items) (let_go now) db.reservations;
  orders = update (is_order organization id) (cancel_order now) db.orders;
}

-- `Cancel`
unfoldable pub cancel : Clock → ℕ → ℕ → Tx OrderError OrderView
unfolding lock_order_levels any_payment request_cancel cancel_now get_order distinct_levels sort_by
cancel clock organization id = do
  levels ← gets (levels_of_order organization id)
  lock_order_levels organization not_found levels
  order ← (λ db. or_throw (find_order organization id db) not_found db)
  payments ← gets (λ db. select (is_payment_of organization id) db.payments)
  throw_if (any_payment (λ p. is_succeeded p.status) payments) payment_already_succeeded
  elim (is_pending_order order.status) [
    | false ↦ get_order organization id
    | true ↦ elim (any_payment has_provider payments) [
      | true ↦ request_cancel clock organization id
      | false ↦ do modify (cancel_now clock.now organization id); get_order organization id
    ]
  ]
