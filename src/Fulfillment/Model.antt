-- ===== src/Fulfillment/Model.antt =====
-- apps/api/internal/fulfillment/model.go, and the rows that repository.go scans.
use text.Mathlib.Text.{◌==◌ as text_eq}
use flowcart.Prelude.{
  ℕ, String, Bool, ◌&&◌, Option, none, some, List, [], ◌∷◌, ◌==◌, ltb, first, select, sort_by,
}
use flowcart.Database.{Db, Reservation, ReservationStatus, InventoryLevel}
use flowcart.Database.Sales.{OrderItem, Fulfillment, FulfillmentItem}
use flowcart.Database.Stock.{find_level, find_warehouse}
use flowcart.Order.Creating.{contains}

-- The errors of `model.go`, those of the database, and a panic.
pub data FulfillmentError : Type 0 where
  invalid_input forbidden not_found order_not_found order_not_paid : FulfillmentError
  order_already_fulfilled reservation_not_found reservation_not_committed : FulfillmentError
  reservation_already_consumed reservation_other_order mixed_warehouse : FulfillmentError
  insufficient_stock idempotency_key_reused database_error : FulfillmentError
  index_out_of_range : FulfillmentError

-- A `Fulfillment` of model.go: the row, and what is joined to it.
pub record FulfillmentView : Type 0 where
  pub fulfillment : Fulfillment
  pub warehouse_code : String
  pub warehouse_name : String
  pub items : List FulfillmentItem

pub record CreateInput : Type 0 where
  pub reservation_ids : List ℕ

-- `reservationRecord`
pub record ReservationRecord : Type 0 where
  pub id : ℕ
  pub order_item_id : ℕ
  pub inventory_level_id : ℕ
  pub order_id : ℕ
  pub warehouse_id : ℕ
  pub product_id : ℕ
  pub quantity : ℕ
  pub status : ReservationStatus

abbrev pub find_item : ℕ → ℕ → Db → Option OrderItem
find_item organization id db =
    first (λ i. i.organization_id == organization && i.id == id) db.order_items

-- the `SELECT` of `scanFulfillment`: the row, once its warehouse is joined to it
abbrev pub scan_fulfillment : Db → Option Fulfillment → Option FulfillmentView
scan_fulfillment db none = none
scan_fulfillment db (some f) = elim (find_warehouse f.organization_id f.warehouse_id db) [
  | none ↦ none
  | some w ↦
      some
        (record { fulfillment = f; warehouse_code = w.code; warehouse_name = w.name; items = [] })
]

abbrev pub has_fulfillment_key : ℕ → String → Fulfillment → Bool
has_fulfillment_key organization key f =
    f.organization_id == organization && text_eq f.idempotency_key key

abbrev pub is_fulfillment : ℕ → ℕ → Fulfillment → Bool
is_fulfillment organization id f = f.organization_id == organization && f.id == id

-- `WHERE r.organization_id=$1 AND r.id=ANY($2)`
abbrev pub is_requested : ℕ → List ℕ → Reservation → Bool
is_requested organization ids r = r.organization_id == organization && contains r.id ids

abbrev pub record_of : Reservation → OrderItem → InventoryLevel → ReservationRecord
record_of r i l = record {
  id = r.id;
  order_item_id = i.id;
  inventory_level_id = l.id;
  order_id = i.order_id;
  warehouse_id = l.warehouse_id;
  product_id = l.product_id;
  quantity = r.quantity;
  status = r.status;
}

-- the joins of a reservation with its item and its level
abbrev pub record_joined : ℕ → Db → Reservation → Option ReservationRecord
record_joined organization db r = elim r.order_item_id [
  | none ↦ none
  | some item ↦ elim (find_item organization item db) [
    | none ↦ none
    | some i ↦ elim (find_level organization r.inventory_level_id db) [
      | none ↦ none
      | some l ↦ some (record_of r i l)
    ]
  ]
]

-- `scanReservations`
unfoldable pub scan_reservations : ℕ → Db → List Reservation → List ReservationRecord
scan_reservations organization db [] = []
scan_reservations organization db (r ∷ rs) =
    let rest = scan_reservations organization db rs in
    elim (record_joined organization db r) [ none ↦ rest | some joined ↦ joined ∷ rest ]

-- `discoverReservations`; the rows come in the order of their table
unfoldable pub discover_reservations : ℕ → List ℕ → Db → List ReservationRecord
unfolding scan_reservations
discover_reservations organization ids db =
    scan_reservations organization db (select (is_requested organization ids) db.reservations)

abbrev pub record_less : ReservationRecord → ReservationRecord → Bool
record_less a b = ltb a.id b.id

-- `lockReservations`, with its `ORDER BY r.id`
unfoldable pub lock_reservations : ℕ → List ℕ → Db → List ReservationRecord
unfolding discover_reservations sort_by
lock_reservations organization ids db =
    sort_by record_less (discover_reservations organization ids db)

abbrev pub is_item_of_fulfillment : ℕ → ℕ → FulfillmentItem → Bool
is_item_of_fulfillment organization id i =
    i.organization_id == organization && i.fulfillment_id == id

abbrev pub item_id_less : FulfillmentItem → FulfillmentItem → Bool
item_id_less a b = ltb a.id b.id

-- `loadFulfillmentTx`
unfoldable pub load_fulfillment : FulfillmentView → Db → FulfillmentView
unfolding sort_by
load_fulfillment v db = record v {
  items = sort_by item_id_less (
      select (is_item_of_fulfillment (v.fulfillment).organization_id (v.fulfillment).id)
        db.fulfillment_items);
}
