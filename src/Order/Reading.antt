-- ===== src/Order/Reading.antt =====
-- What apps/api/internal/order/repository.go reads: an order with its items and reservations.
use text.Mathlib.Text.{◌==◌ as text_eq}
use flowcart.Prelude.{
  ℕ, String, Bool, false, ◌&&◌, ◌||◌, Option, none, some, List, [], ◌∷◌, ◌++◌, map, ltb, ◌==◌,
  if◌then◌else◌, first, select, sort_by, text_less,
}
use flowcart.Database.{Db, Tx, Reservation, ◌>>=◌, gets, or_throw}
use flowcart.Database.Sales.{Order, OrderItem}
use flowcart.Database.Stock.{find_level, find_warehouse}
use flowcart.Order.Model.{OrderError, not_found, AllocationDetail, ItemView, OrderView}

abbrev pub is_order : ℕ → ℕ → Order → Bool
is_order organization id o = o.organization_id == organization && o.id == id

abbrev pub find_order : ℕ → ℕ → Db → Option Order
find_order organization id db = first (is_order organization id) db.orders

abbrev pub is_order_item : ℕ → ℕ → OrderItem → Bool
is_order_item organization order i = i.organization_id == organization && i.order_id == order

-- `r.organization_id=oi.organization_id AND r.order_item_id=oi.id`
abbrev pub is_for_item : ℕ → ℕ → Reservation → Bool
is_for_item organization item r =
    r.organization_id == organization && elim r.order_item_id [ none ↦ false | some i ↦ i == item ]

-- A row of the query of `loadOrderItems`.
pub record JoinedRow : Type 0 where
  pub item : OrderItem
  pub reservation : Option Reservation
  pub warehouse_code : Option String

abbrev pub warehouse_code_of : ℕ → ℕ → Db → Option String
warehouse_code_of organization level db = elim (find_level organization level db) [
  | none ↦ none
  | some l ↦ elim (find_warehouse organization l.warehouse_id db) [
    | none ↦ none
    | some w ↦ some w.code
  ]
]

abbrev pub joined : Db → OrderItem → Reservation → JoinedRow
joined db i r = record {
  item = i;
  reservation = some r;
  warehouse_code = warehouse_code_of r.organization_id r.inventory_level_id db;
}

abbrev pub row_or_none : OrderItem → List JoinedRow → List JoinedRow
row_or_none i [] = record { item = i; reservation = none; warehouse_code = none } ∷ []
row_or_none i (row ∷ rows) = row ∷ rows

abbrev pub reservation_less : Reservation → Reservation → Bool
reservation_less r s = ltb r.id s.id

-- `LEFT JOIN inventory_reservations`, in the order of their identifiers
unfoldable pub join_item : Db → OrderItem → List JoinedRow
unfolding sort_by
join_item db i = row_or_none i (
    map (joined db i)
      (sort_by reservation_less (select (is_for_item i.organization_id i.id) db.reservations)))

unfoldable pub join_items : Db → List OrderItem → List JoinedRow
unfolding join_item
join_items db [] = []
join_items db (i ∷ is) = join_item db i ++ join_items db is

-- `ORDER BY oi.created_at,oi.id`
abbrev pub item_less : OrderItem → OrderItem → Bool
item_less i j = ltb i.created_at j.created_at || (i.created_at == j.created_at && ltb i.id j.id)

-- `containsString`
abbrev pub contains_string : List String → String → Bool
contains_string [] target = false
contains_string (v ∷ vs) target = text_eq v target || contains_string vs target

-- the details of a row, if it has a reservation on a level in a warehouse
abbrev pub detail_of : JoinedRow → Option AllocationDetail
detail_of row = elim row.reservation [
  | none ↦ none
  | some r ↦ elim row.warehouse_code [
    | none ↦ none
    | some code ↦ some (record {
      warehouse_code = code;
      inventory_level_id = r.inventory_level_id;
      reserved_quantity = r.quantity;
    })
  ]
]

abbrev pub with_detail : Option AllocationDetail → List AllocationDetail → List AllocationDetail
with_detail none ds = ds
with_detail (some d) ds = if d.inventory_level_id == 0 then ds else ds ++ d ∷ []

-- the loop over `order.Items`: the item's entry is extended, or made at the end
unfoldable pub add_to_item : JoinedRow → Option AllocationDetail → List ItemView → List ItemView
add_to_item row detail [] =
    record {
      item = row.item;
      reservation_id = elim row.reservation [ none ↦ none | some r ↦ some r.id ];
      reservation_status = elim row.reservation [ none ↦ none | some r ↦ some r.status ];
      allocations = with_detail detail [];
    }
    ∷ []
add_to_item row detail (v ∷ vs) =
    if (v.item).id == (row.item).id
    then record v { allocations = with_detail detail v.allocations } ∷ vs
    else v ∷ add_to_item row detail vs

abbrev pub with_warehouse : Option AllocationDetail → List String → List String
with_warehouse none used = used
with_warehouse (some d) used =
    if contains_string used d.warehouse_code
    then used
    else sort_by text_less (used ++ d.warehouse_code ∷ [])

-- `appendOrderItemReservation`
unfoldable pub append_row : OrderView → JoinedRow → OrderView
unfolding add_to_item sort_by
append_row view row =
    let detail = detail_of row in
    record view {
      items = add_to_item row detail view.items;
      allocations = with_detail detail view.allocations;
      warehouses_used = with_warehouse detail view.warehouses_used;
    }

unfoldable pub append_rows : OrderView → List JoinedRow → OrderView
unfolding append_row
append_rows view [] = view
append_rows view (row ∷ rows) = append_rows (append_row view row) rows

abbrev pub bare : Order → OrderView
bare o = record { order = o; items = []; allocations = []; warehouses_used = [] }

-- `loadOrderItems`
unfoldable pub load_order_items : Order → Db → OrderView
unfolding append_rows join_items sort_by
load_order_items o db = append_rows (bare o) (
    join_items db
      (sort_by item_less (select (is_order_item o.organization_id o.id) db.order_items)))

-- `getOrderTx`, and `Get`
unfoldable pub get_order : ℕ → ℕ → Tx OrderError OrderView
unfolding load_order_items
get_order organization id = do
  order ← (λ db. or_throw (find_order organization id db) not_found db)
  gets (load_order_items order)
