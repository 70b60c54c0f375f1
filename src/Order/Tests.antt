-- ===== src/Order/Tests.antt =====
-- Runs of orders, and the inputs of the witnesses.
use flowcart.Prelude.{◌≡◌, refl, some, none, List, [], ◌∷◌, pos, ok, err, ℕ, map, arith}
use flowcart.Database.{Db, transact, Reservation, active, released}
use flowcart.Database.Samples.{shop, user, sample, clock, sample-UniqueLevels, sample-IsCovered}
use flowcart.Database.Sales.{Order, OrderItem, AllocationMethod}
use flowcart.Database.Stock.Coverage.{IsCovered}
use flowcart.Order.Placing.{new_order, priced}
use flowcart.Order.Reserving.{create-IsCovered}
use flowcart.Order.Itemized.{IsPriced, create-IsPriced}
use flowcart.Order.Replays.{order_again}
use flowcart.Order.Closing.{Outcome, cancel-Outcome}
use flowcart.Order.Model.{OrderError, CreateInput, AutoCreateInput, AllocationDetail, OrderView}
use flowcart.Order.Creating.{create}
use flowcart.Order.Automatic.{auto_create}
use flowcart.Order.Cancelling.{cancel_order, cancel}

abbrev two_mugs : CreateInput
two_mugs = record { items = record { inventory_level_id = 5; quantity = pos 2 } ∷ [] }

abbrev ordered : Db
ordered = (transact (create clock shop user "o-1" "h" two_mugs) sample).1

abbrev quantities : List Reservation → List ℕ
quantities rs = map (λ r. r.quantity) rs

orders_two : quantities ordered.reservations ≡ 3 ∷ 2 ∷ []
unfolding create
orders_two = refl

totals_two : map (λ o. o.subtotal_minor) ordered.orders ≡ some 1000 ∷ []
unfolding create
totals_two = refl

-- Ten are on hand and three are reserved.
abbrev eight_mugs : CreateInput
eight_mugs = record { items = record { inventory_level_id = 5; quantity = pos 8 } ∷ [] }

orders_no_eight :
    (transact (create clock shop user "o-1" "h" eight_mugs) sample).0
    ≡ err OrderError.insufficient_available_stock
unfolding create
orders_no_eight = refl

abbrev four_mugs : AutoCreateInput
four_mugs = record { items = record { product_id = 2; quantity = pos 4 } ∷ [] }

auto_orders_four :
    quantities (transact (auto_create clock shop user "o-1" "h" four_mugs) sample).1.reservations
    ≡ 3 ∷ 4 ∷ []
unfolding auto_create
auto_orders_four = refl

cancels_two :
    map (λ r. r.status) (transact (cancel clock shop 20) ordered).1.reservations
    ≡ active ∷ released ∷ []
unfolding create cancel
cancels_two = refl

create-IsCovered_example :
    IsCovered 200 (transact (create clock shop user "o-1" "h" two_mugs) sample).1
create-IsCovered_example =
    create-IsCovered clock shop user two_mugs 200 (λ l. omega arith) "o-1" "h" sample
      sample-UniqueLevels (sample-IsCovered 200)

-- the order as it is read
abbrev two_item : OrderItem
two_item = record {
  id = 21;
  organization_id = shop;
  order_id = 20;
  product_id = 2;
  sku_snapshot = "MUG";
  product_name_snapshot = "Mug";
  quantity = 2;
  unit_price_minor_snapshot = some 500;
  currency_code_snapshot = some "AUD";
  line_total_minor = some 1000;
  created_at = 100;
}

abbrev two_detail : AllocationDetail
two_detail = record { warehouse_code = "A"; inventory_level_id = 5; reserved_quantity = 2 }

abbrev two_order : Order
two_order = priced "AUD" 1000 (new_order clock 20 shop user "o-1" "h" AllocationMethod.manual none)

abbrev two_view : OrderView
two_view = record {
  order = two_order;
  items =
      record {
        item = two_item;
        reservation_id = some 22;
        reservation_status = some active;
        allocations = two_detail ∷ [];
      }
      ∷ [];
  allocations = two_detail ∷ [];
  warehouses_used = "A" ∷ [];
}

creates_two : create clock shop user "o-1" "h" two_mugs sample ≡ ok (two_view, ordered)
unfolding create
creates_two = refl

create-IsPriced_example : IsPriced shop 20 sample ordered
create-IsPriced_example =
    create-IsPriced clock shop user "o-1" "h" two_mugs sample ordered two_view refl refl creates_two

order_again_example : create clock shop 11 "o-1" "h" two_mugs ordered ≡ ok (two_view, ordered)
order_again_example =
    order_again clock clock shop user 11 "o-1" "h" two_mugs sample ordered two_view creates_two

abbrev cancelled_two : Db
cancelled_two = (transact (cancel clock shop 20) ordered).1

abbrev cancelled_view : OrderView
cancelled_view = record two_view {
  order = cancel_order 100 two_order;
  items =
      record {
        item = two_item;
        reservation_id = some 22;
        reservation_status = some released;
        allocations = two_detail ∷ [];
      }
      ∷ [];
}

cancels : cancel clock shop 20 ordered ≡ ok (cancelled_view, cancelled_two)
unfolding create cancel
cancels = refl

cancel-Outcome_example : Outcome clock shop 20 ordered cancelled_two
cancel-Outcome_example = cancel-Outcome clock shop 20 ordered cancelled_view cancelled_two cancels
