-- ===== src/Fulfillment/Tests.antt =====
-- Runs of fulfillments, and the inputs of the witnesses.
use flowcart.Prelude.{if◌then◌else◌, ◌==◌, ◌≡◌, refl, List, [], ◌∷◌, arith, ok, err, ℕ, map}
use flowcart.Database.{Db, transact, InventoryLevel}
use flowcart.Database.Sales.{Order, OrderStatus}
use flowcart.Database.Samples.{
  shop, user, paid, clock, sample-UniqueLevels, sample-IsBalanced, opened,
}
use flowcart.Database.Stock.{reserved_on}
use flowcart.Database.Ledger.{IsBalanced}
use flowcart.Fulfillment.Model.{FulfillmentError, FulfillmentView}
use flowcart.Fulfillment.Completing.{new_fulfillment, complete}
use flowcart.Fulfillment.Conserving.{HasFree, complete-HasFree, complete-IsBalanced}
use flowcart.Fulfillment.Replays.{complete_again}

abbrev statuses : List Order → List OrderStatus
statuses os = map (λ o. o.status) os

abbrev stocks : List InventoryLevel → List ℕ
stocks ls = map (λ l. l.on_hand_quantity) ls

ships_part :
    statuses (transact (complete clock shop user 30 "f-1" "h" (32 ∷ [])) paid).1.orders
    ≡ OrderStatus.partially_fulfilled ∷ []
unfolding complete
ships_part = refl

ships_all :
    statuses (transact (complete clock shop user 30 "f-1" "h" (32 ∷ 33 ∷ [])) paid).1.orders
    ≡ OrderStatus.fulfilled ∷ []
unfolding complete
ships_all = refl

takes_four :
    stocks (transact (complete clock shop user 30 "f-1" "h" (32 ∷ 33 ∷ [])) paid).1.levels
    ≡ 6 ∷ 0 ∷ []
unfolding complete
takes_four = refl

refuses_unmanaged :
    (transact (complete clock shop user 30 "f-1" "h" (7 ∷ [])) paid).0
    ≡ err FulfillmentError.reservation_not_found
unfolding complete
refuses_unmanaged = refl

-- Of the level of the order, three are free: ten are there, and seven reserved.
abbrev free_of : ℕ → ℕ → ℕ
free_of organization id = if id == 5 then 3 else 0

paid-HasFree : HasFree free_of 200 paid
unfolding reserved_on
paid-HasFree = ground arith

complete-HasFree_example :
    HasFree free_of 200 (transact (complete clock shop user 30 "f-1" "h" (32 ∷ [])) paid).1
complete-HasFree_example =
    complete-HasFree clock shop user 30 "f-1" "h" (32 ∷ []) paid free_of 200 sample-UniqueLevels
      (ground arith) paid-HasFree

complete-IsBalanced_example :
    IsBalanced opened (transact (complete clock shop user 30 "f-1" "h" (32 ∷ 33 ∷ [])) paid).1
complete-IsBalanced_example =
    complete-IsBalanced clock shop user 30 "f-1" "h" (32 ∷ 33 ∷ []) paid opened sample-UniqueLevels
      sample-IsBalanced

abbrev shipped : Db
shipped = (transact (complete clock shop user 30 "f-1" "h" (32 ∷ [])) paid).1

abbrev shipped_view : FulfillmentView
shipped_view = record {
  fulfillment = new_fulfillment clock 40 shop 30 3 user "f-1" "h";
  warehouse_code = "A";
  warehouse_name = "A";
  items =
      record {
        id = 41;
        organization_id = shop;
        fulfillment_id = 40;
        order_id = 30;
        order_item_id = 31;
        reservation_id = 32;
        inventory_level_id = 5;
        warehouse_id = 3;
        quantity = 1;
      }
      ∷ [];
}

ships : complete clock shop user 30 "f-1" "h" (32 ∷ []) paid ≡ ok (shipped_view, shipped)
unfolding complete
ships = refl

complete_again_example :
    complete clock shop 11 30 "f-1" "h" (32 ∷ []) shipped ≡ ok (shipped_view, shipped)
complete_again_example =
    complete_again clock clock shop user 11 30 "f-1" "h" (32 ∷ []) paid shipped shipped_view refl
      ships
