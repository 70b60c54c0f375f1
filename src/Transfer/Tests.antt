-- ===== src/Transfer/Tests.antt =====
-- Runs of the transactions on transfers, and the witnesses.
use flowcart.Prelude.{
  List, true, false, ◌↔◌, All, Apart, sort_by, trim_space, ◌≡◌, refl, err, arith, pos, ok, ◌∷◌, [],
}
use flowcart.Database.{Clock, Transfer, TransferItem, Db, transact}
use flowcart.Database.Samples.{
  shipment, shipped_item, shop, user, mug, level, sample, clock, sample-UniqueLevels,
  sample-IsCovered, opened, sample-IsBalanced,
}
use flowcart.Database.Stock.Coverage.{IsCovered}
use flowcart.Database.Stock.Moves.{stock_of}
use flowcart.Database.Ledger.{IsBalanced}
use flowcart.Transfer.Reading.{TransferError, TransferView}
use flowcart.Transfer.Shipping.{mark_in_transit, mark_completed, dispatch, receive, cancel}
use flowcart.Transfer.Sources.{HaveSources}
use flowcart.Transfer.Amounts.{stock_and_carried, AreLinked, carried}
use flowcart.Transfer.Coverage.{dispatch-IsCovered}
use flowcart.Transfer.States.{Evolves, AreStamped, transfer-Evolves, transfer-AreStamped}
use flowcart.Transfer.Replays.{create_again}
use flowcart.Transfer.Repeats.{dispatch_again, receive_again}
use flowcart.Transfer.Creating.{
  TransferItemInput, CreateInput, new_transfer, transfer_event, create,
}
use flowcart.Transfer.Service.{check_items, product_less}
use flowcart.Transfer.Checks.{Asks, OtherProduct, check_items_iff}
use flowcart.Transfer.Conserving.{transfer-conserves, transfer-IsBalanced}

abbrev dispatched : Db
dispatched = (transact (dispatch clock shop user 9 "d-1") sample).1

abbrev received : Db
received = (transact (receive clock shop user 9 "r-1") dispatched).1

dispatches : stock_of shop 2 dispatched.levels ≡ 6
unfolding dispatch
dispatches = refl

carries : carried shop 2 dispatched.transfers dispatched.transfer_items ≡ 4
unfolding dispatch carried
carries = refl

receives : stock_of shop 2 received.levels ≡ 10
unfolding dispatch receive
receives = refl

-- What is on the road cannot be cancelled.
cancels_no_shipped :
    (transact (cancel clock shop user 9) dispatched).0 ≡ err TransferError.transfer_not_pending
unfolding dispatch cancel
cancels_no_shipped = refl

sample-HaveSources : HaveSources sample
sample-HaveSources = (tt, tt)

sample-AreLinked : AreLinked sample
sample-AreLinked = (
  record {
    product = mug;
    has_product = refl;
    source = level 5 3 10;
    has_source = refl;
    source_product = refl;
    destination = level 6 4 0;
    has_destination = refl;
    destination_product = refl;
  },
  tt,
)

dispatch-IsCovered_example : IsCovered 101 (transact (dispatch clock shop user 9 "d-1") sample).1
dispatch-IsCovered_example =
    dispatch-IsCovered clock shop user 9 "d-1" sample 101 (λ i. omega arith) sample-UniqueLevels
      sample-HaveSources (sample-IsCovered 101)

transfer-conserves_example :
    let total = λ (d : Db). stock_and_carried shop 2 d in
    (total (transact (dispatch clock shop user 9 "d-1") sample).1 ≡ total sample)
    × (total (transact (receive clock shop user 9 "d-1") sample).1 ≡ total sample)
    × (total (transact (cancel clock shop user 9) sample).1 ≡ total sample)
transfer-conserves_example =
    transfer-conserves clock shop user 9 "d-1" sample shop 2 sample-UniqueLevels sample-AreLinked

transfer-IsBalanced_example :
    IsBalanced opened (transact (dispatch clock shop user 9 "d-1") sample).1
    × IsBalanced opened (transact (receive clock shop user 9 "d-1") sample).1
    × IsBalanced opened (transact (cancel clock shop user 9) sample).1
transfer-IsBalanced_example =
    transfer-IsBalanced clock shop user 9 "d-1" sample opened sample-UniqueLevels sample-IsBalanced

transfer-Evolves_example :
    Evolves shop 9 sample.transfers (transact (dispatch clock shop user 9 "d-1") sample).1.transfers
    × Evolves shop 9 sample.transfers
        (transact (receive clock shop user 9 "d-1") sample).1.transfers
    × Evolves shop 9 sample.transfers (transact (cancel clock shop user 9) sample).1.transfers
transfer-Evolves_example = transfer-Evolves clock shop user 9 "d-1" sample

transfer-AreStamped_example :
    AreStamped (transact (dispatch clock shop user 9 "d-1") sample).1.transfers
    × AreStamped (transact (receive clock shop user 9 "d-1") sample).1.transfers
    × AreStamped (transact (cancel clock shop user 9) sample).1.transfers
transfer-AreStamped_example = transfer-AreStamped clock shop user 9 "d-1" sample (refl, tt)

abbrev requested : CreateInput
requested = record {
  source_warehouse_id = 3;
  destination_warehouse_id = 4;
  items = record { product_id = 2; quantity = pos 2 } ∷ [];
}

abbrev new_item : TransferItem
new_item = record {
  id = 21;
  organization_id = shop;
  transfer_id = 20;
  product_id = 2;
  source_inventory_level_id = 5;
  destination_inventory_level_id = 6;
  quantity = 2;
}

abbrev with_new : Db
with_new = record sample {
  transfers = shipment ∷ new_transfer 20 shop user "k-1" "h-1" requested ∷ [];
  transfer_items = shipped_item ∷ new_item ∷ [];
  audit_events = transfer_event "transfer.created" shop user 20 ∷ [];
  next_id = 22;
}

abbrev new_view : TransferView
new_view = record {
  transfer = new_transfer 20 shop user "k-1" "h-1" requested;
  source_warehouse_code = "A";
  destination_warehouse_code = "B";
  items = record { item = new_item; product_sku = "MUG"; product_name = "Mug" } ∷ [];
}

creates : create shop user "k-1" "h-1" requested sample ≡ ok (new_view, with_new)
unfolding create
creates = refl

create_again_example : create shop 11 "k-1" "h-1" requested with_new ≡ ok (new_view, with_new)
create_again_example =
    create_again shop user 11 "k-1" "h-1" requested sample with_new new_view creates

abbrev view_of : Transfer → TransferView
view_of t = record {
  transfer = t;
  source_warehouse_code = "A";
  destination_warehouse_code = "B";
  items = record { item = shipped_item; product_sku = "MUG"; product_name = "Mug" } ∷ [];
}

abbrev shipped : Transfer
shipped = mark_in_transit 100 user "d-1" shipment

abbrev next_day : Clock
next_day = record { now = 500; statement = λ _. 501; reading = 502 }

dispatches_once : dispatch clock shop user 9 "d-1" sample ≡ ok (view_of shipped, dispatched)
unfolding dispatch
dispatches_once = refl

dispatch_again_example :
    dispatch next_day shop 11 9 "d-1" dispatched ≡ ok (view_of shipped, dispatched)
dispatch_again_example =
    dispatch_again clock next_day shop user 11 9 "d-1" sample dispatched (view_of shipped)
      dispatches_once

receives_once :
    receive clock shop user 9 "r-1" dispatched
    ≡ ok (view_of (mark_completed 100 user "r-1" shipped), received)
unfolding dispatch receive
receives_once = refl

receive_again_example :
    receive next_day shop 11 9 "r-2" received
    ≡ ok (view_of (mark_completed 100 user "r-1" shipped), received)
receive_again_example =
    receive_again clock next_day shop user 11 9 "r-1" "r-2" dispatched received
      (view_of (mark_completed 100 user "r-1" shipped)) receives_once

abbrev two_items : List TransferItemInput
two_items =
    record { product_id = 4; quantity = pos 2 } ∷ record { product_id = 2; quantity = pos 3 } ∷ []

check_items_iff_example :
    (check_items (sort_by product_less two_items) ≡ true)
    ↔ (All Asks two_items × Apart OtherProduct two_items)
check_items_iff_example = check_items_iff two_items

-- The key is trimmed, and a request with a product that is named twice is refused.
trims_key : trim_space " k 1\t" ≡ "k 1"
unfolding trim_space
trims_key = refl

names_product_twice :
    check_items (sort_by product_less (record { product_id = 2; quantity = pos 1 } ∷ two_items))
    ≡ false
unfolding check_items sort_by
names_product_twice = refl
