-- ===== src/Inventory/Tests.antt =====
-- Runs of the transactions on levels and reservations, and the witnesses.
use mathlib.Core.Option
use flowcart.Inventory.Service as Service
use flowcart.Organization.Role.{TenantContext}
use flowcart.Database.{Role, owner, Db, Reservation, transact, payment_held, committed, released}
use flowcart.Inventory.Repository.{
  database_error, InventoryError, insufficient_stock, stock_below_reserved, LevelView, reserve,
  release, find_reservation, new_reservation,
}
use flowcart.Inventory.Guards.{service_checks}
use flowcart.Inventory.Recommend.{
  DonorCandidate, LowStockItem, replenishment_donor_limit, candidates_of, recommend,
}
use flowcart.Inventory.Replenishing.{supply, units, Draws, recommend_complete}
use flowcart.Prelude.{
  ◌≢◌, String, List, false, take, length, ◌+ℤ◌, ◌-ℤ◌, ℕ, ◌+◌, ◌≡◌, ◌↔◌, ◌⊎◌, ◌≤◌, ◌<◌, refl, some,
  [], ◌∷◌, pos, negsuc, max_int64, ok, err, arith,
}
use flowcart.Database.Samples.{
  shop, user, mug, warehouse, level, held, sample, clock, sample-UniqueLevels, sample-IsCovered,
  opened, sample-IsBalanced,
}
use flowcart.Database.Stock.{reserved_on, reserved_quantity, expire_reservations}
use flowcart.Database.Stock.Coverage.{IsCovered}
use flowcart.Database.Ledger.{IsBalanced}
use flowcart.Inventory.Adjust.{adjust, policy_event, update_replenishment_policy}
use flowcart.Inventory.Outcomes.{given_back, release-answers}
use flowcart.Inventory.Reserving.{reserve-IsCovered, reserve_iff}
use flowcart.Inventory.Releasing.{release_frees}
use flowcart.Inventory.Adjusting.{adjust-IsCovered, adjust-IsBalanced}
use flowcart.Inventory.Refusals.{adjust_refuses}
use flowcart.Inventory.Policy.{policy_recorded_once}

-- Seven of the ten units are free.
reserves_seven :
    (transact (reserve clock shop 5 (pos 7)) sample).0 ≡ ok (new_reservation clock 20 shop 5 7)
unfolding reserve
reserves_seven = refl

reserves_no_eight :
    (transact (reserve clock shop 5 (pos 8)) sample).0
    ≡ err InventoryError.insufficient_available_stock
unfolding reserve
reserves_no_eight = refl

-- At most seven of them can go, too.
adjusts_no_eight :
    (transact (adjust clock shop user 5 (negsuc 7)) sample).0
    ≡ err InventoryError.stock_below_reserved
unfolding adjust
adjusts_no_eight = refl

few_reserved : reserved_quantity clock shop 5 (expire_reservations clock shop 5 sample) ≤ max_int64
unfolding reserved_on expire_reservations
few_reserved = omega arith

reserve-IsCovered_example : IsCovered 101 (transact (reserve clock shop 5 (pos 7)) sample).1
reserve-IsCovered_example =
    reserve-IsCovered clock shop 5 (pos 7) sample 101 (omega arith) sample-UniqueLevels
      (sample-IsCovered 101)

reserve_iff_example :
    ((transact (reserve clock shop 5 (pos 7)) sample).0 ≡ ok (new_reservation clock 20 shop 5 7))
    ↔ (reserved_quantity clock shop 5 (expire_reservations clock shop 5 sample) + 7 ≤ 10)
reserve_iff_example =
    reserve_iff clock shop 5 (pos 7) sample (level 5 3 10) mug (warehouse 3 "A") refl refl refl refl
      refl (omega arith)

release_frees_example :
    let (result, after) = transact (release clock shop 7) sample in
    (result ≡ ok (record held { status = released; released_at = some 100 }))
    × (reserved_on 101 shop 5 after.reservations + 3 ≡ reserved_on 101 shop 5 sample.reservations)
release_frees_example =
    release_frees clock shop 7 sample held (level 5 3 10) 101 (ground arith) refl refl refl
      (omega arith) (omega arith) (omega arith)

adjust-IsCovered_example : IsCovered 101 (transact (adjust clock shop user 5 (negsuc 6)) sample).1
adjust-IsCovered_example =
    adjust-IsCovered clock shop user 5 (negsuc 6) sample 101 (omega arith) sample-UniqueLevels
      (sample-IsCovered 101)

adjust-IsBalanced_example :
    IsBalanced opened (transact (adjust clock shop user 5 (negsuc 6)) sample).1
adjust-IsBalanced_example =
    adjust-IsBalanced clock shop user 5 (negsuc 6) sample opened sample-UniqueLevels
      sample-IsBalanced

adjust_refuses_example :
    let result = (transact (adjust clock shop user 5 (negsuc 7)) sample).0 in
    let reserved = reserved_quantity clock shop 5 (expire_reservations clock shop 5 sample) in
    ((result ≡ err insufficient_stock) ↔ (10 + 0 < 8))
    × ((result ≡ err stock_below_reserved)
        ↔ ((8 ≤ 10 + 0) × ((10 + 0 < reserved + 8) ⊎ (max_int64 + 8 < 10 + 0))))
adjust_refuses_example =
    adjust_refuses clock shop user 5 (negsuc 7) sample (level 5 3 10) refl (omega arith)
      (ground arith) few_reserved

abbrev policy_view : ℕ → ℕ → LevelView
policy_view reorder_point target = record {
  level = record (level 5 3 10) {
    reorder_point = some reorder_point;
    target_stock_level = some target;
  };
  product_sku = "MUG";
  product_name = "Mug";
  warehouse_code = "A";
  reserved_quantity = 3;
  available_quantity = 7;
}

abbrev with_policy : ℕ → ℕ → Db → Db
with_policy reorder_point target db = record db {
  levels =
      record (level 5 3 10) { reorder_point = some reorder_point; target_stock_level = some target }
      ∷ level 6 4 0
      ∷ [];
  audit_events = policy_event shop 5 ∷ [];
}

first_policy :
    update_replenishment_policy clock shop 5 (some (pos 2)) (some (pos 6)) sample
    ≡ ok (policy_view 2 6, with_policy 2 6 sample)
unfolding update_replenishment_policy
first_policy = refl

second_policy :
    update_replenishment_policy clock shop 5 (some (pos 1)) (some (pos 9)) (with_policy 2 6 sample)
    ≡ ok (policy_view 1 9, with_policy 1 9 sample)
unfolding update_replenishment_policy
second_policy = refl

policy_recorded_once_example :
    (with_policy 1 9 sample).audit_events ≡ (with_policy 2 6 sample).audit_events
policy_recorded_once_example =
    policy_recorded_once clock clock shop 5 (some (pos 2)) (some (pos 6)) (some (pos 1))
      (some (pos 9)) sample (policy_view 2 6) (policy_view 1 9) (with_policy 2 6 sample)
      (with_policy 1 9 sample) first_policy second_policy

abbrev tenant_of : Role → TenantContext
tenant_of role = record { organization_id = shop; user_id = user; role = role }

abbrev gave_back : Db
gave_back = (transact (release clock shop 7) sample).1

gives_back :
    release clock shop 7 sample
    ≡ ok (record held { status = released; released_at = some 100 }, gave_back)
unfolding release
gives_back = refl

release-answers_example :
    (before : Reservation) × (find_reservation shop 7 sample ≡ some before)
    × (before.status ≢ payment_held)
    × (before.status ≢ committed)
    × (record held { status = released; released_at = some 100 } ≡ given_back 100 before)
    × (find_reservation shop 7 gave_back
        ≡ some (record held { status = released; released_at = some 100 }))
    × (gave_back ≡ record sample { reservations = gave_back.reservations })
release-answers_example =
    release-answers clock shop 7 sample gave_back
      (record held { status = released; released_at = some 100 }) gives_back

service_checks_example :
    ((transact (Service.create clock (tenant_of owner) 2 3 (negsuc 4)) sample).0
      ≢ err database_error)
    × ((transact (Service.reserve clock (tenant_of owner) 2 (negsuc 4)) sample).0
        ≢ err database_error)
service_checks_example = service_checks clock (tenant_of owner) 2 3 (negsuc 4) sample

abbrev low_item : LowStockItem
low_item = record {
  id = 5;
  warehouse_id = 3;
  available_quantity = pos 2;
  target_stock_level = some (pos 12);
  recommended_quantity = pos 0;
  unfulfilled_quantity = pos 0;
  donors_truncated = false;
  donor_allocations = [];
}

abbrev donor : ℕ → String → ℕ → DonorCandidate
donor warehouse code available = record {
  target_id = 5;
  warehouse_id = warehouse;
  warehouse_code = code;
  inventory_level_id = 100 + warehouse;
  effective_available = pos available;
}

abbrev donors : List DonorCandidate
donors = donor 4 "B" 3 ∷ donor 6 "C" 5 ∷ donor 3 "A" 9 ∷ []

-- The greater donor comes first, and the item's own warehouse is none.
recommends :
    Option.map (λ (i : LowStockItem). units i.donor_allocations) (recommend donors low_item)
    ≡ some 8
unfolding recommend
recommends = refl

twelve_less_two : pos 12 -ℤ pos 2 ≡ pos 10
unfolding ◌-ℤ◌
twelve_less_two = refl

recommend_complete_example :
    (after : LowStockItem) × (recommend donors low_item ≡ some after)
    × Draws (take replenishment_donor_limit (candidates_of low_item donors)) after.donor_allocations
    × (length after.donor_allocations ≤ replenishment_donor_limit)
    × (after.recommended_quantity ≡ pos (units after.donor_allocations))
    × (after.unfulfilled_quantity +ℤ after.recommended_quantity ≡ pos 10)
    × ((after.unfulfilled_quantity ≡ pos 0)
        ⊎ (units after.donor_allocations
            ≡ supply (take replenishment_donor_limit (candidates_of low_item donors))))
recommend_complete_example =
    recommend_complete donors low_item (pos 12) 10 refl refl refl twelve_less_two (omega arith)
      (omega arith)
