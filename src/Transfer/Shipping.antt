-- ===== src/Transfer/Shipping.antt =====
-- `Dispatch`, `Receive` and `Cancel` of apps/api/internal/transfer/repository.go.
use text.Mathlib.Text.{◌==◌ as text_eq}
use flowcart.Prelude.{
  ℕ, zero, suc, String, Bool, true, false, not, ◌&&◌, ◌||◌, Option, none, some, List, [], ◌∷◌, ◌++◌,
  ◌==◌, first, update, ℤ, pos, negsuc, ◌-ℤ◌, ltb_ℤ,
}
use flowcart.Database.{
  Db, Clock, Tx, Transfer, TransferItem, TransferStatus, pending, in_transit, completed, cancelled,
  InventoryMovement, MovementType, adjustment, transfer_in, transfer_out, fulfillment, ◌>>=◌, ◌>>◌,
  pure, throw, gets, or_throw, modify, throw_if,
}
use flowcart.Database.Audit.{append_event}
use flowcart.Database.Stock.{
  find_level, find_product, find_warehouse, change_stock, expire_reservations, reserved_quantity,
  reserved_on,
}
use flowcart.Transfer.Reading.{
  TransferError, not_found, transfer_not_pending, transfer_not_in_transit,
  insufficient_transferable_stock, inactive_warehouse, inactive_product, database_error, ItemView,
  TransferView, is_transfer, scan_transfer, load_items, get_transfer, lock_inventory,
  transfer_item_ids,
}
use flowcart.Transfer.Creating.{transfer_event}

abbrev pub is_pending : TransferStatus → Bool
is_pending pending = true
is_pending _ = false

abbrev pub is_in_transit : TransferStatus → Bool
is_in_transit in_transit = true
is_in_transit _ = false

abbrev pub is_completed : TransferStatus → Bool
is_completed completed = true
is_completed _ = false

-- `COALESCE(…,'')`
abbrev pub or_empty : Option String → String
or_empty none = ""
or_empty (some key) = key

abbrev pub is_some : Option ℕ → Bool
is_some none = false
is_some (some n) = true

abbrev pub minus : ℕ → ℤ
minus zero = pos 0
minus (suc n) = negsuc n

-- the products of `validateDispatchState`
unfoldable pub check_products : ℕ → List ItemView → Tx TransferError (Unit {0})
check_products organization [] = pure tt
check_products organization (v ∷ vs) = do
  product ← (λ db. or_throw (find_product organization (v.item).product_id db) database_error db)
  throw_if (not product.is_active) inactive_product
  check_products organization vs

-- `validateDispatchState`
unfoldable pub validate_dispatch_state :
    ℕ → TransferView → List ItemView → Tx TransferError (Unit {0})
unfolding check_products
validate_dispatch_state organization view items = do
  source ← (λ db.
      or_throw (find_warehouse organization (view.transfer).source_warehouse_id db) database_error
        db)
  destination ← (λ db.
      or_throw (find_warehouse organization (view.transfer).destination_warehouse_id db)
        database_error db)
  throw_if (not source.is_active || not destination.is_active) inactive_warehouse
  check_products organization items

-- the loop of `Dispatch` that checks the stock of the sources
unfoldable pub check_stock : Clock → ℕ → List ItemView → Tx TransferError (Unit {0})
unfolding expire_reservations reserved_on ◌-ℤ◌
check_stock clock organization [] = pure tt
check_stock clock organization (v ∷ vs) = do
  modify (expire_reservations clock organization (v.item).source_inventory_level_id)
  level ← (λ db.
      or_throw (find_level organization (v.item).source_inventory_level_id db) database_error db)
  reserved ← gets (reserved_quantity clock organization (v.item).source_inventory_level_id)
  throw_if (ltb_ℤ (pos level.on_hand_quantity -ℤ pos reserved) (pos (v.item).quantity))
      insufficient_transferable_stock
  check_stock clock organization vs

abbrev pub same_type : MovementType → MovementType → Bool
same_type adjustment adjustment = true
same_type transfer_out transfer_out = true
same_type transfer_in transfer_in = true
same_type fulfillment fulfillment = true
same_type _ _ = false

-- the unique indexes on `(organization_id, transfer_item_id)`, one for each direction
abbrev pub is_move_of : ℕ → MovementType → ℕ → InventoryMovement → Bool
is_move_of organization type item m =
    m.organization_id == organization
    && same_type m.movement_type type
    && elim m.transfer_item_id [ none ↦ false | some i ↦ i == item ]

abbrev pub transfer_movement :
    Clock → ℕ → ℕ → ℕ → ℕ → MovementType → ℕ → ℤ → ℕ → TransferItem → InventoryMovement
transfer_movement clock organization user transfer warehouse type level delta id item = record {
  id = id;
  organization_id = organization;
  inventory_level_id = level;
  product_id = item.product_id;
  warehouse_id = warehouse;
  movement_type = type;
  quantity_delta = delta;
  transfer_id = some transfer;
  transfer_item_id = some item.id;
  fulfillment_id = none;
  reservation_id = none;
  created_by_user_id = some user;
  created_at = clock.now;
}

-- the two statements of the loops over the items: the stock of a level, and its movement
unfoldable pub move_stock :
    Clock → ℕ → ℕ → ℕ → ℕ → MovementType → ℕ → ℤ → TransferItem → Tx TransferError (Unit {0})
unfolding change_stock
move_stock clock organization user transfer warehouse type level delta item = do
  change_stock organization level delta database_error
  existing ← gets (λ db. first (is_move_of organization type item.id) db.movements)
  elim existing [ none ↦ pure tt | some _ ↦ throw database_error ]
  modify (λ db. record db {
    movements =
        db.movements
        ++ transfer_movement clock organization user transfer warehouse type level delta db.next_id
            item
          ∷ [];
    next_id = suc db.next_id;
  })

-- the loop of `Dispatch` that takes the items out of their sources
unfoldable pub take_out : Clock → ℕ → ℕ → ℕ → ℕ → List ItemView → Tx TransferError (Unit {0})
unfolding move_stock
take_out clock organization user transfer warehouse [] = pure tt
take_out clock organization user transfer warehouse (v ∷ vs) = do
  move_stock clock organization user transfer warehouse transfer_out
      (v.item).source_inventory_level_id (minus (v.item).quantity) v.item
  take_out clock organization user transfer warehouse vs

-- the loop of `Receive`
unfoldable pub bring_in : Clock → ℕ → ℕ → ℕ → ℕ → List ItemView → Tx TransferError (Unit {0})
unfolding move_stock
bring_in clock organization user transfer warehouse [] = pure tt
bring_in clock organization user transfer warehouse (v ∷ vs) = do
  move_stock clock organization user transfer warehouse transfer_in
      (v.item).destination_inventory_level_id (pos (v.item).quantity) v.item
  bring_in clock organization user transfer warehouse vs

abbrev pub marked : (Transfer → Bool) → (Transfer → Transfer) → Db → Db
marked p f db = record db { transfers = update p f db.transfers }

abbrev pub is_open : (TransferStatus → Bool) → ℕ → ℕ → Transfer → Bool
is_open at organization id t = is_transfer organization id t && at t.status

abbrev pub mark_in_transit : ℕ → ℕ → String → Transfer → Transfer
mark_in_transit now user key t = record t {
  status = in_transit;
  dispatched_by_user_id = some user;
  dispatched_at = some now;
  dispatch_idempotency_key = some key;
}

abbrev pub mark_completed : ℕ → ℕ → String → Transfer → Transfer
mark_completed now user key t = record t {
  status = completed;
  received_by_user_id = some user;
  completed_at = some now;
  receive_idempotency_key = some key;
}

abbrev pub mark_cancelled : ℕ → ℕ → Transfer → Transfer
mark_cancelled now user t = record t {
  status = cancelled;
  cancelled_by_user_id = some user;
  cancelled_at = some now;
}

-- `Dispatch`, once it has found that this is no replay
unfoldable pub dispatch_pending :
    Clock → ℕ → ℕ → ℕ → String → TransferView → Tx TransferError TransferView
unfolding load_items validate_dispatch_state check_stock take_out get_transfer append_event
dispatch_pending clock organization user id key view = do
  throw_if (not (is_pending (view.transfer).status)) transfer_not_pending
  throw_if
      (not (text_eq (or_empty (view.transfer).dispatch_idempotency_key) "")
        && not (text_eq (or_empty (view.transfer).dispatch_idempotency_key) key))
      transfer_not_pending
  items ← gets (load_items organization id)
  validate_dispatch_state organization view items
  check_stock clock organization items
  take_out clock organization user id (view.transfer).source_warehouse_id items
  modify (marked (is_open is_pending organization id) (mark_in_transit clock.now user key))
  shipped ← get_transfer organization id
  append_event database_error (transfer_event "transfer.dispatched" organization user id)
  pure shipped

abbrev pub is_dispatched_with : String → Transfer → Bool
is_dispatched_with key t =
    is_in_transit t.status
    && is_some t.dispatched_by_user_id
    && text_eq (or_empty t.dispatch_idempotency_key) key

-- `Dispatch`
unfoldable pub dispatch : Clock → ℕ → ℕ → ℕ → String → Tx TransferError TransferView
unfolding get_transfer lock_inventory transfer_item_ids scan_transfer dispatch_pending
dispatch clock organization user id key = do
  initial ← get_transfer organization id
  lock_inventory organization (transfer_item_ids initial.items)
  view ← scan_transfer database_error organization id
  elim (is_dispatched_with key view.transfer) [
    | true ↦ get_transfer organization id
    | false ↦ dispatch_pending clock organization user id key view
  ]

unfoldable pub destination_ids : List ItemView → List ℕ
destination_ids [] = []
destination_ids (v ∷ vs) = (v.item).destination_inventory_level_id ∷ destination_ids vs

-- `Receive`, once it has found that this is no replay
unfoldable pub receive_in_transit :
    Clock → ℕ → ℕ → ℕ → String → TransferView → Tx TransferError TransferView
unfolding load_items bring_in get_transfer append_event
receive_in_transit clock organization user id key view = do
  throw_if (not (is_in_transit (view.transfer).status)) transfer_not_in_transit
  items ← gets (load_items organization id)
  bring_in clock organization user id (view.transfer).destination_warehouse_id items
  modify (marked (is_open is_in_transit organization id) (mark_completed clock.now user key))
  received ← get_transfer organization id
  append_event database_error (transfer_event "transfer.received" organization user id)
  pure received

-- `Receive`
unfoldable pub receive : Clock → ℕ → ℕ → ℕ → String → Tx TransferError TransferView
unfolding get_transfer lock_inventory destination_ids scan_transfer receive_in_transit
receive clock organization user id key = do
  initial ← get_transfer organization id
  lock_inventory organization (destination_ids initial.items)
  view ← scan_transfer database_error organization id
  elim (is_completed (view.transfer).status) [
    | true ↦ get_transfer organization id
    | false ↦ receive_in_transit clock organization user id key view
  ]

-- `Cancel`
unfoldable pub cancel : Clock → ℕ → ℕ → ℕ → Tx TransferError TransferView
unfolding scan_transfer get_transfer append_event
cancel clock organization user id = do
  view ← scan_transfer not_found organization id
  throw_if (not (is_pending (view.transfer).status)) transfer_not_pending
  modify (marked (is_open is_pending organization id) (mark_cancelled clock.now user))
  append_event database_error (transfer_event "transfer.cancelled" organization user id)
  get_transfer organization id
