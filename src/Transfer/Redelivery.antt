-- ===== src/Transfer/Redelivery.antt =====
-- `Dispatch` and `Receive` repeated after they have succeeded.
use text.Mathlib.TextPositions.{eq_refl}
use mathlib.Core.Path.{subst}
use flowcart.Prelude.{ℕ, String, ◌≡◌, refl, sym, ap, ◌∙◌, true, List, arith, first, ℤ, ok}
use flowcart.Database.{Db, Clock, MovementType, TransferItem}
use flowcart.Transfer.Reading.{
  TransferView, ItemView, is_transfer, get_transfer, load_items, lock_inventory, transfer_item_ids,
}
use flowcart.Transfer.Shipping.{
  is_pending, is_in_transit, is_completed, is_open, marked, mark_in_transit, mark_completed,
  is_dispatched_with, dispatch, destination_ids, receive,
}
use flowcart.Transfer.Moving.{IsMoved, take_out-keeps, bring_in-keeps}
use flowcart.Transfer.Coverage.{check_stock-IsChecked}
use flowcart.Transfer.Outcomes.{IsShipped, IsCompleted}
use flowcart.Transfer.States.{shipped-transfers, completed-transfers}
use flowcart.Transfer.Replays.{get_transfer_logged}
use flowcart.Transfer.Rereading.{
  get_transfer-IsRead, load_items_same, KeepLevels, change_levels-KeepLevels, lock_inventory_kept,
  first-marked,
}

-- What a repeated request reads besides the transfer is still there.
pub record IsKept (o : ℕ) (db after : Db) : Type 0 where
  levels : KeepLevels o db.levels after.levels
  products : after.products ≡ db.products
  items : after.transfer_items ≡ db.transfer_items

moved-IsKept :
    (clock : Clock) (o user id warehouse : ℕ) (type : MovementType) (level : ℕ) (delta : ℤ)
    (item : TransferItem) (db mid after : Db)
    → IsKept o db mid
    → IsMoved clock o user id warehouse type level delta item mid after
    → IsKept o db after
moved-IsKept clock o user id warehouse type level delta item db mid after k m = record {
  levels = λ j missing.
      k.levels j (change_levels-KeepLevels o level delta mid.levels after.levels m.moves j missing);
  products = ap (λ x. x.products) m.rest ∙ k.products;
  items = ap (λ x. x.transfer_items) m.rest ∙ k.items;
}

-- The items that a request locks are the same when it is repeated, and can be locked again.
pub relock :
    (o id : ℕ) (ids : List ItemView → List ℕ) (db after : Db) (first_view view : TransferView)
    → IsKept o db after
    → get_transfer o id db ≡ ok (first_view, db)
    → get_transfer o id after ≡ ok (view, after)
    → lock_inventory o (ids first_view.items) db ≡ ok (tt, db)
    → lock_inventory o (ids view.items) after ≡ ok (tt, after)
relock o id ids db after first_view view k before now locked =
    let same : view.items ≡ first_view.items =
      (get_transfer-IsRead o id after after view now).items
      ∙ load_items_same o id after db k.products k.items
      ∙ sym (get_transfer-IsRead o id db db first_view before).items in
    subst (λ vs. lock_inventory o (ids vs) after ≡ ok (tt, after)) (sym same)
      (lock_inventory_kept o (ids first_view.items) db after k.levels locked)

module _ (clock : Clock) (o user id : ℕ) (key : String) (db after : Db) (view : TransferView) where
  pub dispatch_replay :
      get_transfer o id db ≡ ok (view, db)
      → lock_inventory o (transfer_item_ids view.items) db ≡ ok (tt, db)
      → is_dispatched_with key view.transfer ≡ true
      → dispatch clock o user id key db ≡ ok (view, db)
  unfolding dispatch
  dispatch_replay read locked done =
      let r = get_transfer-IsRead o id db db view read in
      let still : is_dispatched_with key (r.found).transfer ≡ true =
        ap (is_dispatched_with key) r.same ∙ done in
      ground (arith, read, locked, r.scan, still)

  pub receive_replay :
      get_transfer o id db ≡ ok (view, db)
      → lock_inventory o (destination_ids view.items) db ≡ ok (tt, db)
      → is_completed (view.transfer).status ≡ true
      → receive clock o user id key db ≡ ok (view, db)
  unfolding receive
  receive_replay read locked done =
      let r = get_transfer-IsRead o id db db view read in
      let still : is_completed (r.found).transfer.status ≡ true =
        ap (λ t. is_completed t.status) r.same ∙ done in
      ground (arith, read, locked, r.scan, still)

  module _ (s : IsShipped clock o user id key db view after) where
    pub shipped-read : get_transfer o id after ≡ ok (view, after)
    shipped-read =
        subst (λ d. get_transfer o id d ≡ ok (view, d)) (sym s.tables)
          (get_transfer_logged o id
            (marked (is_open is_pending o id) (mark_in_transit clock.now user key) s.taken)
            after.audit_events view s.read)

    pub shipped-IsKept : IsKept o db after
    shipped-IsKept =
        let c = check_stock-IsChecked clock o (load_items o id db) db s.checked s.check in
        let start : IsKept o db s.checked = record {
          levels = λ j missing. rw (ap (λ x. x.levels) c.tables) at missing;
          products = ap (λ x. x.products) c.tables;
          items = ap (λ x. x.transfer_items) c.tables;
        } in
        let kept =
          take_out-keeps clock o user id (s.transfer).source_warehouse_id (λ _ d. IsKept o db d)
            (λ v ws d e k m. moved-IsKept clock o user id _ _ _ _ _ db d e k m) (load_items o id db)
            s.checked s.taken start s.take in
        record {
          levels = λ j missing. kept.levels j (rw (ap (λ x. x.levels) s.tables) at missing);
          products = ap (λ x. x.products) s.tables ∙ kept.products;
          items = ap (λ x. x.transfer_items) s.tables ∙ kept.items;
        }

    pub shipped-is_dispatched : is_dispatched_with key view.transfer ≡ true
    shipped-is_dispatched =
        let r = get_transfer-IsRead o id after after view shipped-read in
        let row =
          ap (first (is_transfer o id)) (shipped-transfers clock o user id key db view after s)
          ∙ first-marked is_pending (mark_in_transit clock.now user key) o id db.transfers
              s.transfer (λ x. (refl, refl)) s.found s.was_pending in
        let same : view.transfer ≡ mark_in_transit clock.now user key s.transfer =
          ground (arith, r.row, row) in
        ap (is_dispatched_with key) same ∙ eq_refl key

  module _ (s : IsCompleted clock o user id key db view after) where
    pub completed-read : get_transfer o id after ≡ ok (view, after)
    completed-read =
        subst (λ d. get_transfer o id d ≡ ok (view, d)) (sym s.tables)
          (get_transfer_logged o id
            (marked (is_open is_in_transit o id) (mark_completed clock.now user key) s.brought)
            after.audit_events view s.read)

    pub completed-IsKept : IsKept o db after
    completed-IsKept =
        let start : IsKept o db db = record {
          levels = λ j missing. missing;
          products = refl;
          items = refl;
        } in
        let kept =
          bring_in-keeps clock o user id (s.transfer).destination_warehouse_id
            (λ _ d. IsKept o db d)
            (λ v ws d e k m. moved-IsKept clock o user id _ _ _ _ _ db d e k m) (load_items o id db)
            db s.brought start s.bring in
        record {
          levels = λ j missing. kept.levels j (rw (ap (λ x. x.levels) s.tables) at missing);
          products = ap (λ x. x.products) s.tables ∙ kept.products;
          items = ap (λ x. x.transfer_items) s.tables ∙ kept.items;
        }

    pub completed-is_completed : is_completed (view.transfer).status ≡ true
    completed-is_completed =
        let r = get_transfer-IsRead o id after after view completed-read in
        let row =
          ap (first (is_transfer o id)) (completed-transfers clock o user id key db view after s)
          ∙ first-marked is_in_transit (mark_completed clock.now user key) o id db.transfers
              s.transfer (λ x. (refl, refl)) s.found s.was_in_transit in
        let same : view.transfer ≡ mark_completed clock.now user key s.transfer =
          ground (arith, r.row, row) in
        ap (λ t. is_completed t.status) same
