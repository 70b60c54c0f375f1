-- ===== src/Transfer/Conserving.antt =====
-- Transfers neither make nor lose stock, and their movements account for it.
use flowcart.Prelude.{ℕ, String, ◌≡◌, refl, ap, ◌∙◌, inl, inr, arith}
use flowcart.Database.{Db, Clock, transact, transact-keeps}
use flowcart.Database.Stock.Coverage.{UniqueLevels}
use flowcart.Database.Stock.Moves.{stock_of}
use flowcart.Database.Ledger.{IsBalanced}
use flowcart.Transfer.Reading.{TransferView, load_items}
use flowcart.Transfer.Shipping.{
  is_pending, is_in_transit, mark_in_transit, mark_completed, mark_cancelled, dispatch, receive,
  cancel,
}
use flowcart.Transfer.Amounts.{stock_and_carried, AreLinked, amount-load_items}
use flowcart.Transfer.Moving.{take_out-IsBalanced, bring_in-IsBalanced}
use flowcart.Transfer.Marking.{carried-mark}
use flowcart.Transfer.Coverage.{check_stock-IsChecked}
use flowcart.Transfer.Outcomes.{
  IsShipped, dispatch-cases, IsCompleted, receive-cases, IsCancelled, cancel-IsCancelled,
}
use flowcart.Transfer.Loops.{
  take_out-stock, bring_in-stock, items-IsAt_sources, items-IsAt_destinations,
}

shipped-conserves :
    (clock : Clock) (o user id : ℕ) (key : String) (db : Db) (view : TransferView) (after : Db)
    (q p : ℕ)
    → UniqueLevels db.levels
    → AreLinked db
    → IsShipped clock o user id key db view after
    → stock_and_carried q p after ≡ stock_and_carried q p db
shipped-conserves clock o user id key db view after q p unique linked s =
    let vs = load_items o id db in
    let t = s.transfer in
    let c = check_stock-IsChecked clock o vs db s.checked s.check in
    let (sum, (transfers, items)) =
      take_out-stock o q p clock user id t.source_warehouse_id vs s.checked s.taken
        (rw c.tables unique) (rw c.tables (items-IsAt_sources o id db linked)) s.take in
    let mark =
      carried-mark is_pending o id (mark_in_transit clock.now user key) (λ x. refl) (λ x. refl)
        db.transfers t s.found q p db.transfer_items s.was_pending in
    let loaded = amount-load_items q p db o id linked in
    rw
      (
        s.tables,
        transfers ∙ ap (λ d. d.transfers) c.tables,
        items ∙ ap (λ d. d.transfer_items) c.tables,
      )
      (ground (arith, sum, ap (λ d. stock_of q p d.levels) c.tables, mark, loaded, s.was_pending))

completed-conserves :
    (clock : Clock) (o user id : ℕ) (key : String) (db : Db) (view : TransferView) (after : Db)
    (q p : ℕ)
    → UniqueLevels db.levels
    → AreLinked db
    → IsCompleted clock o user id key db view after
    → stock_and_carried q p after ≡ stock_and_carried q p db
completed-conserves clock o user id key db view after q p unique linked s =
    let vs = load_items o id db in
    let t = s.transfer in
    let (sum, (transfers, items)) =
      bring_in-stock o q p clock user id t.destination_warehouse_id vs db s.brought unique
        (items-IsAt_destinations o id db linked) s.bring in
    let mark =
      carried-mark is_in_transit o id (mark_completed clock.now user key) (λ x. refl) (λ x. refl)
        db.transfers t s.found q p db.transfer_items s.was_in_transit in
    let loaded = amount-load_items q p db o id linked in
    rw (s.tables, transfers, items) (ground (arith, sum, mark, loaded, s.was_in_transit))

cancelled-conserves :
    (clock : Clock) (o user id : ℕ) (key : String) (db : Db) (view : TransferView) (after : Db)
    (q p : ℕ)
    → IsCancelled clock o user id key db view after
    → stock_and_carried q p after ≡ stock_and_carried q p db
cancelled-conserves clock o user id key db view after q p s =
    let mark =
      carried-mark is_pending o id (mark_cancelled clock.now user) (λ x. refl) (λ x. refl)
        db.transfers s.transfer s.found q p db.transfer_items s.was_pending in
    rw s.tables (ground (arith, mark, s.was_pending))

-- A dispatch, a receipt and a cancellation each leave as much of every product of every
-- organization as there was, on hand and on the road together, committed or not.
pub transfer-conserves :
    (clock : Clock) (o user id : ℕ) (key : String) (db : Db) (q p : ℕ)
    → UniqueLevels db.levels
    → AreLinked db
    → let total = λ (d : Db). stock_and_carried q p d in
      (total (transact (dispatch clock o user id key) db).1 ≡ total db)
      × (total (transact (receive clock o user id key) db).1 ≡ total db)
      × (total (transact (cancel clock o user id) db).1 ≡ total db)
transfer-conserves clock o user id key db q p unique linked =
    let Same = λ (d : Db). stock_and_carried q p d ≡ stock_and_carried q p db in
    (
      transact-keeps Same (dispatch clock o user id key) db refl (λ view after h.
          elim (dispatch-cases clock o user id key db view after h) [
            | inl (same, read) ↦ rw same refl
            | inr s ↦ shipped-conserves clock o user id key db view after q p unique linked s
          ]),
      transact-keeps Same (receive clock o user id key) db refl (λ view after h.
          elim (receive-cases clock o user id key db view after h) [
            | inl (same, read) ↦ rw same refl
            | inr s ↦ completed-conserves clock o user id key db view after q p unique linked s
          ]),
      transact-keeps Same (cancel clock o user id) db refl (λ view after h.
          cancelled-conserves clock o user id key db view after q p
            (cancel-IsCancelled clock o user id key db view after h)),
    )

-- The movements that a dispatch, a receipt and a cancellation record account for every change of
-- stock that they make.
pub transfer-IsBalanced :
    (clock : Clock) (o user id : ℕ) (key : String) (db : Db) (opening : ℕ → ℕ → ℕ)
    → UniqueLevels db.levels
    → IsBalanced opening db
    → IsBalanced opening (transact (dispatch clock o user id key) db).1
      × IsBalanced opening (transact (receive clock o user id key) db).1
      × IsBalanced opening (transact (cancel clock o user id) db).1
transfer-IsBalanced clock o user id key db opening unique balanced = (
  transact-keeps (IsBalanced opening) (dispatch clock o user id key) db balanced (λ view after h.
      elim (dispatch-cases clock o user id key db view after h) [
        | inl (same, read) ↦ rw same balanced
        | inr s ↦
            let vs = load_items o id db in
            let c = check_stock-IsChecked clock o vs db s.checked s.check in
            rw s.tables (
              take_out-IsBalanced clock o user id (s.transfer).source_warehouse_id opening vs
                s.checked s.taken (rw c.tables unique) (rw c.tables balanced) s.take)
      ]),
  transact-keeps (IsBalanced opening) (receive clock o user id key) db balanced (λ view after h.
      elim (receive-cases clock o user id key db view after h) [
        | inl (same, read) ↦ rw same balanced
        | inr s ↦ rw s.tables (
            bring_in-IsBalanced clock o user id (s.transfer).destination_warehouse_id opening
              (load_items o id db) db s.brought unique balanced s.bring)
      ]),
  transact-keeps (IsBalanced opening) (cancel clock o user id) db balanced
      (λ view after h. rw (cancel-IsCancelled clock o user id key db view after h).tables balanced),
)
