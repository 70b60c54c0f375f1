-- ===== src/Transfer/States.antt =====
-- The state machine of a transfer.
use flowcart.Prelude.{
  ℕ, String, ◌≡◌, refl, ap, ◌∙◌, inl, inr, ◌⊎◌, Bool, true, not, ◌&&◌, List, [], ◌∷◌, arith, update,
  All, All-update, Pairs, Pairs-update,
}
use flowcart.Database.{
  Db, Clock, Transfer, TransferStatus, pending, in_transit, completed, cancelled, transact,
  transact-keeps,
}
use flowcart.Transfer.Reading.{is_transfer, TransferView, load_items}
use flowcart.Transfer.Shipping.{
  is_some, is_pending, is_in_transit, is_open, mark_in_transit, mark_completed, mark_cancelled,
  dispatch, receive, cancel,
}
use flowcart.Transfer.Moving.{take_out-keeps, bring_in-keeps}
use flowcart.Transfer.Coverage.{check_stock-IsChecked}
use flowcart.Transfer.Outcomes.{
  IsShipped, dispatch-cases, IsCompleted, receive-cases, cancel-IsCancelled,
}

-- The steps that a transfer can take.
pub data Step : TransferStatus → TransferStatus → Type 0 where
  ship : Step pending in_transit
  arrive : Step in_transit completed
  call_off : Step pending cancelled

-- `inventory_transfers_timestamps_chk`
abbrev pub is_stamped : Transfer → Bool
is_stamped t = elim t.status [
  | pending ↦
      not (is_some t.dispatched_at) && not (is_some t.completed_at) && not (is_some t.cancelled_at)
  | in_transit ↦
      is_some t.dispatched_at && not (is_some t.completed_at) && not (is_some t.cancelled_at)
  | completed ↦ is_some t.dispatched_at && is_some t.completed_at && not (is_some t.cancelled_at)
  | cancelled ↦
      not (is_some t.dispatched_at) && not (is_some t.completed_at) && is_some t.cancelled_at
]

abbrev pub AreStamped : List Transfer → Type 0
AreStamped = All (λ t. is_stamped t ≡ true)

-- The step of the transfer with a key. It keeps the key, the warehouses and who created it.
pub record IsStep (o id : ℕ) (a b : Transfer) : Type 0 where
  pub here : is_transfer o id a ≡ true
  pub step : Step a.status b.status
  pub same_organization : b.organization_id ≡ a.organization_id
  pub same_id : b.id ≡ a.id
  pub same_source : b.source_warehouse_id ≡ a.source_warehouse_id
  pub same_destination : b.destination_warehouse_id ≡ a.destination_warehouse_id
  pub same_creator : b.created_by_user_id ≡ a.created_by_user_id

-- Every other row stays as it is.
abbrev pub Evolves : ℕ → ℕ → List Transfer → List Transfer → Type 0
Evolves o id = Pairs (λ a b. (b ≡ a) ⊎ IsStep o id a b)

is_pending_eq : (s : TransferStatus) → is_pending s ≡ true → s ≡ pending
is_pending_eq pending e = refl
is_pending_eq in_transit e = cc
is_pending_eq completed e = cc
is_pending_eq cancelled e = cc

is_in_transit_eq : (s : TransferStatus) → is_in_transit s ≡ true → s ≡ in_transit
is_in_transit_eq pending e = cc
is_in_transit_eq in_transit e = refl
is_in_transit_eq completed e = cc
is_in_transit_eq cancelled e = cc

module _ (clock : Clock) (o user id : ℕ) (key : String) (db : Db) where
  pub shipped-transfers :
      (view : TransferView) (after : Db)
      → IsShipped clock o user id key db view after
      → after.transfers
        ≡ update (is_open is_pending o id) (mark_in_transit clock.now user key) db.transfers
  shipped-transfers view after s =
      let vs = load_items o id db in
      let c = check_stock-IsChecked clock o vs db s.checked s.check in
      let same =
        take_out-keeps clock o user id (s.transfer).source_warehouse_id
          (λ ws d. d.transfers ≡ db.transfers) (λ v ws d e p m. ap (λ x. x.transfers) m.rest ∙ p) vs
          s.checked s.taken (ap (λ x. x.transfers) c.tables) s.take in
      ap (λ x. x.transfers) s.tables
      ∙ ap (update (is_open is_pending o id) (mark_in_transit clock.now user key)) same

  pub completed-transfers :
      (view : TransferView) (after : Db)
      → IsCompleted clock o user id key db view after
      → after.transfers
        ≡ update (is_open is_in_transit o id) (mark_completed clock.now user key) db.transfers
  completed-transfers view after s =
      let same =
        bring_in-keeps clock o user id (s.transfer).destination_warehouse_id
          (λ ws d. d.transfers ≡ db.transfers) (λ v ws d e p m. ap (λ x. x.transfers) m.rest ∙ p)
          (load_items o id db) db s.brought refl s.bring in
      ap (λ x. x.transfers) s.tables
      ∙ ap (update (is_open is_in_transit o id) (mark_completed clock.now user key)) same

-- A mark that keeps the key, the warehouses and the creator of a row, as a step that is allowed.
record IsMark (at : TransferStatus → Bool) (f : Transfer → Transfer) : Type 0 where
  step : (t : Transfer) → at t.status ≡ true → Step t.status (f t).status
  keeps :
      (t : Transfer)
      → ((f t).organization_id ≡ t.organization_id)
        × ((f t).id ≡ t.id)
        × ((f t).source_warehouse_id ≡ t.source_warehouse_id)
        × ((f t).destination_warehouse_id ≡ t.destination_warehouse_id)
        × ((f t).created_by_user_id ≡ t.created_by_user_id)

mark-Evolves :
    (at : TransferStatus → Bool) (f : Transfer → Transfer) (o id : ℕ) (ts : List Transfer)
    → IsMark at f
    → Evolves o id ts (update (is_open at o id) f ts)
mark-Evolves at f o id ts m =
    Pairs-update (λ a b. (b ≡ a) ⊎ IsStep o id a b) (is_open at o id) f (λ t. inl refl)
      (λ t e.
        let (org, key, source, destination, creator) = m.keeps t in
        inr (record {
          here = ground (arith, e);
          step = m.step t (ground (arith, e));
          same_organization = org;
          same_id = key;
          same_source = source;
          same_destination = destination;
          same_creator = creator;
        }))
      ts

Evolves-self : (o id : ℕ) (ts : List Transfer) → Evolves o id ts ts
Evolves-self o id [] = tt
Evolves-self o id (t ∷ ts) = (inl refl, Evolves-self o id ts)

-- A dispatch, a receipt and a cancellation change no transfer but their own, and that only by a
-- step of the state machine: from pending to in transit, from there to completed, or from pending
-- to cancelled. So nothing leaves completed or cancelled.
pub transfer-Evolves :
    (clock : Clock) (o user id : ℕ) (key : String) (db : Db)
    → Evolves o id db.transfers (transact (dispatch clock o user id key) db).1.transfers
      × Evolves o id db.transfers (transact (receive clock o user id key) db).1.transfers
      × Evolves o id db.transfers (transact (cancel clock o user id) db).1.transfers
transfer-Evolves clock o user id key db =
    let Grown = λ (d : Db). Evolves o id db.transfers d.transfers in
    let still = Evolves-self o id db.transfers in
    (
      transact-keeps Grown (dispatch clock o user id key) db still (λ view after h.
          elim (dispatch-cases clock o user id key db view after h) [
            | inl (same, read) ↦ rw same still
            | inr s ↦ rw (shipped-transfers clock o user id key db view after s) (
                mark-Evolves is_pending (mark_in_transit clock.now user key) o id db.transfers
                  (record {
                    step = λ t e. rw (is_pending_eq t.status e) ship;
                    keeps = λ t. (refl, refl, refl, refl, refl);
                  }))
          ]),
      transact-keeps Grown (receive clock o user id key) db still (λ view after h.
          elim (receive-cases clock o user id key db view after h) [
            | inl (same, read) ↦ rw same still
            | inr s ↦ rw (completed-transfers clock o user id key db view after s) (
                mark-Evolves is_in_transit (mark_completed clock.now user key) o id db.transfers
                  (record {
                    step = λ t e. rw (is_in_transit_eq t.status e) arrive;
                    keeps = λ t. (refl, refl, refl, refl, refl);
                  }))
          ]),
      transact-keeps Grown (cancel clock o user id) db still (λ view after h.
          rw (cancel-IsCancelled clock o user id key db view after h).tables (
            mark-Evolves is_pending (mark_cancelled clock.now user) o id db.transfers (record {
              step = λ t e. rw (is_pending_eq t.status e) call_off;
              keeps = λ t. (refl, refl, refl, refl, refl);
            }))),
    )

mark-AreStamped :
    (at : TransferStatus → Bool) (f : Transfer → Transfer) (o id : ℕ) (ts : List Transfer)
    → ((t : Transfer) → at t.status ≡ true → is_stamped t ≡ true → is_stamped (f t) ≡ true)
    → AreStamped ts
    → AreStamped (update (is_open at o id) f ts)
mark-AreStamped at f o id ts step h =
    All-update (λ t. is_stamped t ≡ true) (is_open at o id) f
      (λ t e stamped. step t (ground (arith, e)) stamped) ts h

-- A dispatch, a receipt and a cancellation set times that fit the status that they set: rows that
-- pass the `CHECK` of the times still pass it.
pub transfer-AreStamped :
    (clock : Clock) (o user id : ℕ) (key : String) (db : Db)
    → AreStamped db.transfers
    → AreStamped (transact (dispatch clock o user id key) db).1.transfers
      × AreStamped (transact (receive clock o user id key) db).1.transfers
      × AreStamped (transact (cancel clock o user id) db).1.transfers
transfer-AreStamped clock o user id key db stamped =
    let Kept = λ (d : Db). AreStamped d.transfers in
    (
      transact-keeps Kept (dispatch clock o user id key) db stamped (λ view after h.
          elim (dispatch-cases clock o user id key db view after h) [
            | inl (same, read) ↦ rw same stamped
            | inr s ↦ rw (shipped-transfers clock o user id key db view after s) (
                mark-AreStamped is_pending (mark_in_transit clock.now user key) o id db.transfers
                  (λ t e h. ground (arith, e, h)) stamped)
          ]),
      transact-keeps Kept (receive clock o user id key) db stamped (λ view after h.
          elim (receive-cases clock o user id key db view after h) [
            | inl (same, read) ↦ rw same stamped
            | inr s ↦ rw (completed-transfers clock o user id key db view after s) (
                mark-AreStamped is_in_transit (mark_completed clock.now user key) o id db.transfers
                  (λ t e h. ground (arith, e, h)) stamped)
          ]),
      transact-keeps Kept (cancel clock o user id) db stamped (λ view after h.
          rw (cancel-IsCancelled clock o user id key db view after h).tables (
            mark-AreStamped is_pending (mark_cancelled clock.now user) o id db.transfers
              (λ t e h. ground (arith, e, h)) stamped)),
    )
