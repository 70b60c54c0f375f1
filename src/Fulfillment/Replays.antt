-- ===== src/Fulfillment/Replays.antt =====
-- Repeating a request for a fulfillment.
use text.Mathlib.Text.{◌==◌ as text_eq}
use text.Mathlib.TextPositions.{eq_refl}
use mathlib.Core.Path.{subst}
use flowcart.Prelude.{
  ℕ, suc, String, ◌≡◌, refl, sym, ap, ◌∙◌, inl, inr, true, none, some, List, [], ◌∷◌, ◌++◌, arith,
  ==_refl, first, first-append, Option-cases, ok,
}
use flowcart.Database.{Db, Clock}
use flowcart.Database.Sales.{Fulfillment}
use flowcart.Database.Stock.{find_warehouse}
use flowcart.Fulfillment.Model.{
  FulfillmentView, is_fulfillment, has_fulfillment_key, scan_fulfillment, load_fulfillment,
  lock_reservations,
}
use flowcart.Fulfillment.Completing.{keyed, replay, new_fulfillment, complete}
use flowcart.Fulfillment.Consuming.{ship_records-keeps}
use flowcart.Fulfillment.Outcomes.{IsShipped, complete-cases}
use flowcart.Fulfillment.Deducting.{deduct_keeps_tables}

module _ (clock : Clock) (o user order : ℕ) (key hash : String) (ids : List ℕ) (db : Db)
    (view : FulfillmentView) (after : Db)
    (s : IsShipped clock o user order key hash ids db view after) where
  abbrev new : Fulfillment
  new = new_fulfillment clock db.next_id o order s.warehouse user key hash

  -- Of the tables that a fulfillment is read from, only the fulfillments and their items change.
  shipped-tables :
      (after.fulfillments ≡ db.fulfillments ++ new ∷ []) × (after.warehouses ≡ db.warehouses)
  shipped-tables =
      let e = s.ended in
      let given = deduct_keeps_tables o s.quantities _ s.started e.deducted e.deduction in
      let (fulfillments, warehouses) =
        ship_records-keeps clock o user ((s.scanned).fulfillment).id order
          (λ rs d.
            (d.fulfillments ≡ (e.deducted).fulfillments) × (d.warehouses ≡ (e.deducted).warehouses))
          (λ r rs d d' p c. rw c.tables p) (lock_reservations o ids db) e.deducted e.consumed
          (refl, refl) e.consumption in
      (
        ap (λ d. d.fulfillments) e.tables
            ∙ fulfillments
            ∙ ap (λ d. d.fulfillments) given
            ∙ ap (λ d. d.fulfillments) s.start,
        ap (λ d. d.warehouses) e.tables
            ∙ warehouses
            ∙ ap (λ d. d.warehouses) given
            ∙ ap (λ d. d.warehouses) s.start,
      )

  scanned_new :
      first (is_fulfillment o db.next_id) db.fulfillments ≡ none
      → ((s.scanned).fulfillment ≡ new) × (scan_fulfillment after (some new) ≡ some s.scanned)
  scanned_new unused =
      let found =
        first-append (is_fulfillment o db.next_id) db.fulfillments new unused
          (ground (arith, ==_refl o, ==_refl db.next_id)) in
      let start : Db = record db {
        fulfillments = db.fulfillments ++ new ∷ [];
        next_id = suc db.next_id;
      } in
      let scan : scan_fulfillment start (some new) ≡ some s.scanned =
        subst (λ x. scan_fulfillment start x ≡ some s.scanned) found
          (subst
            (λ d.
              scan_fulfillment d (first (is_fulfillment o db.next_id) d.fulfillments)
              ≡ some s.scanned)
            s.start s.scan) in
      elim (Option-cases (find_warehouse o s.warehouse db)) [
        | inl e ↦ absurd (ground (arith, e, scan))
        | inr (w, e) ↦
            let there : find_warehouse o s.warehouse after ≡ some w = rw shipped-tables.1 e in
            (ground (arith, e, scan), ground (arith, e, there, scan))
      ]

  -- The key finds the new fulfillment.
  shipped-keyed :
      first (is_fulfillment o db.next_id) db.fulfillments ≡ none
      → keyed o key after ≡ some s.scanned
  unfolding keyed
  shipped-keyed unused =
      let found : first (has_fulfillment_key o key) after.fulfillments ≡ some new =
        ap (first (has_fulfillment_key o key)) shipped-tables.0
        ∙ first-append (has_fulfillment_key o key) db.fulfillments new s.fresh
            (ground (arith, ==_refl o, eq_refl key)) in
      ap (scan_fulfillment after) found ∙ (scanned_new unused).1

replay_run :
    (clock : Clock) (o user order : ℕ) (key hash : String) (ids : List ℕ) (db : Db)
    (v : FulfillmentView)
    → keyed o key db ≡ some v
    → complete clock o user order key hash ids db ≡ replay order hash v db
unfolding complete
replay_run clock o user order key hash ids db v found = ground (arith, found)

-- A key that finds a fulfillment of the order and the request is answered with it.
replayed :
    (order : ℕ) (hash : String) (v : FulfillmentView) (db : Db)
    → (v.fulfillment).order_id ≡ order
    → text_eq (v.fulfillment).request_hash hash ≡ true
    → replay order hash v db ≡ ok (load_fulfillment v db, db)
unfolding replay
replayed order hash v db same hashed = ground (arith, same, hashed, ==_refl order)

-- Completing a fulfillment is idempotent: once a request has been carried out, under a number that
-- no fulfillment had, the same request, by whichever user and at whatever time, returns the same
-- fulfillment and leaves the tables as they are. So nothing is shipped twice.
pub complete_again :
    (clock late : Clock) (o user other order : ℕ) (key hash : String) (ids : List ℕ) (db after : Db)
    (view : FulfillmentView)
    → first (is_fulfillment o db.next_id) db.fulfillments ≡ none
    → complete clock o user order key hash ids db ≡ ok (view, after)
    → complete late o other order key hash ids after ≡ ok (view, after)
complete_again clock late o user other order key hash ids db after view unused h =
    elim (complete-cases clock o user order key hash ids db view after h) [
      | inl r ↦
          subst (λ d. complete late o other order key hash ids d ≡ ok (view, d)) (sym r.same)
            (replay_run late o other order key hash ids db r.existing r.found ∙ r.read)
      | inr s ↦
          let (row, scan) = scanned_new clock o user order key hash ids db view after s unused in
          let found = shipped-keyed clock o user order key hash ids db view after s unused in
          replay_run late o other order key hash ids after s.scanned found
          ∙ replayed order hash s.scanned after (ap (λ f. f.order_id) row) (rw row (eq_refl hash))
          ∙ ap (λ v. ok (v, after)) (sym (s.ended).result)
    ]
