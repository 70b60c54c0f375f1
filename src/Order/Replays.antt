-- ===== src/Order/Replays.antt =====
-- Repeating the request for an order.
use text.Mathlib.Text.{◌==◌ as text_eq}
use text.Mathlib.TextPositions.{eq_refl}
use mathlib.Core.Path.{subst}
use flowcart.Prelude.{
  ℕ, String, ◌≡◌, refl, sym, ap, ◌∙◌, inl, inr, true, none, some, List, [], ◌∷◌, ◌++◌, ==_refl,
  arith, first, first-append, first-update_other, update, sort_by, select, pos_part, Option-cases,
  if◌then◌else◌, ok,
}
use flowcart.Database.{Db, Clock, AuditEvent}
use flowcart.Database.Sales.{Order, OrderItem, AllocationMethod}
use flowcart.Order.Model.{CreateInput, OrderView}
use flowcart.Order.Reading.{
  is_order, is_order_item, item_less, find_order, bare, join_item, join_items, append_rows,
  load_order_items, get_order,
}
use flowcart.Order.Placing.{has_key, new_order, set_totals, priced}
use flowcart.Order.Creating.{create}
use flowcart.Order.Stocking.{lock_stock-IsLocked}
use flowcart.Order.Filled.{IsFilled, create-cases}
use flowcart.Order.Itemized.{insert_lines-IsItemized}

-- What is read of an order does not depend on the audit log.
join_items_logged :
    (d : Db) (log : List AuditEvent) (is : List OrderItem)
    → join_items (record d { audit_events = log }) is ≡ join_items d is
unfolding join_items join_item
join_items_logged d log [] = refl
join_items_logged d log (i ∷ is) = ap (λ rest. join_item d i ++ rest) (join_items_logged d log is)

get_order_logged :
    (o id : ℕ) (d : Db) (log : List AuditEvent) (view : OrderView)
    → get_order o id d ≡ ok (view, d)
    → get_order o id (record d { audit_events = log }) ≡ ok (view, record d { audit_events = log })
unfolding get_order load_order_items
get_order_logged o id d log view h = elim (Option-cases (find_order o id d)) [
  | inl e ↦ absurd (ground (arith, e, h))
  | inr (order, e) ↦
      let same = ap (append_rows (bare order)) (
        join_items_logged d log (
          sort_by item_less
            (select (is_order_item order.organization_id order.id) d.order_items))) in
      ground (arith, e, h, same)
]

-- An order that was filled is read afterwards as it was returned, and the orders have kept their
-- keys.
filled-get :
    (clock : Clock) (o user id : ℕ) (input : CreateInput) (db : Db) (view : OrderView) (after : Db)
    → IsFilled clock o user id input db view after
    → get_order o id after ≡ ok (view, after)
filled-get clock o user id input db view after f =
    subst (λ x. get_order o id x ≡ ok (view, x)) (sym f.tables)
      (get_order_logged o id f.placed after.audit_events view f.read)

filled-found :
    (clock : Clock) (o user id : ℕ) (key : String) (input : CreateInput) (db : Db) (order : Order)
    (view : OrderView) (after : Db)
    → first (has_key o key) db.orders ≡ some order
    → IsFilled clock o user id input db view after
    → (kept : Order) × (first (has_key o key) after.orders ≡ some kept)
      × (kept.id ≡ order.id)
      × (kept.request_hash ≡ order.request_hash)
unfolding set_totals
filled-found clock o user id key input db order view after found f =
    let locked = lock_stock-IsLocked clock o input.items _ [] f.products db f.locked f.lock in
    let made = insert_lines-IsItemized clock o id (f.totals).lines f.set f.placed f.place in
    let price = priced (f.totals).currency (pos_part (f.totals).subtotal) in
    let set : f.set ≡ record f.locked { orders = update (is_order o id) price (f.locked).orders } =
      ground (arith, f.setting) in
    let still : first (has_key o key) (f.locked).orders ≡ some order = rw locked.tables found in
    let changed =
      first-update_other (has_key o key) (is_order o id) price (λ x e. refl) (f.locked).orders
        still in
    let kept = if is_order o id order then price order else order in
    (kept, rw (f.tables, made.only, set) changed, ground arith, ground arith)

-- The run of `Create` with a key that is in use.
replay_run :
    (clock : Clock) (o user : ℕ) (key hash : String) (input : CreateInput) (db : Db) (order : Order)
    → first (has_key o key) db.orders ≡ some order
    → text_eq order.request_hash hash ≡ true
    → create clock o user key hash input db ≡ get_order o order.id db
unfolding create
replay_run clock o user key hash input db order found same = ground (arith, found, same)

-- Creating an order is idempotent: on the tables that a request has left, the same request, by
-- whichever user and at whatever time, returns the same order again and leaves the tables as they
-- are.
pub order_again :
    (clock late : Clock) (o user other : ℕ) (key hash : String) (input : CreateInput)
    (db after : Db) (view : OrderView)
    → create clock o user key hash input db ≡ ok (view, after)
    → create late o other key hash input after ≡ ok (view, after)
order_again clock late o user other key hash input db after view h =
    elim (create-cases clock o user key hash input db view after h) [
      | inl r ↦
          subst (λ d. create late o other key hash input d ≡ ok (view, d)) (sym r.same)
            (replay_run late o other key hash input db r.order r.found r.hashed ∙ r.read)
      | inr placed ↦
          let new = new_order clock db.next_id o user key hash AllocationMethod.manual none in
          let found =
            first-append (has_key o key) db.orders new placed.fresh
              (ground (arith, ==_refl o, eq_refl key)) in
          let (kept, there, id, hashed) =
            filled-found clock o user db.next_id key input _ new view after found placed.filled in
          replay_run late o other key hash input after kept there (rw hashed (eq_refl hash))
          ∙ ap (λ i. get_order o i after) id
          ∙ filled-get clock o user db.next_id input _ view after placed.filled
    ]
