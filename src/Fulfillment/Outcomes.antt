-- ===== src/Fulfillment/Outcomes.antt =====
-- What a run of `Complete` that succeeds did.
use text.Mathlib.Text.{◌==◌ as text_eq}
use flowcart.Prelude.{
  ℕ, suc, String, ◌≡◌, refl, inl, inr, ◌⊎◌, true, not, ◌||◌, none, some, List, [], ◌∷◌, ◌++◌, arith,
  ◌==◌, ltb, length, first, update, sort_by, Option-cases, Result-cases, Map, ok,
}
use flowcart.Database.{Db, Clock, after_first, ◌>>=◌}
use flowcart.Database.Audit.{append_event}
use flowcart.Database.Reads.{
  Reads, Reads-bind, Reads-or_throw, Reads-throw_if, after_read, after_check, after_found,
}
use flowcart.Database.Sales.{Order}
use flowcart.Database.Stock.{find_level}
use flowcart.Order.Reading.{find_order}
use flowcart.Fulfillment.Model.{
  database_error, idempotency_key_reused, reservation_not_found, reservation_other_order,
  mixed_warehouse, FulfillmentView, ReservationRecord, scan_fulfillment, has_fulfillment_key,
  is_fulfillment, discover_reservations, lock_reservations, load_fulfillment,
}
use flowcart.Fulfillment.Completing.{
  keyed, replay, check_records, inventory_ids, lock_levels, is_fulfilled, can_be_fulfilled,
  add_quantities, new_fulfillment, insert_fulfillment, deduct, ship_records, all_consumed,
  is_open_order, advance, ship, first_warehouse, ship_inserted, complete_locked,
  complete_discovered, complete_new, complete,
}
use flowcart.Fulfillment.Quantities.{add_quantities-AreAdded}

check_records-Reads : (order w : ℕ) (rs : List ReservationRecord) → Reads (check_records order w rs)
unfolding check_records
check_records-Reads order w [] = λ db. inr (tt, refl)
check_records-Reads order w (r ∷ rs) =
    Reads-bind _ _ (Reads-throw_if (not (r.order_id == order)) reservation_other_order) (λ u.
      Reads-bind _ _ (Reads-throw_if (not (r.warehouse_id == w)) mixed_warehouse)
        (λ v. check_records-Reads order w rs))

lock_levels-Reads : (o : ℕ) (ids : List ℕ) → Reads (lock_levels o ids)
unfolding lock_levels
lock_levels-Reads o [] = λ db. inr (tt, refl)
lock_levels-Reads o (id ∷ ids) =
    Reads-bind _ _ (Reads-or_throw (find_level o id) reservation_not_found)
      (λ l. lock_levels-Reads o ids)

module _ (clock : Clock) (o user order : ℕ) (key hash : String) (ids : List ℕ) (db : Db) where
  -- A fulfillment that is there with the key is read.
  pub record IsReplayed (view : FulfillmentView) (after : Db) : Type 0 where
    pub existing : FulfillmentView
    pub found : keyed o key db ≡ some existing
    pub read : replay order hash existing db ≡ ok (view, db)
    pub same : after ≡ db

  -- The end of the run.
  pub record IsEnded (scanned : FulfillmentView) (quantities : Map ℕ) (levels : List ℕ)
      (records : List ReservationRecord) (start : Db) (view : FulfillmentView) (after : Db)
      : Type 0 where
    pub deducted : Db
    pub deduction : deduct o quantities levels start ≡ ok (tt, deducted)
    pub consumed : Db
    pub consumption :
        ship_records clock o user (scanned.fulfillment).id order records deducted
        ≡ ok (tt, consumed)
    pub tables : after ≡ record consumed {
      orders =
          update
            (is_open_order o order)
            (advance clock.now (all_consumed o order consumed))
            consumed.orders;
      audit_events = after.audit_events;
    }
    pub result : view ≡ load_fulfillment scanned after

  ship-IsEnded :
      (scanned : FulfillmentView) (quantities : Map ℕ) (levels : List ℕ)
      (records : List ReservationRecord) (start : Db) (view : FulfillmentView) (after : Db)
      → ship clock o user order scanned levels quantities records start ≡ ok (view, after)
      → IsEnded scanned quantities levels records start view after
  unfolding ship append_event
  ship-IsEnded scanned quantities levels records start view after h =
      elim (Result-cases (deduct o quantities levels start)) [
        | inl (x, a) ↦ absurd (ground (arith, a, h))
        | inr ((u, deducted), a) ↦
            elim (Result-cases
              (ship_records clock o user (scanned.fulfillment).id order records deducted)) [
                | inl (x, b) ↦ absurd (ground (arith, a, b, h))
                | inr ((v, consumed), b) ↦ record {
                  deducted = deducted;
                  deduction = a;
                  consumed = consumed;
                  consumption = b;
                  tables = ground (arith, a, b, h);
                  result = ground (arith, a, b, h);
                }
              ]
      ]

  -- A new fulfillment that is shipped.
  pub record IsShipped (view : FulfillmentView) (after : Db) : Type 0 where
    pub row : Order
    pub found : find_order o order db ≡ some row
    pub payable : can_be_fulfilled row.status ≡ true
    pub fresh : first (has_fulfillment_key o key) db.fulfillments ≡ none
    pub counted : (length (lock_reservations o ids db) == length ids) ≡ true
    pub warehouse : ℕ
    pub quantities : Map ℕ
    pub added :
        add_quantities order warehouse (lock_reservations o ids db) [] db ≡ ok (quantities, db)
    pub started : Db
    pub start : started ≡ record db {
      fulfillments =
          db.fulfillments ++ new_fulfillment clock db.next_id o order warehouse user key hash ∷ [];
      next_id = suc db.next_id;
    }
    pub scanned : FulfillmentView
    pub scan :
        scan_fulfillment started (first (is_fulfillment o db.next_id) started.fulfillments)
        ≡ some scanned
    pub ended :
        IsEnded scanned quantities
          (sort_by ltb (inventory_ids [] (discover_reservations o ids db)))
          (lock_reservations o ids db)
          started
          view
          after

  replay-Reads : (v : FulfillmentView) → Reads (replay order hash v)
  unfolding replay
  replay-Reads v =
      Reads-bind _ _
        (Reads-throw_if
          (not ((v.fulfillment).order_id == order)
            || not (text_eq (v.fulfillment).request_hash hash))
          idempotency_key_reused)
        (λ u d. inr (load_fulfillment v d, refl))

  inserted-ship :
      (levels : List ℕ) (quantities : Map ℕ) (locked : List ReservationRecord) (id : ℕ) (start : Db)
      (view : FulfillmentView) (after : Db)
      → ship_inserted clock o user order key hash levels quantities locked (some id) start
        ≡ ok (view, after)
      → (scanned : FulfillmentView) × (scan_fulfillment start
            (first (is_fulfillment o id) start.fulfillments)
          ≡ some scanned)
        × (ship clock o user order scanned levels quantities locked start ≡ ok (view, after))
  unfolding ship_inserted
  inserted-ship levels quantities locked id start view after h =
      after_found (scan_fulfillment start (first (is_fulfillment o id) start.fulfillments))
        database_error (λ v. ship clock o user order v levels quantities locked) start h

  ship_inserted-IsShipped :
      (warehouse : ℕ) (row : Order) (quantities : Map ℕ) (view : FulfillmentView) (after : Db)
      → keyed o key db ≡ none
      → find_order o order db ≡ some row
      → can_be_fulfilled row.status ≡ true
      → (length (lock_reservations o ids db) == length ids) ≡ true
      → add_quantities order warehouse (lock_reservations o ids db) [] db ≡ ok (quantities, db)
      → (insert_fulfillment clock o order warehouse user key hash
            >>= ship_inserted clock o user order key hash
                (sort_by ltb (inventory_ids [] (discover_reservations o ids db)))
                quantities
                (lock_reservations o ids db))
          db
        ≡ ok (view, after)
      → IsShipped view after
  unfolding insert_fulfillment
  ship_inserted-IsShipped warehouse row quantities view after unkeyed found payable counted added
        h =
      let start : Db = record db {
        fulfillments =
            db.fulfillments
            ++ new_fulfillment clock db.next_id o order warehouse user key hash ∷ [];
        next_id = suc db.next_id;
      } in
      let locked = lock_reservations o ids db in
      let levels = sort_by ltb (inventory_ids [] (discover_reservations o ids db)) in
      elim (Option-cases (first (has_fulfillment_key o key) db.fulfillments)) [
        | inr (f, b) ↦
            let conflict : ship_inserted clock o user order key hash levels quantities locked none
                  db
                ≡ ok (view, after) =
              ground (arith, b, h) in
            absurd (unfold ship_inserted in ground (arith, unkeyed, conflict))
        | inl b ↦
            let inserted : ship_inserted clock o user order key hash levels quantities locked
                  (some db.next_id) start
                ≡ ok (view, after) =
              ground (arith, b, h) in
            let (scanned, c, rest) =
              inserted-ship levels quantities locked db.next_id start view after inserted in
            record {
              row = row;
              found = found;
              payable = payable;
              fresh = b;
              counted = counted;
              warehouse = warehouse;
              quantities = quantities;
              added = added;
              started = start;
              start = refl;
              scanned = scanned;
              scan = c;
              ended = ship-IsEnded scanned quantities levels locked start view after rest;
            }
      ]

  complete_locked-IsShipped :
      (warehouse : ℕ) (row : Order) (view : FulfillmentView) (after : Db)
      → keyed o key db ≡ none
      → find_order o order db ≡ some row
      → complete_locked clock o user order key hash ids warehouse
          (sort_by ltb (inventory_ids [] (discover_reservations o ids db)))
          row
          db
        ≡ ok (view, after)
      → IsShipped view after
  unfolding complete_locked
  complete_locked-IsShipped warehouse row view after unkeyed found h =
      let locked = lock_reservations o ids db in
      let (unfilled, h1) = after_check (is_fulfilled row.status) _ _ db h in
      let (paid, h2) = after_check (not (can_be_fulfilled row.status)) _ _ db h1 in
      let (counted, h3) = after_check (not (length locked == length ids)) _ _ db h2 in
      let (quantities, left, added, h4) =
        after_first (add_quantities order warehouse locked []) _ db h3 in
      let same =
        (add_quantities-AreAdded order warehouse locked [] quantities db left added).same in
      ship_inserted-IsShipped warehouse row quantities view after unkeyed found
        (ground (arith, paid)) (ground (arith, counted)) (rw same at added) (rw same at h4)

  complete_new-IsShipped :
      (view : FulfillmentView) (after : Db)
      → keyed o key db ≡ none
      → complete_new clock o user order key hash ids db ≡ ok (view, after)
      → IsShipped view after
  unfolding complete_new complete_discovered
  complete_new-IsShipped view after unkeyed h =
      let records = discover_reservations o ids db in
      let levels = sort_by ltb (inventory_ids [] records) in
      let (counted, h1) = after_check (not (length records == length ids)) _ _ db h in
      elim (Option-cases (first_warehouse records)) [
        | inl b ↦ absurd (ground (arith, b, h1))
        | inr (warehouse, b) ↦
            let h2 : complete_discovered clock o user order key hash ids records warehouse db
                ≡ ok (view, after) =
              ground (arith, b, h1) in
            let (u, checked, h3) =
              after_read (check_records order warehouse records) _ db
                (check_records-Reads order warehouse records) h2 in
            let (v, locked, h4) =
              after_read (lock_levels o levels) _ db (lock_levels-Reads o levels) h3 in
            let (row, found, h5) = after_found (find_order o order db) _ _ db h4 in
            complete_locked-IsShipped warehouse row view after unkeyed found
              (ground (arith, unkeyed, h5))
      ]

  pub complete-cases :
      (view : FulfillmentView) (after : Db)
      → complete clock o user order key hash ids db ≡ ok (view, after)
      → IsReplayed view after ⊎ IsShipped view after
  unfolding complete
  complete-cases view after h = elim (Option-cases (keyed o key db)) [
    | inr (v, a) ↦ elim (replay-Reads v db) [
      | inl (x, b) ↦ absurd (ground (arith, a, b, h))
      | inr (read, b) ↦ inl (record {
        existing = v;
        found = a;
        read = ground (arith, a, b, h);
        same = ground (arith, a, b, h);
      })
    ]
    | inl a ↦ inr (complete_new-IsShipped view after a (ground (arith, a, h)))
  ]
