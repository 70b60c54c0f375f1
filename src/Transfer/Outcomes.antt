-- ===== src/Transfer/Outcomes.antt =====
-- What a transaction on a transfer that committed did, statement by statement.
use flowcart.Prelude.{
  ℕ, String, ◌≡◌, refl, inl, inr, ◌⊎◌, Bool, true, false, not, ◌||◌, Option, some, List, [], ◌∷◌,
  arith, ltb, sort_by, Bool-cases, Option-cases, ok, err, Result-cases,
}
use flowcart.Database.{Db, Clock, Tx, Transfer, ◌>>=◌, or_throw, throw_if}
use flowcart.Database.Audit.{append_event}
use flowcart.Database.Stock.{find_level, find_product, find_warehouse}
use flowcart.Transfer.Reading.{
  TransferError, database_error, inactive_product, inactive_warehouse, not_found, ItemView,
  TransferView, find_transfer, scan_transfer, load_items, get_transfer, distinct, lock_levels,
  lock_inventory, transfer_item_ids,
}
use flowcart.Transfer.Creating.{transfer_event}
use flowcart.Transfer.Shipping.{
  is_pending, is_in_transit, is_completed, check_products, validate_dispatch_state, check_stock,
  take_out, bring_in, marked, is_open, mark_in_transit, mark_completed, mark_cancelled,
  dispatch_pending, is_dispatched_with, dispatch, destination_ids, receive_in_transit, receive,
  cancel,
}

-- A part that only reads fails, or succeeds and leaves the tables.
abbrev pub Reads : {A : Type 0} → Tx TransferError A → Type 0
Reads {A} m = (db : Db) → ((e : TransferError) × (m db ≡ err e)) ⊎ ((a : A) × (m db ≡ ok (a, db)))

pub Reads-bind :
    {A B : Type 0} (m : Tx TransferError A) (f : A → Tx TransferError B)
    → Reads m
    → ((a : A) → Reads (f a))
    → Reads (m >>= f)
Reads-bind m f rm rf db = elim (rm db) [
  | inl (e, h) ↦ inl (e, ground (arith, h))
  | inr (a, h) ↦ elim (rf a db) [
    | inl (e, k) ↦ inl (e, ground (arith, h, k))
    | inr (b, k) ↦ inr (b, ground (arith, h, k))
  ]
]

pub Reads-throw_if : (c : Bool) (e : TransferError) → Reads (throw_if c e)
Reads-throw_if true e db = inl (e, refl)
Reads-throw_if false e db = inr (tt, refl)

pub Reads-or_throw :
    {A : Type 0} (g : Db → Option A) (e : TransferError) → Reads (λ db. or_throw (g db) e db)
Reads-or_throw g e db = elim (Option-cases (g db)) [
  | inl h ↦ inl (e, ground (arith, h))
  | inr (a, h) ↦ inr (a, ground (arith, h))
]

pub scan_transfer-Reads : (failure : TransferError) (o id : ℕ) → Reads (scan_transfer failure o id)
unfolding scan_transfer
scan_transfer-Reads failure o id =
    Reads-bind _ _ (Reads-or_throw (find_transfer o id) failure) (λ t.
      Reads-bind _ _ (Reads-or_throw (find_warehouse o t.source_warehouse_id) failure) (λ s.
        Reads-bind _ _ (Reads-or_throw (find_warehouse o t.destination_warehouse_id) failure)
          (λ d db. inr (_, refl))))

pub get_transfer-Reads : (o id : ℕ) → Reads (get_transfer o id)
unfolding get_transfer
get_transfer-Reads o id =
    Reads-bind _ _ (scan_transfer-Reads not_found o id) (λ view db. inr (_, refl))

lock_levels-Reads : (o : ℕ) (ids : List ℕ) → Reads (lock_levels o ids)
unfolding lock_levels
lock_levels-Reads o [] = λ db. inr (tt, refl)
lock_levels-Reads o (id ∷ ids) =
    Reads-bind _ _ (Reads-or_throw (find_level o id) not_found) (λ l. lock_levels-Reads o ids)

check_products-Reads : (o : ℕ) (vs : List ItemView) → Reads (check_products o vs)
unfolding check_products
check_products-Reads o [] = λ db. inr (tt, refl)
check_products-Reads o (v ∷ vs) =
    Reads-bind _ _ (Reads-or_throw (find_product o (v.item).product_id) database_error) (λ p.
      Reads-bind _ _ (Reads-throw_if (not p.is_active) inactive_product)
        (λ u. check_products-Reads o vs))

pub lock_inventory-Reads : (o : ℕ) (ids : List ℕ) → Reads (lock_inventory o ids)
unfolding lock_inventory
lock_inventory-Reads o ids = lock_levels-Reads o (sort_by ltb (distinct [] ids))

validate-Reads :
    (o : ℕ) (view : TransferView) (vs : List ItemView) → Reads (validate_dispatch_state o view vs)
unfolding validate_dispatch_state
validate-Reads o view vs =
    Reads-bind _ _
      (Reads-or_throw (find_warehouse o (view.transfer).source_warehouse_id) database_error)
      (λ s.
        Reads-bind _ _
          (Reads-or_throw (find_warehouse o (view.transfer).destination_warehouse_id)
            database_error)
          (λ d.
            Reads-bind _ _ (Reads-throw_if (not s.is_active || not d.is_active) inactive_warehouse)
              (λ u. check_products-Reads o vs)))

-- The row that a scan reads is the one that the key finds.
pub scan_transfer-found :
    (failure : TransferError) (o id : ℕ) (db after : Db) (view : TransferView)
    → scan_transfer failure o id db ≡ ok (view, after)
    → find_transfer o id db ≡ some view.transfer
unfolding scan_transfer
scan_transfer-found failure o id db after view h = elim (Option-cases (find_transfer o id db)) [
  | inl e ↦ absurd (ground (arith, e, h))
  | inr (t, e) ↦ ground (arith, e, h)
]

module _ (clock : Clock) (o user id : ℕ) (key : String) (db : Db) where
  -- A dispatch that shipped the transfer.
  pub record IsShipped (view : TransferView) (after : Db) : Type 0 where
    pub transfer : Transfer
    pub found : find_transfer o id db ≡ some transfer
    pub was_pending : is_pending transfer.status ≡ true
    pub checked : Db
    pub check : check_stock clock o (load_items o id db) db ≡ ok (tt, checked)
    pub taken : Db
    pub take :
        take_out clock o user id transfer.source_warehouse_id (load_items o id db) checked
        ≡ ok (tt, taken)
    pub tables :
        after
        ≡ record (marked (is_open is_pending o id) (mark_in_transit clock.now user key) taken) {
          audit_events = after.audit_events;
        }
    pub read :
        get_transfer o id
          (marked (is_open is_pending o id) (mark_in_transit clock.now user key) taken)
        ≡ ok (view, marked (is_open is_pending o id) (mark_in_transit clock.now user key) taken)

  pub dispatch_pending-IsShipped :
      (found : TransferView) (view : TransferView) (after : Db)
      → find_transfer o id db ≡ some found.transfer
      → dispatch_pending clock o user id key found db ≡ ok (view, after)
      → IsShipped view after
  unfolding dispatch_pending append_event
  dispatch_pending-IsShipped found view after f h =
      let items = load_items o id db in
      let t = found.transfer in
      elim (validate-Reads o found items db) [
        | inl (x, e) ↦ absurd (ground (arith, e, h))
        | inr (u, e) ↦ elim (Result-cases (check_stock clock o items db)) [
          | inl (x, c) ↦ absurd (ground (arith, e, c, h))
          | inr ((v, checked), c) ↦
              elim (Result-cases (take_out clock o user id t.source_warehouse_id items checked)) [
                | inl (x, m) ↦ absurd (ground (arith, e, c, m, h))
                | inr ((w, taken), m) ↦
                    let shipped =
                      marked (is_open is_pending o id) (mark_in_transit clock.now user key) taken in
                    elim (get_transfer-Reads o id shipped) [
                      | inl (x, g) ↦ absurd (ground (arith, e, c, m, g, h))
                      | inr (read, g) ↦ record {
                        transfer = t;
                        found = f;
                        was_pending = ground (arith, e, c, m, g, h);
                        checked = checked;
                        check = c;
                        taken = taken;
                        take = m;
                        tables = ground (arith, e, c, m, g, h);
                        read = ground (arith, e, c, m, g, h);
                      }
                    ]
              ]
        ]
      ]

  -- A dispatch that commits is a replay, which only reads, or ships the transfer.
  pub dispatch-cases :
      (view : TransferView) (after : Db)
      → dispatch clock o user id key db ≡ ok (view, after)
      → ((after ≡ db) × (get_transfer o id db ≡ ok (view, db))) ⊎ IsShipped view after
  unfolding dispatch
  dispatch-cases view after h = elim (get_transfer-Reads o id db) [
    | inl (x, e) ↦ absurd (ground (arith, e, h))
    | inr (initial, e) ↦ elim (lock_inventory-Reads o (transfer_item_ids initial.items) db) [
      | inl (x, f) ↦ absurd (ground (arith, e, f, h))
      | inr (u, f) ↦ elim (scan_transfer-Reads database_error o id db) [
        | inl (x, g) ↦ absurd (ground (arith, e, f, g, h))
        | inr (found, g) ↦ elim (Bool-cases (is_dispatched_with key found.transfer)) [
          | inl b ↦ inl (ground (arith, e, f, g, b, h), ground (arith, e, f, g, b, h))
          | inr b ↦ inr (
              dispatch_pending-IsShipped found view after
                (scan_transfer-found database_error o id db db found g)
                (ground (arith, e, f, g, b, h)))
        ]
      ]
    ]
  ]

  -- A receipt that completed the transfer.
  pub record IsCompleted (view : TransferView) (after : Db) : Type 0 where
    pub transfer : Transfer
    pub found : find_transfer o id db ≡ some transfer
    pub was_in_transit : is_in_transit transfer.status ≡ true
    pub brought : Db
    pub bring :
        bring_in clock o user id transfer.destination_warehouse_id (load_items o id db) db
        ≡ ok (tt, brought)
    pub tables :
        after
        ≡ record (marked (is_open is_in_transit o id) (mark_completed clock.now user key) brought) {
          audit_events = after.audit_events;
        }
    pub read :
        get_transfer o id
          (marked (is_open is_in_transit o id) (mark_completed clock.now user key) brought)
        ≡ ok (view, marked (is_open is_in_transit o id) (mark_completed clock.now user key) brought)

  pub receive_in_transit-IsCompleted :
      (found : TransferView) (view : TransferView) (after : Db)
      → find_transfer o id db ≡ some found.transfer
      → receive_in_transit clock o user id key found db ≡ ok (view, after)
      → IsCompleted view after
  unfolding receive_in_transit append_event
  receive_in_transit-IsCompleted found view after f h =
      let items = load_items o id db in
      let t = found.transfer in
      elim (Result-cases (bring_in clock o user id t.destination_warehouse_id items db)) [
        | inl (x, m) ↦ absurd (ground (arith, m, h))
        | inr ((w, brought), m) ↦
            let done =
              marked (is_open is_in_transit o id) (mark_completed clock.now user key) brought in
            elim (get_transfer-Reads o id done) [
              | inl (x, g) ↦ absurd (ground (arith, m, g, h))
              | inr (read, g) ↦ record {
                transfer = t;
                found = f;
                was_in_transit = ground (arith, m, g, h);
                brought = brought;
                bring = m;
                tables = ground (arith, m, g, h);
                read = ground (arith, m, g, h);
              }
            ]
      ]

  -- A receipt that commits is a replay, which only reads, or completes the transfer.
  pub receive-cases :
      (view : TransferView) (after : Db)
      → receive clock o user id key db ≡ ok (view, after)
      → ((after ≡ db) × (get_transfer o id db ≡ ok (view, db))) ⊎ IsCompleted view after
  unfolding receive
  receive-cases view after h = elim (get_transfer-Reads o id db) [
    | inl (x, e) ↦ absurd (ground (arith, e, h))
    | inr (initial, e) ↦ elim (lock_inventory-Reads o (destination_ids initial.items) db) [
      | inl (x, f) ↦ absurd (ground (arith, e, f, h))
      | inr (u, f) ↦ elim (scan_transfer-Reads database_error o id db) [
        | inl (x, g) ↦ absurd (ground (arith, e, f, g, h))
        | inr (found, g) ↦ elim (Bool-cases (is_completed (found.transfer).status)) [
          | inl b ↦ inl (ground (arith, e, f, g, b, h), ground (arith, e, f, g, b, h))
          | inr b ↦ inr (
              receive_in_transit-IsCompleted found view after
                (scan_transfer-found database_error o id db db found g)
                (ground (arith, e, f, g, b, h)))
        ]
      ]
    ]
  ]

  -- A cancellation that committed.
  pub record IsCancelled (view : TransferView) (after : Db) : Type 0 where
    pub transfer : Transfer
    pub found : find_transfer o id db ≡ some transfer
    pub was_pending : is_pending transfer.status ≡ true
    pub tables :
        after ≡ record (marked (is_open is_pending o id) (mark_cancelled clock.now user) db) {
          audit_events = after.audit_events;
        }
    pub read : get_transfer o id after ≡ ok (view, after)

  pub cancel-IsCancelled :
      (view : TransferView) (after : Db)
      → cancel clock o user id db ≡ ok (view, after)
      → IsCancelled view after
  unfolding cancel append_event
  cancel-IsCancelled view after h = elim (scan_transfer-Reads not_found o id db) [
    | inl (x, e) ↦ absurd (ground (arith, e, h))
    | inr (found, e) ↦
        let f = scan_transfer-found not_found o id db db found e in
        elim (Result-cases (
          append_event database_error (transfer_event "transfer.cancelled" o user id)
            (marked (is_open is_pending o id) (mark_cancelled clock.now user) db))) [
              | inl (x, g) ↦ absurd (ground (arith, e, g, h))
              | inr ((u, logged), g) ↦ elim (get_transfer-Reads o id logged) [
                | inl (x, k) ↦ absurd (ground (arith, e, g, k, h))
                | inr (read, k) ↦ record {
                  transfer = found.transfer;
                  found = f;
                  was_pending = ground (arith, e, g, k, h);
                  tables = ground (arith, e, g, k, h);
                  read = ground (arith, e, g, k, h);
                }
              ]
            ]
  ]
