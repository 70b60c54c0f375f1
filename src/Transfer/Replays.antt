-- ===== src/Transfer/Replays.antt =====
-- Repeating a request on a transfer.
use text.Mathlib.Text.{◌==◌ as text_eq}
use text.Mathlib.TextPositions.{eq_refl}
use mathlib.Core.Path.{subst}
use flowcart.Prelude.{
  ℕ, suc, String, ◌≡◌, refl, sym, ap, ◌∙◌, inl, inr, true, false, none, some, List, [], ◌∷◌, ◌++◌,
  arith, ltb, ◌==◌, first, first-append, Bool-cases, Option-cases, ok, Result-cases, ℤ, sort_by,
  select,
}
use flowcart.Database.{Db, Transfer, AuditEvent, TransferItem, after_first}
use flowcart.Transfer.Reading.{
  TransferError, TransferView, find_transfer, get_transfer, scan_transfer, join_products,
  load_items, is_item_of,
}
use flowcart.Database.Audit.{append_event}
use flowcart.Database.Stock.{find_product, find_warehouse}
use flowcart.Transfer.Outcomes.{Reads, Reads-bind, get_transfer-Reads}
use flowcart.Transfer.Creating.{
  TransferItemInput, find_stock, is_item_for, lock_warehouse, lock_warehouses, add_item, add_items,
  ensure_level, insert_item, CreateInput, has_creation_key, create, insert_transfer, fill_transfer,
  new_transfer,
}

-- What is read of a transfer does not depend on the audit log.
join_products_logged :
    (d : Db) (log : List AuditEvent) (is : List TransferItem)
    → join_products (record d { audit_events = log }) is ≡ join_products d is
unfolding join_products
join_products_logged d log [] = refl
join_products_logged d log (i ∷ is) =
    elim (Option-cases (find_product i.organization_id i.product_id d)) [
      | inl e ↦ ground (arith, e, join_products_logged d log is)
      | inr (p, e) ↦ ground (arith, e, join_products_logged d log is)
    ]

load_items_logged :
    (o id : ℕ) (d : Db) (log : List AuditEvent)
    → load_items o id (record d { audit_events = log }) ≡ load_items o id d
unfolding load_items
load_items_logged o id d log =
    ap (sort_by (λ a b. ltb a.item.id b.item.id))
      (join_products_logged d log (select (is_item_of o id) d.transfer_items))

pub get_transfer_logged :
    (o id : ℕ) (d : Db) (log : List AuditEvent) (view : TransferView)
    → get_transfer o id d ≡ ok (view, d)
    → get_transfer o id (record d { audit_events = log })
      ≡ ok (view, record d { audit_events = log })
unfolding get_transfer scan_transfer
get_transfer_logged o id d log view h = elim (Option-cases (find_transfer o id d)) [
  | inl e ↦ absurd (ground (arith, e, h))
  | inr (t, e) ↦ elim (Option-cases (find_warehouse o t.source_warehouse_id d)) [
    | inl f ↦ absurd (ground (arith, e, f, h))
    | inr (s, f) ↦ elim (Option-cases (find_warehouse o t.destination_warehouse_id d)) [
      | inl g ↦ absurd (ground (arith, e, f, g, h))
      | inr (w, g) ↦ ground (arith, e, f, g, h, load_items_logged o id d log)
    ]
  ]
]

ensure_level-transfers :
    (o product warehouse : ℕ) (d : Db)
    → (ensure_level o product warehouse d).transfers ≡ d.transfers
unfolding ensure_level
ensure_level-transfers o product warehouse d =
    elim (Option-cases (find_stock o product warehouse d)) [
      | inl e ↦ ground (arith, e)
      | inr (l, e) ↦ ground (arith, e)
    ]

insert_item-transfers :
    (o transfer product source destination : ℕ) (quantity : ℤ) (db after : Db)
    → insert_item o transfer product source destination quantity db ≡ ok (tt, after)
    → after.transfers ≡ db.transfers
unfolding insert_item
insert_item-transfers o transfer product source destination quantity db after h =
    elim (Option-cases (first (is_item_for o transfer product) db.transfer_items)) [
      | inl e ↦ ground (arith, e, h)
      | inr (i, e) ↦ absurd (ground (arith, e, h))
    ]

add_item-transfers :
    (o transfer source destination : ℕ) (i : TransferItemInput) (db after : Db)
    → add_item o transfer source destination i db ≡ ok (tt, after)
    → after.transfers ≡ db.transfers
unfolding add_item
add_item-transfers o transfer source destination i db after h =
    let mid = ensure_level o i.product_id destination db in
    elim (Option-cases (find_product o i.product_id db)) [
      | inl e ↦ absurd (ground (arith, e, h))
      | inr (p, e) ↦ elim (Option-cases (find_stock o i.product_id source db)) [
        | inl f ↦ absurd (ground (arith, e, f, h))
        | inr (s, f) ↦ elim (Option-cases (find_stock o i.product_id destination mid)) [
          | inl g ↦ absurd (ground (arith, e, f, g, h))
          | inr (d, g) ↦
              insert_item-transfers o transfer i.product_id s.id d.id i.quantity mid after
                (ground (arith, e, f, g, h))
              ∙ ensure_level-transfers o i.product_id destination db
        ]
      ]
    ]

add_items-transfers :
    (o transfer source destination : ℕ) (is : List TransferItemInput) (db after : Db)
    → add_items o transfer source destination is db ≡ ok (tt, after)
    → after.transfers ≡ db.transfers
unfolding add_items
add_items-transfers o transfer source destination [] db after h = ground (arith, h)
add_items-transfers o transfer source destination (i ∷ is) db after h =
    let (u, mid, added, rest) =
      after_first (add_item o transfer source destination i)
        (λ _. add_items o transfer source destination is) db h in
    add_items-transfers o transfer source destination is mid after rest
    ∙ add_item-transfers o transfer source destination i db mid added

lock_warehouse-Reads : (o id : ℕ) → Reads (lock_warehouse o id)
unfolding lock_warehouse
lock_warehouse-Reads o id db = elim (Option-cases (find_warehouse o id db)) [
  | inl e ↦ inl (TransferError.not_found, ground (arith, e))
  | inr (w, e) ↦ inr (tt, ground (arith, e))
]

lock_warehouses-Reads : (o one two : ℕ) → Reads (lock_warehouses o one two)
unfolding lock_warehouses
lock_warehouses-Reads o one two = elim (Bool-cases (ltb two one)) [
  | inl e ↦ rw e (Reads-bind _ _ (lock_warehouse-Reads o two) (λ u. lock_warehouse-Reads o one))
  | inr e ↦ rw e (Reads-bind _ _ (lock_warehouse-Reads o one) (λ u. lock_warehouse-Reads o two))
]

-- A new transfer that was filled can be read afterwards as it was returned.
fill_transfer-get :
    (o user id : ℕ) (input : CreateInput) (db after : Db) (view : TransferView)
    → fill_transfer o user id input db ≡ ok (view, after)
    → (get_transfer o id after ≡ ok (view, after)) × (after.transfers ≡ db.transfers)
unfolding fill_transfer append_event
fill_transfer-get o user id input db after view h =
    let s = input.source_warehouse_id in
    let d = input.destination_warehouse_id in
    elim (lock_warehouses-Reads o s d db) [
      | inl (x, e) ↦ absurd (ground (arith, e, h))
      | inr (u, e) ↦ elim (Option-cases (find_warehouse o s db)) [
        | inl f ↦ absurd (ground (arith, e, f, h))
        | inr (sw, f) ↦ elim (Option-cases (find_warehouse o d db)) [
          | inl g ↦ absurd (ground (arith, e, f, g, h))
          | inr (dw, g) ↦ elim (Result-cases (add_items o id s d input.items db)) [
            | inl (x, k) ↦ absurd (ground (arith, e, f, g, k, h))
            | inr ((v, added), k) ↦ elim (get_transfer-Reads o id added) [
              | inl (x, m) ↦ absurd (ground (arith, e, f, g, k, m, h))
              | inr (read, m) ↦
                  let tables : after ≡ record added { audit_events = after.audit_events } =
                    ground (arith, e, f, g, k, m, h) in
                  let same : read ≡ view = ground (arith, e, f, g, k, m, h) in
                  (
                    subst (λ x. get_transfer o id x ≡ ok (view, x)) (sym tables)
                        (get_transfer_logged o id added after.audit_events view
                          (m ∙ ap (λ r. ok (r, added)) same)),
                    ap (λ x. x.transfers) tables
                        ∙ add_items-transfers o id s d input.items db added k,
                  )
            ]
          ]
        ]
      ]
    ]

-- The run of `Create` with a key that is in use.
replay_run :
    (o user : ℕ) (key hash : String) (input : CreateInput) (db : Db) (t : Transfer)
    → (input.source_warehouse_id == input.destination_warehouse_id) ≡ false
    → first (has_creation_key o key) db.transfers ≡ some t
    → text_eq t.creation_request_hash hash ≡ true
    → create o user key hash input db ≡ get_transfer o t.id db
unfolding create
replay_run o user key hash input db t other found same = ground (arith, other, found, same)

-- A replay that succeeds can be repeated.
replay_again :
    (o user late : ℕ) (key hash : String) (input : CreateInput) (db after : Db)
    (view : TransferView) (t : Transfer)
    → (input.source_warehouse_id == input.destination_warehouse_id) ≡ false
    → first (has_creation_key o key) db.transfers ≡ some t
    → create o user key hash input db ≡ ok (view, after)
    → create o late key hash input after ≡ ok (view, after)
unfolding create
replay_again o user late key hash input db after view t other found h =
    let same : text_eq t.creation_request_hash hash ≡ true = ground (arith, other, found, h) in
    let run = λ (who : ℕ). replay_run o who key hash input db t other found same in
    elim (get_transfer-Reads o t.id db) [
      | inl (x, r) ↦ absurd (ground (arith, sym (run user) ∙ h, r))
      | inr (v, r) ↦
          let still : db ≡ after = ground (arith, sym r ∙ sym (run user) ∙ h) in
          subst (λ d. create o late key hash input d ≡ ok (view, after)) still
            (run late ∙ sym (run user) ∙ h)
    ]

-- What a creation with a new key leaves.
create-filled :
    (o user : ℕ) (key hash : String) (input : CreateInput) (db after : Db) (view : TransferView)
    → first (has_creation_key o key) db.transfers ≡ none
    → create o user key hash input db ≡ ok (view, after)
    → fill_transfer o user db.next_id input (record db {
      transfers = db.transfers ++ new_transfer db.next_id o user key hash input ∷ [];
      next_id = suc db.next_id;
    })
      ≡ ok (view, after)
unfolding create insert_transfer
create-filled o user key hash input db after view unused h =
    elim (Bool-cases (input.source_warehouse_id == input.destination_warehouse_id)) [
      | inl x ↦ absurd (ground (arith, x, h))
      | inr x ↦ elim (Option-cases (find_warehouse o input.source_warehouse_id db)) [
        | inl e ↦ absurd (ground (arith, x, unused, e, h))
        | inr (s, e) ↦ elim (Option-cases (find_warehouse o input.destination_warehouse_id db)) [
          | inl f ↦ absurd (ground (arith, x, unused, e, f, h))
          | inr (d, f) ↦ ground (arith, x, unused, e, f, h)
        ]
      ]
    ]

-- Creating a transfer is idempotent: on the tables that a request has left, the same request, by
-- whichever user, returns the same transfer again and leaves the tables as they are.
pub create_again :
    (o user late : ℕ) (key hash : String) (input : CreateInput) (db after : Db)
    (view : TransferView)
    → create o user key hash input db ≡ ok (view, after)
    → create o late key hash input after ≡ ok (view, after)
unfolding create
create_again o user late key hash input db after view h =
    elim (Bool-cases (input.source_warehouse_id == input.destination_warehouse_id)) [
      | inl x ↦ absurd (ground (arith, x, h))
      | inr x ↦ elim (Option-cases (first (has_creation_key o key) db.transfers)) [
        | inr (t, e) ↦ replay_again o user late key hash input db after view t x e h
        | inl e ↦
            let t = new_transfer db.next_id o user key hash input in
            let (read, transfers) =
              fill_transfer-get o user db.next_id input _ after view
                (create-filled o user key hash input db after view e h) in
            let found =
              ap (first (has_creation_key o key)) transfers
              ∙ first-append (has_creation_key o key) db.transfers t e
                  (ground (arith, eq_refl key)) in
            replay_run o late key hash input after t x found (eq_refl hash) ∙ read
      ]
    ]
