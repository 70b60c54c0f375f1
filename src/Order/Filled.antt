-- ===== src/Order/Filled.antt =====
-- What a new order that was filled did, statement by statement.
use flowcart.Prelude.{
  ℕ, suc, String, ◌≡◌, refl, inl, inr, ◌⊎◌, true, none, some, List, [], ◌∷◌, ◌++◌, arith, ltb,
  first, map, sort_by, Bool-cases, Option-cases, Result-cases, Map, insert, Result, ok, err,
}
use text.Mathlib.Text.{◌==◌ as text_eq}
use flowcart.Database.{Db, Clock}
use flowcart.Database.Audit.{append_event}
use flowcart.Database.Reads.{Reads, Reads-bind, Reads-or_throw}
use flowcart.Database.Stock.{find_product}
use flowcart.Database.Sales.{Order, AllocationMethod}
use flowcart.Order.Model.{OrderError, not_found, CreateInput, OrderView}
use flowcart.Order.Reading.{find_order, get_order}
use flowcart.Order.Pricing.{
  PricingSnapshot, Totals, snapshot_of, lock_prices, lift, total_lines, no_totals,
}
use flowcart.Order.Placing.{has_key, new_order, insert_order, set_totals, insert_lines}
use flowcart.Order.Creating.{lock_stock, line_of, levels_of, products_in, fill_order, create}

pub get_order-Reads : (o id : ℕ) → Reads (get_order o id)
unfolding get_order
get_order-Reads o id =
    Reads-bind _ _ (Reads-or_throw (find_order o id) not_found) (λ order db. inr (_, refl))

lift-Reads : {A : Type 0} (r : Result OrderError A) → Reads (lift r)
lift-Reads (ok a) db = inr (a, refl)
lift-Reads (err e) db = inl (e, refl)

pub lock_prices-Reads :
    (o : ℕ) (ids : List ℕ) (prices : Map PricingSnapshot) → Reads (lock_prices o ids prices)
unfolding lock_prices
lock_prices-Reads o [] prices = λ db. inr (prices, refl)
lock_prices-Reads o (id ∷ ids) prices =
    Reads-bind _ _ (Reads-or_throw (find_product o id) not_found) (λ p.
      Reads-bind _ _ (lift-Reads (snapshot_of p))
        (λ s. lock_prices-Reads o ids (insert id s prices)))

module _ (clock : Clock) (o user id : ℕ) (input : CreateInput) (db : Db) where
  -- A new order that was filled.
  pub record IsFilled (view : OrderView) (after : Db) : Type 0 where
    pub products : Map ℕ
    pub locked : Db
    pub lock :
        lock_stock clock o input.items (sort_by ltb (levels_of input.items)) [] db
        ≡ ok (products, locked)
    pub prices : Map PricingSnapshot
    pub price : lock_prices o (sort_by ltb (products_in products)) [] locked ≡ ok (prices, locked)
    pub totals : Totals
    pub total : total_lines prices (map (line_of products) input.items) no_totals ≡ ok totals
    pub set : Db
    pub setting : set_totals o id totals locked ≡ ok (tt, set)
    pub placed : Db
    pub place : insert_lines clock o id totals.lines set ≡ ok (tt, placed)
    pub read : get_order o id placed ≡ ok (view, placed)
    pub tables : after ≡ record placed { audit_events = after.audit_events }

  pub fill_order-IsFilled :
      (view : OrderView) (after : Db)
      → fill_order clock o user id input db ≡ ok (view, after)
      → IsFilled view after
  unfolding fill_order append_event
  fill_order-IsFilled view after h =
      elim (Result-cases
        (lock_stock clock o input.items (sort_by ltb (levels_of input.items)) [] db)) [
          | inl (x, a) ↦ absurd (ground (arith, a, h))
          | inr ((products, locked), a) ↦
              elim (lock_prices-Reads o (sort_by ltb (products_in products)) [] locked) [
                | inl (x, b) ↦ absurd (ground (arith, a, b, h))
                | inr (prices, b) ↦
                    elim (Result-cases
                      (total_lines prices (map (line_of products) input.items) no_totals)) [
                        | inl (x, c) ↦ absurd (ground (arith, a, b, c, h))
                        | inr (totals, c) ↦ elim (Result-cases (set_totals o id totals locked)) [
                          | inl (x, d) ↦ absurd (ground (arith, a, b, c, d, h))
                          | inr ((u, set), d) ↦
                              elim (Result-cases (insert_lines clock o id totals.lines set)) [
                                | inl (x, e) ↦ absurd (ground (arith, a, b, c, d, e, h))
                                | inr ((v, placed), e) ↦ elim (get_order-Reads o id placed) [
                                  | inl (x, f) ↦ absurd (ground (arith, a, b, c, d, e, f, h))
                                  | inr (read, f) ↦ record {
                                    products = products;
                                    locked = locked;
                                    lock = a;
                                    prices = prices;
                                    price = b;
                                    totals = totals;
                                    total = c;
                                    set = set;
                                    setting = d;
                                    placed = placed;
                                    place = e;
                                    read = ground (arith, a, b, c, d, e, f, h);
                                    tables = ground (arith, a, b, c, d, e, f, h);
                                  }
                                ]
                              ]
                        ]
                      ]
              ]
        ]

module _ (clock : Clock) (o user : ℕ) (key hash : String) (input : CreateInput) (db : Db) where
  -- An order that is there with the key, and is read.
  pub record IsReplayed (view : OrderView) (after : Db) : Type 0 where
    pub order : Order
    pub found : first (has_key o key) db.orders ≡ some order
    pub hashed : text_eq order.request_hash hash ≡ true
    pub read : get_order o order.id db ≡ ok (view, db)
    pub same : after ≡ db

  -- A new order that is filled.
  pub record IsPlaced (view : OrderView) (after : Db) : Type 0 where
    pub fresh : first (has_key o key) db.orders ≡ none
    pub filled :
        IsFilled clock o user db.next_id input
          (record db {
            orders =
                db.orders
                ++ new_order clock db.next_id o user key hash AllocationMethod.manual none ∷ [];
            next_id = suc db.next_id;
          })
          view
          after

  pub create-cases :
      (view : OrderView) (after : Db)
      → create clock o user key hash input db ≡ ok (view, after)
      → IsReplayed view after ⊎ IsPlaced view after
  unfolding create insert_order
  create-cases view after h = elim (Option-cases (first (has_key o key) db.orders)) [
    | inl e ↦ inr (record {
      fresh = e;
      filled =
          fill_order-IsFilled clock o user db.next_id input _ view after (ground (arith, e, h));
    })
    | inr (order, e) ↦ elim (Bool-cases (text_eq order.request_hash hash)) [
      | inl f ↦ elim (get_order-Reads o order.id db) [
        | inl (x, g) ↦ absurd (ground (arith, e, f, g, h))
        | inr (read, g) ↦ inl (record {
          order = order;
          found = e;
          hashed = f;
          read = ground (arith, e, f, g, h);
          same = ground (arith, e, f, g, h);
        })
      ]
      | inr f ↦ absurd (ground (arith, e, f, h))
    ]
  ]
