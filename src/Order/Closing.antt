-- ===== src/Order/Closing.antt =====
-- What the cancellation of an order does.
use flowcart.Prelude.{
  ℕ, ◌&&◌, Option, none, if◌then◌else◌, leb, ◌≡◌, refl, inl, inr, ◌⊎◌, true, false, some, List, [],
  ◌∷◌, arith, first-update, update, select, All, Bool-cases, Option-cases, ok,
}
use flowcart.Database.{Db, Clock, Reservation, expired, released}
use flowcart.Database.Reads.{Reads, Reads-bind, Reads-or_throw}
use flowcart.Database.Sales.{Order, OrderItem, OrderStatus, PaymentStatus, CloseReason}
use flowcart.Database.Stock.{find_level, is_active_status}
use flowcart.Inventory.Repository.{let_go}
use flowcart.Order.Model.{OrderView, not_found}
use flowcart.Order.Reading.{is_order, find_order}
use flowcart.Order.Cancelling.{
  levels_of_order, request_cancel, lock_order_levels, is_payment_of, is_succeeded, has_provider,
  any_payment, is_pending_payment, is_for_order, is_pending_order, request_order_cancel,
  is_active_of, cancel_order, cancel_now, cancel,
}
use flowcart.Order.Filled.{get_order-Reads}

pub lock_order_levels-Reads :
    {E : Type 0} (o : ℕ) (failure : E) (ids : List ℕ) → Reads (lock_order_levels o failure ids)
unfolding lock_order_levels
lock_order_levels-Reads o failure [] = λ db. inr (tt, refl)
lock_order_levels-Reads o failure (id ∷ ids) =
    Reads-bind _ _ (Reads-or_throw (find_level o id) failure)
      (λ l. lock_order_levels-Reads o failure ids)

-- The time that is kept, of one that may be set already.
abbrev pub first_time : ℕ → Option ℕ → Option ℕ
first_time now none = some now
first_time now (some time) = some time

module _ (clock : Clock) (o id : ℕ) (db : Db) where
  -- Nothing is changed of an order that is no longer pending.
  pub record IsSettled (order : Order) (after : Db) : Type 0 where
    pub settled : is_pending_order order.status ≡ false
    pub same : after ≡ db

  -- The cancellation is only requested of an order whose payment is at a provider.
  pub record IsRequested (order : Order) (after : Db) : Type 0 where
    pub pending : is_pending_order order.status ≡ true
    pub provider : any_payment has_provider (select (is_payment_of o id) db.payments) ≡ true
    pub row :
        find_order o id after
        ≡ some
            (record order { cancel_requested_at = first_time clock.now order.cancel_requested_at })
    pub orders :
        after.orders
        ≡ update
            (is_order o id)
            (λ x. record x { cancel_requested_at = first_time clock.now x.cancel_requested_at })
            db.orders
    pub payments :
        after.payments
        ≡ update
            (λ p. is_payment_of o id p && is_pending_payment p.status)
            (λ p. record p {
              cancel_requested_at = first_time clock.now p.cancel_requested_at;
              close_reason = some CloseReason.customer;
              next_reconcile_at = some clock.now;
            })
            db.payments
    pub rest : after ≡ record db { orders = after.orders; payments = after.payments }

  -- Else the order is cancelled, and none of its reservations is active any more.
  pub record IsClosed (order : Order) (after : Db) : Type 0 where
    pub pending : is_pending_order order.status ≡ true
    pub provider : any_payment has_provider (select (is_payment_of o id) db.payments) ≡ false
    pub row :
        find_order o id after
        ≡ some (record order { status = OrderStatus.cancelled; cancelled_at = some clock.now })
    pub orders :
        after.orders
        ≡ update
            (is_order o id)
            (λ x. record x { status = OrderStatus.cancelled; cancelled_at = some clock.now })
            db.orders
    pub payments :
        after.payments
        ≡ update
            (λ p. is_payment_of o id p && is_pending_payment p.status)
            (λ p. record p { status = PaymentStatus.cancelled })
            db.payments
    pub reservations :
        after.reservations
        ≡ update
            (λ r. is_for_order o id db.order_items r && is_active_status r.status)
            (λ r.
              if leb r.expires_at clock.now
              then record r { status = expired; expired_at = some clock.now }
              else record r { status = released; released_at = some clock.now })
            db.reservations
    pub freed : All (λ r. is_active_of o id db.order_items r ≡ false) after.reservations
    pub rest : after ≡ record db {
      orders = after.orders;
      payments = after.payments;
      reservations = after.reservations;
    }

  abbrev pub Outcome : Db → Type 0
  Outcome after =
      (order : Order) × (find_order o id db ≡ some order)
      × (any_payment (λ p. is_succeeded p.status) (select (is_payment_of o id) db.payments) ≡ false)
      × (IsSettled order after ⊎ (IsRequested order after ⊎ IsClosed order after))

  freed-All :
      (now : ℕ) (items : List OrderItem) (rs : List Reservation)
      → All
          (λ r. is_active_of o id items r ≡ false)
          (update (is_active_of o id items) (let_go now) rs)
  freed-All now items [] = tt
  freed-All now items (r ∷ rs) = elim (Bool-cases (is_active_of o id items r)) [
    | inl e ↦ rw e (ground arith, freed-All now items rs)
    | inr e ↦ rw e (e, freed-All now items rs)
  ]

  -- A cancellation that succeeds found no payment of the order that succeeded. It changes nothing
  -- for an order that is not pending. Where a provider has a payment of it, the order and its pending
  -- payments keep the first time that a cancellation was requested, and the payments are due at once
  -- for the reason of the customer. Else the order and its pending payments are cancelled, and its
  -- active reservations are released, or expired when they are overdue. No other row changes.
  pub cancel-Outcome :
      (view : OrderView) (after : Db) → cancel clock o id db ≡ ok (view, after) → Outcome after
  unfolding cancel request_cancel cancel_now
  cancel-Outcome view after h =
      elim (lock_order_levels-Reads o not_found (levels_of_order o id db) db) [
        | inl (x, a) ↦ absurd (ground (arith, a, h))
        | inr (u, a) ↦ elim (Option-cases (find_order o id db)) [
          | inl b ↦ absurd (ground (arith, a, b, h))
          | inr (order, b) ↦
              let payments = select (is_payment_of o id) db.payments in
              elim (Bool-cases (any_payment (λ p. is_succeeded p.status) payments)) [
                | inl c ↦ absurd (ground (arith, a, b, c, h))
                | inr c ↦ (
                  order,
                  b,
                  c,
                  elim (Bool-cases (is_pending_order order.status)) [
                    | inr d ↦ elim (get_order-Reads o id db) [
                      | inl (x, e) ↦ absurd (ground (arith, a, b, c, d, e, h))
                      | inr (v, e) ↦
                          inl (record { settled = d; same = ground (arith, a, b, c, d, e, h) })
                    ]
                    | inl d ↦ elim (Bool-cases (any_payment has_provider payments)) [
                      | inl e ↦
                          let row =
                            first-update (is_order o id) (request_order_cancel clock.now) (λ x m. m)
                              db.orders b in
                          inr (
                            inl (record {
                              pending = d;
                              provider = e;
                              row = ground (arith, a, b, c, d, e, row, h);
                              orders = ground (arith, a, b, c, d, e, row, h);
                              payments = ground (arith, a, b, c, d, e, row, h);
                              rest = ground (arith, a, b, c, d, e, row, h);
                            }))
                      | inr e ↦ elim (get_order-Reads o id (cancel_now clock.now o id db)) [
                        | inl (x, f) ↦ absurd (ground (arith, a, b, c, d, e, f, h))
                        | inr (v, f) ↦
                            let row =
                              first-update (is_order o id) (cancel_order clock.now) (λ x m. m)
                                db.orders b in
                            let left : after ≡ cancel_now clock.now o id db =
                              ground (arith, a, b, c, d, e, f, h) in
                            inr (
                              inr (record {
                                pending = d;
                                provider = e;
                                row = rw left row;
                                orders = rw left refl;
                                payments = rw left refl;
                                reservations = rw left refl;
                                freed =
                                    rw left (freed-All clock.now db.order_items db.reservations);
                                rest = rw left refl;
                              }))
                      ]
                    ]
                  ],
                )
              ]
        ]
      ]
