-- ===== src/Payment/Changing.antt =====
-- What an operation on a payment, `mutatePayment`, did when it succeeded.
use flowcart.Prelude.{ℕ, ◌≡◌, sym, ap, ◌∙◌, inl, inr, true, some, arith, Option-cases, ok}
use flowcart.Database.{Db, Tx, after_first}
use flowcart.Database.Reads.{after_read, after_found}
use flowcart.Database.Sales.{Order, Payment}
use flowcart.Order.Reading.{find_order}
use flowcart.Order.Cancelling.{levels_of_order, lock_order_levels}
use flowcart.Order.Closing.{lock_order_levels-Reads}
use flowcart.Payment.Model.{PaymentError, OrderState, database_error}
use flowcart.Payment.Aggregate.{
  is_payment, find_payment, lock_aggregate, mutate_payment, get_payment,
}
use flowcart.Payment.Covering.{lock_aggregate-Reads}

pub is_payment-parts :
    (o id : ℕ) (p : Payment) → is_payment o id p ≡ true → (p.organization_id ≡ o) × (p.id ≡ id)
is_payment-parts o id p h = (ground (arith, h), ground (arith, h))

pub find_payment-along :
    {o o' i i' : ℕ}
    → o' ≡ o
    → i' ≡ i
    → (db : Db) (p : Payment) → find_payment o i db ≡ some p
    → find_payment o' i' db ≡ some p
find_payment-along o i db p h = rw (o, i) h

pub lock_aggregate-row :
    (o order : ℕ) (state : OrderState) (db after : Db)
    → lock_aggregate o order db ≡ ok (state, after)
    → (row : Order) × (find_order o order db ≡ some row) × (row.status ≡ state.status)
unfolding lock_aggregate
lock_aggregate-row o order state db after h =
    let (u, locked, rest) =
      after_read (lock_order_levels o database_error (levels_of_order o order db)) _ db
        (lock_order_levels-Reads o database_error (levels_of_order o order db)) h in
    let (row, found, end) = after_found (find_order o order db) _ _ db rest in
    (row, found, ground (arith, end))

get_payment-found :
    (o id : ℕ) (db after : Db) (q : Payment)
    → get_payment o id db ≡ ok (q, after)
    → (find_payment o id db ≡ some q) × (db ≡ after)
get_payment-found o id db after q h = elim (Option-cases (find_payment o id db)) [
  | inl e ↦ absurd (ground (arith, e, h))
  | inr (p, e) ↦ (e ∙ ap some (ground (arith, e, h)), ground (arith, e, h))
]

-- What an operation on a payment that succeeded did.
pub mutate_payment-change :
    (o id : ℕ) (change : Payment → OrderState → Tx PaymentError (Unit {0})) (db after : Db)
    (q : Payment)
    → mutate_payment o id change db ≡ ok (q, after)
    → (p : Payment) × (state : OrderState) × (find_payment o id db ≡ some p)
      × (lock_aggregate o p.order_id db ≡ ok (state, db))
      × (change p state db ≡ ok (tt, after))
      × (find_payment o id after ≡ some q)
unfolding mutate_payment
mutate_payment-change o id change db after q h =
    let (p, found, h1) = after_found (find_payment o id db) _ _ db h in
    let (state, locked, h2) =
      after_read (lock_aggregate o p.order_id) _ db (lock_aggregate-Reads 0 o p.order_id) h1 in
    let (current, again, h3) = after_found (find_payment o id db) _ _ db h2 in
    let same : current ≡ p = ground (arith, found, again) in
    let (u, mid, changed, h4) = after_first (change current state) _ db h3 in
    let (there, left) = get_payment-found o id mid after q h4 in
    (
      p,
      state,
      found,
      locked,
      rw same at (changed ∙ ap (λ d. ok (tt, d)) left),
      ap (find_payment o id) (sym left) ∙ there,
    )
