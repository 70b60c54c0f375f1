-- ===== src/Payment/Aggregate.antt =====
-- What the operations of apps/api/internal/payment/checkout_repository.go share: the locks, the
-- coverage of an order by its reservations, and the frame of an operation on a payment.
use text.Mathlib.Text.{◌==◌ as text_eq}
use flowcart.Prelude.{
  ℕ, ◌+◌, String, Bool, true, false, not, ◌&&◌, Option, none, some, List, [], ◌∷◌, ◌==◌, ltb,
  length, first, update, select, if◌then◌else◌, pos, eqb_ℤ,
}
use flowcart.Database.{Db, Tx, Reservation, payment_held, ◌>>=◌, ◌>>◌, pure, gets, or_throw, modify}
use flowcart.Database.Sales.{OrderItem, Payment, CloseReason}
use flowcart.Database.Stock.{is_active_status}
use flowcart.Order.Reading.{find_order, is_order_item, is_for_item}
use flowcart.Order.Cancelling.{levels_of_order, lock_order_levels, is_for_order}
use flowcart.Payment.Model.{
  PaymentError, order_not_found, payment_not_found, database_error, ProviderIntent, OrderState,
}

abbrev pub is_payment : ℕ → ℕ → Payment → Bool
is_payment organization id p = p.organization_id == organization && p.id == id

abbrev pub find_payment : ℕ → ℕ → Db → Option Payment
find_payment organization id db = first (is_payment organization id) db.payments

-- `getPaymentTx`, and `Get`
abbrev pub get_payment : ℕ → ℕ → Tx PaymentError Payment
get_payment organization id db = or_throw (find_payment organization id db) payment_not_found db

-- `lockAggregate`; the locks of the payments and the reservations read nothing
unfoldable pub lock_aggregate : ℕ → ℕ → Tx PaymentError OrderState
unfolding lock_order_levels
lock_aggregate organization order = do
  levels ← gets (levels_of_order organization order)
  lock_order_levels organization database_error levels
  row ← (λ db. or_throw (find_order organization order db) order_not_found db)
  pure (record { status = row.status; cancel_requested_at = row.cancel_requested_at })

-- the two statuses that coverage is asked for
abbrev pub is_active_at : ℕ → Reservation → Bool
is_active_at time r = is_active_status r.status && ltb time r.expires_at

abbrev pub is_payment_held : Reservation → Bool
is_payment_held r = elim r.status [ payment_held ↦ true | _ ↦ false ]

-- `SUM(r.quantity) FILTER (WHERE …)` of an item
unfoldable pub covered_of : (Reservation → Bool) → ℕ → ℕ → List Reservation → ℕ
covered_of test organization item [] = 0
covered_of test organization item (r ∷ rs) =
    (if is_for_item organization item r && test r then r.quantity else 0)
    + covered_of test organization item rs

unfoldable pub items_covered : (Reservation → Bool) → List Reservation → List OrderItem → Bool
unfolding covered_of
items_covered test rs [] = true
items_covered test rs (i ∷ is) =
    covered_of test i.organization_id i.id rs == i.quantity && items_covered test rs is

-- `coverage`
unfoldable pub coverage : (Reservation → Bool) → ℕ → ℕ → Db → Bool
unfolding items_covered
coverage test organization order db =
    let items = select (is_order_item organization order) db.order_items in
    not (length items == 0) && items_covered test db.reservations items

-- an operation's change of its payment's row
abbrev pub set_payment : ℕ → ℕ → (Payment → Payment) → Tx PaymentError (Unit {0})
set_payment organization id f =
    modify (λ db. record db { payments = update (is_payment organization id) f db.payments })

-- a change of the reservations of an order
unfoldable pub set_reservations :
    ℕ → ℕ → (Reservation → Bool) → (Reservation → Reservation) → Tx PaymentError (Unit {0})
unfolding is_for_order
set_reservations organization order test f = modify (λ db. record db {
  reservations =
      update (λ r. is_for_order organization order db.order_items r && test r) f db.reservations;
})

-- `mutatePayment`
unfoldable pub mutate_payment :
    ℕ → ℕ → (Payment → OrderState → Tx PaymentError (Unit {0})) → Tx PaymentError Payment
unfolding lock_aggregate
mutate_payment organization id change = do
  payment ← get_payment organization id
  state ← lock_aggregate organization payment.order_id
  current ← get_payment organization id
  change current state
  get_payment organization id

abbrev pub needing_attention : String → Payment → Payment
needing_attention reason p = record p {
  attention_reason = some reason;
  close_reason = some CloseReason.manual_attention;
  next_reconcile_at = none;
}

-- `attention`
abbrev pub attention : Payment → String → Tx PaymentError (Unit {0})
attention p reason = set_payment p.organization_id p.id (needing_attention reason)

abbrev pub is_text : String → Option String → Bool
is_text s none = false
is_text s (some t) = text_eq t s

abbrev pub is_mode : Bool → Option Bool → Bool
is_mode mode none = false
is_mode true (some other) = other
is_mode false (some other) = not other

abbrev pub unbound_or : String → Option String → Bool
unbound_or id none = true
unbound_or id (some other) = text_eq other id

-- `matches`
unfoldable pub matches : Payment → ProviderIntent → Bool
matches p intent =
    is_text "stripe" p.provider_name
    && is_mode intent.livemode p.provider_livemode
    && eqb_ℤ (pos p.amount_minor) intent.amount
    && text_eq p.currency_code intent.currency
    && not (text_eq intent.id "")
    && unbound_or intent.id p.provider_payment_id
