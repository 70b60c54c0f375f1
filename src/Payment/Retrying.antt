-- ===== src/Payment/Retrying.antt =====
-- The retries of a payment that waits for the provider: `Schedule`.
use Prim.Native.String.{◌++◌ as text_append}
use flowcart.Prelude.{
  ℕ, zero, suc, ◌+◌, ◌*◌, ◌^◌, ◌⊎◌, none, ◌-◌, ◌<◌, ◌≤◌, String, Bool, true, false, not, ◌&&◌, ◌≡◌,
  refl, ap, ◌∙◌, inl, inr, some, arith, first, update, Bool-cases, ok, if◌then◌else◌, first-update,
  leb,
}
use flowcart.Database.{Db, Clock}
use flowcart.Database.Sales.{Payment, CloseReason}
use flowcart.Database.Stock.Laws.{first_holds}
use flowcart.Order.Cancelling.{is_pending_payment}
use flowcart.Payment.Aggregate.{is_payment, find_payment, needing_attention, set_payment}
use flowcart.Payment.Changing.{mutate_payment-change, is_payment-parts, find_payment-along}
use flowcart.Payment.Checkout.{is_some_text}
use flowcart.Payment.Retries.{retry_limit, retry_delay, rescheduled, retry, schedule}

-- The provider is still to be asked about the payment.
abbrev pub is_waiting : Payment → Bool
is_waiting p = is_pending_payment p.status && not (is_some_text p.attention_reason)

-- The delays start with half a minute and double up to half an hour.
abbrev pub IsDelay : ℕ → ℕ → Type 0
IsDelay attempts delay =
    ((attempts < 6) × (delay ≡ 30 * 2 ^ attempts)) ⊎ ((6 ≤ attempts) × (delay ≡ 1800))

retry_delay-IsDelay : (n : ℕ) → IsDelay n (retry_delay n)
unfolding retry_delay
retry_delay-IsDelay zero = inl (omega arith, refl)
retry_delay-IsDelay (suc zero) = inl (omega arith, refl)
retry_delay-IsDelay (suc (suc zero)) = inl (omega arith, refl)
retry_delay-IsDelay (suc (suc (suc zero))) = inl (omega arith, refl)
retry_delay-IsDelay (suc (suc (suc (suc zero)))) = inl (omega arith, refl)
retry_delay-IsDelay (suc (suc (suc (suc (suc zero))))) = inl (omega arith, refl)
retry_delay-IsDelay (suc (suc (suc (suc (suc (suc n)))))) = inr (omega arith, ground arith)

-- What `Schedule` leaves of a payment: it is put off, and the longer the more often it has been, or
-- it asks for attention after its last attempt.
pub data IsRetried (clock : Clock) (reason : String) (old new : Payment) : Type 0 where
  left_alone : is_waiting old ≡ false → new ≡ old → IsRetried clock reason old new
  given_up :
      is_waiting old ≡ true
      → retry_limit ≤ old.reconcile_attempts
      → new ≡ record old {
        attention_reason = some (text_append "retry_exhausted_" reason);
        close_reason = some CloseReason.manual_attention;
        next_reconcile_at = none;
      }
      → IsRetried clock reason old new
  put_off :
      is_waiting old ≡ true
      → old.reconcile_attempts < retry_limit
      → (delay : ℕ) → IsDelay old.reconcile_attempts delay
      → new ≡ record old {
        reconcile_attempts = old.reconcile_attempts + 1;
        next_reconcile_at = some (clock.reading + delay);
      }
      → IsRetried clock reason old new

-- A change of a payment's row is what is read of it afterwards.
set_payment-found :
    (o id : ℕ) (f : Payment → Payment) (db after : Db) (p q : Payment)
    → ((x : Payment) → is_payment o id x ≡ true → is_payment o id (f x) ≡ true)
    → find_payment o id db ≡ some p
    → set_payment o id f db ≡ ok (tt, after)
    → find_payment o id after ≡ some q
    → q ≡ f p
set_payment-found o id f db after p q stays found h now =
    let rows : after.payments ≡ update (is_payment o id) f db.payments = ground (arith, h) in
    let read : find_payment o id after ≡ some (f p) =
      ap (first (is_payment o id)) rows
      ∙ first-update (is_payment o id) f stays db.payments found in
    ground (arith, now, read)

retry-IsRetried :
    (clock : Clock) (p old q : Payment) (reason : String) (db after : Db)
    → find_payment p.organization_id p.id db ≡ some old
    → retry clock p reason old db ≡ ok (tt, after)
    → find_payment p.organization_id p.id after ≡ some q
    → IsRetried clock reason old q
retry-IsRetried clock p old q reason db after found changed now =
    let (org, id) =
      is_payment-parts p.organization_id p.id old
        (first_holds (is_payment p.organization_id p.id) db.payments found) in
    elim (Bool-cases (is_waiting old)) [
      | inr a ↦
          let same : db ≡ after = ground (arith, a, changed) in
          left_alone a (
            ground
              (arith, now, found ∙ ap some refl, ap (find_payment p.organization_id p.id) same))
      | inl a ↦ elim (Bool-cases (leb retry_limit old.reconcile_attempts)) [
        | inl b ↦
            let stopped : set_payment old.organization_id old.id
                  (needing_attention (text_append "retry_exhausted_" reason)) db
                ≡ ok (tt, after) =
              ground (arith, a, b, changed) in
            given_up a (ground (arith, b)) (
              set_payment-found old.organization_id old.id
                (needing_attention (text_append "retry_exhausted_" reason)) db after old q
                (λ x k. k) (find_payment-along org id db old found) stopped
                (find_payment-along org id after q now))
        | inr b ↦
            put_off a (ground (arith, b)) (retry_delay old.reconcile_attempts)
              (retry_delay-IsDelay old.reconcile_attempts)
              (set_payment-found p.organization_id p.id (rescheduled clock.reading) db after old q
                (λ x k. k) found (ground (arith, a, b, changed)) now)
      ]
    ]

-- A success of `Schedule` answers with the payment as it then stands. One that waits has one more
-- attempt counted and is due again after half a minute, doubled with each of the first six attempts
-- and half an hour from the seventh on; after twenty attempts it asks for attention, and is not due
-- any more. Any other payment is left as it was.
pub schedule-IsRetried :
    (clock : Clock) (p q : Payment) (reason : String) (db after : Db)
    → schedule clock p reason db ≡ ok (q, after)
    → (old : Payment) × (find_payment p.organization_id p.id db ≡ some old)
      × (find_payment p.organization_id p.id after ≡ some q)
      × IsRetried clock reason old q
unfolding schedule
schedule-IsRetried clock p q reason db after h =
    let (old, state, found, locked, changed, kept) =
      mutate_payment-change p.organization_id p.id (λ current state. retry clock p reason current)
        db after q h in
    (old, found, kept, retry-IsRetried clock p old q reason db after found changed kept)

-- how often a payment may still be retried
abbrev pub retries_left : Payment → ℕ
retries_left p = if is_waiting p then suc (retry_limit - p.reconcile_attempts) else 0

-- Retries of one payment while it waits, each at its own time, and nothing else between them.
pub data Retries (p : Payment) : ℕ → Db → Db → Type 0 where
  done : (db : Db) → Retries p 0 db db
  again :
      (clock : Clock) (reason : String) (old q : Payment) (n : ℕ) (db mid after : Db)
      → find_payment p.organization_id p.id db ≡ some old
      → is_waiting old ≡ true
      → schedule clock p reason db ≡ ok (q, mid)
      → Retries p n mid after
      → Retries p (suc n) db after

IsRetried-descends :
    (clock : Clock) (reason : String) (old q : Payment)
    → is_waiting old ≡ true
    → IsRetried clock reason old q
    → retries_left q < retries_left old
IsRetried-descends clock reason old q waits (left_alone a e) = absurd (ground (arith, waits, a))
IsRetried-descends clock reason old q waits (given_up a b e) = rw (e, waits) (ground (arith, a, b))
IsRetried-descends clock reason old q waits (put_off a b delay known e) =
    rw (e, waits) (ground (arith, a, b))

-- The retries of a payment come to an end. In a row, whatever their times, there are no more of
-- them than are left of twenty attempts and the one that asks for attention; none is made of a
-- payment that does not wait.
pub Retries-end :
    (p old : Payment) (n : ℕ) (db after : Db)
    → find_payment p.organization_id p.id db ≡ some old
    → Retries p n db after
    → n ≤ retries_left old
Retries-end p old zero _ _ found (done db) = omega arith
Retries-end p old (suc _) _ _ found
      (again clock reason row q n db mid after there waits step rest) =
    let (first_row, at, kept, how) = schedule-IsRetried clock p q reason db mid step in
    let same : first_row ≡ row = ground (arith, at, there) in
    let mine : row ≡ old = ground (arith, found, there) in
    let less : retries_left q < retries_left row =
      IsRetried-descends clock reason row q waits (rw same at how) in
    let more : n ≤ retries_left q = Retries-end p q n mid after kept rest in
    let most : suc n ≤ retries_left row = omega (arith, less, more) in rw mine at most
