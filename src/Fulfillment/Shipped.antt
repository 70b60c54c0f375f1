-- ===== src/Fulfillment/Shipped.antt =====
-- That `Complete` consumes the reservations that it is asked for.
use flowcart.Prelude.{ℕ, ◌≡◌, ◌⊎◌, none, List, first, All, Has}
use flowcart.Database.{Db, Clock, Reservation}
use flowcart.Fulfillment.Model.{ReservationRecord}
use flowcart.Fulfillment.Completing.{is_committed_with}

-- No reservation with the identifier is committed.
abbrev pub IsGone : ℕ → List Reservation → ℕ → Type 0
IsGone o rows id = first (is_committed_with o id) rows ≡ none

module _ (clock : Clock) (o user completed order : ℕ) (locked : List ReservationRecord) where
  -- Each record is still to come or its reservation is consumed.
  abbrev AreShipped : List ReservationRecord → Db → Type 0
  AreShipped rs db = All (λ r. Has r rs ⊎ IsGone o db.reservations r.id) locked
