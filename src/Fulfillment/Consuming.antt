-- ===== src/Fulfillment/Consuming.antt =====
-- The loop of `Complete` that records the items and movements and consumes the reservations.
use mathlib.Core.Path.{subst}
use flowcart.Prelude.{
  ℕ, suc, refl, ap, true, false, ◌+◌, ◌≡◌, ◌≢◌, sym, inl, inr, ◌&&◌, some, List, [], ◌∷◌, ◌++◌,
  arith, ◌==◌, if◌then◌else◌, first, first-update_other, update, All, Apart, Bool-cases,
  Option-cases, ok,
}
use flowcart.Database.{Db, Clock, Reservation, after_first}
use flowcart.Database.Stock.{reserved_on}
use flowcart.Database.Stock.Laws.{first_holds}
use flowcart.Database.Stock.Slack.{AllStock, AllStock-step}
use flowcart.Database.Ledger.{brought_in, taken_out, brought_in-append, taken_out-append}
use flowcart.Transfer.Moving.{minus_part}
use flowcart.Fulfillment.Model.{ReservationRecord}
use flowcart.Fulfillment.Completing.{
  is_item_of_reservation, is_movement_of_reservation, is_committed_with, fulfillment_item,
  fulfillment_movement, consume, ship_record, ship_records,
}
use flowcart.Fulfillment.Quantities.{pending}

-- What the records of an organization still are to take of each level.
abbrev pub pending_from : ℕ → List ReservationRecord → ℕ → ℕ → ℕ
pending_from o rs p j = if o == p then pending j rs else 0

-- A record is of a reservation that is committed.
abbrev pub IsHeld : ℕ → List Reservation → ReservationRecord → Type 0
IsHeld o rows r =
    (row : Reservation) × (first (is_committed_with o r.id) rows ≡ some row)
    × (row.quantity ≡ r.quantity)
    × (row.inventory_level_id ≡ r.inventory_level_id)

abbrev pub OtherRecord : ReservationRecord → ReservationRecord → Type 0
OtherRecord a b = a.id ≢ b.id

-- Two reservations have different keys.
abbrev pub OtherReservation : Reservation → Reservation → Type 0
OtherReservation a b = (a.organization_id == b.organization_id && a.id == b.id) ≡ false

abbrev pub UniqueReservations : List Reservation → Type 0
UniqueReservations = Apart OtherReservation

others_untouched :
    (o id : ℕ) (r : Reservation) (rows : List Reservation)
    → is_committed_with o id r ≡ true
    → All (OtherReservation r) rows
    → update (is_committed_with o id) consume rows ≡ rows
others_untouched o id r [] e other = refl
others_untouched o id r (x ∷ rows) e other =
    let unmatched : is_committed_with o id x ≡ false = ground (arith, e, other.0) in
    rw unmatched (ap (λ xs. x ∷ xs) (others_untouched o id r rows e other.1))

-- Consuming a reservation frees what it held of its level.
reserved_on-consume :
    (time o id p j : ℕ) (row : Reservation) (rows : List Reservation)
    → UniqueReservations rows
    → first (is_committed_with o id) rows ≡ some row
    → reserved_on time p j (update (is_committed_with o id) consume rows)
        + (if o == p && row.inventory_level_id == j then row.quantity else 0)
      ≡ reserved_on time p j rows
unfolding reserved_on
reserved_on-consume time o id p j row [] unique e = absurd (ground (arith, e))
reserved_on-consume time o id p j row (r ∷ rows) unique e =
    elim (Bool-cases (is_committed_with o id r)) [
      | inl f ↦
          let same : r ≡ row = ground (arith, e, f) in
          let rest = ap (reserved_on time p j) (others_untouched o id r rows f unique.0) in
          rw f (ground (arith, sym same, rest, f))
      | inr f ↦ rw f (
          omega (arith, reserved_on-consume time o id p j row rows unique.1 (ground (arith, e, f))))
    ]

others-consume :
    (o id : ℕ) (r : Reservation) (rows : List Reservation)
    → All (OtherReservation r) rows
    → All (OtherReservation r) (update (is_committed_with o id) consume rows)
others-consume o id r [] h = tt
others-consume o id r (x ∷ rows) h = elim (Bool-cases (is_committed_with o id x)) [
  | inl e ↦ rw e (h.0, others-consume o id r rows h.1)
  | inr e ↦ rw e (h.0, others-consume o id r rows h.1)
]

unique-consume :
    (o id : ℕ) (rows : List Reservation)
    → UniqueReservations rows
    → UniqueReservations (update (is_committed_with o id) consume rows)
unique-consume o id [] h = tt
unique-consume o id (r ∷ rows) h = elim (Bool-cases (is_committed_with o id r)) [
  | inl e ↦ rw e (others-consume o id r rows h.0, unique-consume o id rows h.1)
  | inr e ↦ rw e (others-consume o id r rows h.0, unique-consume o id rows h.1)
]

module _ (clock : Clock) (o user completed order : ℕ) where
  pub record IsConsumed (r : ReservationRecord) (db after : Db) : Type 0 where
    pub row : Reservation
    pub found : first (is_committed_with o r.id) db.reservations ≡ some row
    pub tables : after ≡ record db {
      fulfillment_items =
          db.fulfillment_items ++ fulfillment_item db.next_id o completed order r ∷ [];
      movements =
          db.movements ++ fulfillment_movement clock (suc db.next_id) o user completed r ∷ [];
      reservations = update (is_committed_with o r.id) consume db.reservations;
      next_id = suc (suc db.next_id);
    }

  pub ship_record-IsConsumed :
      (r : ReservationRecord) (db after : Db)
      → ship_record clock o user completed order r db ≡ ok (tt, after)
      → IsConsumed r db after
  unfolding ship_record
  ship_record-IsConsumed r db after h =
      elim (Option-cases (first (is_item_of_reservation o r.id) db.fulfillment_items)) [
        | inr (i, e) ↦ absurd (ground (arith, e, h))
        | inl e ↦ elim (Option-cases (first (is_movement_of_reservation o r.id) db.movements)) [
          | inr (m, f) ↦ absurd (ground (arith, e, f, h))
          | inl f ↦ elim (Option-cases (first (is_committed_with o r.id) db.reservations)) [
            | inl g ↦ absurd (ground (arith, e, f, g, h))
            | inr (row, g) ↦ record { row = row; found = g; tables = ground (arith, e, f, g, h) }
          ]
        ]
      ]

  -- The rule of the loop.
  pub ship_records-keeps :
      (P : List ReservationRecord → Db → Type 0)
      → ((r : ReservationRecord) (rs : List ReservationRecord) (db after : Db)
          → P (r ∷ rs) db
          → IsConsumed r db after
          → P rs after)
      → (rs : List ReservationRecord) (db after : Db) → P rs db
      → ship_records clock o user completed order rs db ≡ ok (tt, after)
      → P [] after
  unfolding ship_records
  ship_records-keeps P step [] db after p h = subst (P []) (ground (arith, h)) p
  ship_records-keeps P step (r ∷ rs) db after p h =
      let (u, mid, shipped, rest) =
        after_first (ship_record clock o user completed order r)
          (λ _. ship_records clock o user completed order rs) db h in
      ship_records-keeps P step rs mid after
        (step r rs db mid p (ship_record-IsConsumed r db mid shipped)) rest

  -- The stock with what is left to take is what is reserved, and what was free.
  abbrev pub AreHeld : (ℕ → ℕ → ℕ) → ℕ → List ReservationRecord → Db → Type 0
  AreHeld free time rs db =
      AllStock (λ p j h. reserved_on time p j db.reservations + free p j ≡ h) (pending_from o rs)
        db.levels
      × All (IsHeld o db.reservations) rs
      × Apart OtherRecord rs
      × UniqueReservations db.reservations

  IsHeld-others :
      (id : ℕ) (rows : List Reservation) (rs : List ReservationRecord)
      → All (λ r. id ≢ r.id) rs
      → All (IsHeld o rows) rs
      → All (IsHeld o (update (is_committed_with o id) consume rows)) rs
  IsHeld-others id rows [] other held = tt
  IsHeld-others id rows (r ∷ rs) other held =
      let (row, found, quantity, level) = held.0 in
      let here =
        first-update_other (is_committed_with o r.id) (is_committed_with o id) consume
          (λ x e. ground (arith, e, other.0)) rows found in
      (
        (
          row,
          ground (arith, here, first_holds (is_committed_with o r.id) rows found, other.0),
          quantity,
          level,
        ),
        IsHeld-others id rows rs other.1 held.1,
      )

  pub consumed-AreHeld :
      (free : ℕ → ℕ → ℕ) (time : ℕ) (r : ReservationRecord) (rs : List ReservationRecord)
      (db after : Db)
      → AreHeld free time (r ∷ rs) db
      → IsConsumed r db after
      → AreHeld free time rs after
  consumed-AreHeld free time r rs db after (stock, held, apart, unique) c =
      let (row, found, quantity, level) = held.0 in
      rw c.tables (
        AllStock-step (λ p j h. reserved_on time p j db.reservations + free p j ≡ h)
            (λ p j h.
              reserved_on time p j (update (is_committed_with o r.id) consume db.reservations)
                + free p j
              ≡ h)
            (pending_from o (r ∷ rs)) (pending_from o rs)
            (λ p j h even. ground (
              arith,
              even,
              quantity,
              level,
              reserved_on-consume time o r.id p j row db.reservations unique found,
            ))
            db.levels stock,
        IsHeld-others r.id db.reservations rs apart.0 held.1,
        apart.1,
        unique-consume o r.id db.reservations unique,
      )

  -- The movements account for what is taken, once what is left to take is.
  abbrev pub AreCounted : (ℕ → ℕ → ℕ) → List ReservationRecord → Db → Type 0
  AreCounted opening rs db =
      AllStock (λ p j h. h + taken_out p j db.movements ≡ opening p j + brought_in p j db.movements)
        (pending_from o rs) db.levels

  pub consumed-AreCounted :
      (opening : ℕ → ℕ → ℕ) (r : ReservationRecord) (rs : List ReservationRecord) (db after : Db)
      → AreCounted opening (r ∷ rs) db
      → IsConsumed r db after
      → AreCounted opening rs after
  unfolding taken_out brought_in
  consumed-AreCounted opening r rs db after stock c =
      let m = fulfillment_movement clock (suc db.next_id) o user completed r in
      rw c.tables (
        AllStock-step
          (λ p j h. h + taken_out p j db.movements ≡ opening p j + brought_in p j db.movements)
          (λ p j h.
            h + taken_out p j (db.movements ++ m ∷ [])
            ≡ opening p j + brought_in p j (db.movements ++ m ∷ []))
          (pending_from o (r ∷ rs)) (pending_from o rs)
          (λ p j h even. ground (
            arith,
            even,
            minus_part r.quantity,
            taken_out-append p j db.movements m,
            brought_in-append p j db.movements m,
          ))
          db.levels stock)
