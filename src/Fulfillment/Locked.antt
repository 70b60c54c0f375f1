-- ===== src/Fulfillment/Locked.antt =====
-- The records that `Complete` locks are of different reservations, each with its row.
use flowcart.Prelude.{
  ℕ, ◌≡◌, ◌≢◌, sym, inl, inr, ◌⊎◌, ◌∙◌, true, some, List, [], ◌∷◌, arith, ==_refl, first, select,
  sort_by, All, Apart, All-map, Has, All-Has, Has-self, Bool-cases, Option-cases, All-sort_by,
  Apart-sort_by,
}
use flowcart.Database.{Db, Reservation}
use flowcart.Database.Stock.{is_level, find_level}
use flowcart.Database.Stock.Laws.{first_holds}
use flowcart.Fulfillment.Model.{
  ReservationRecord, find_item, is_requested, record_joined, scan_reservations,
  discover_reservations, record_less, lock_reservations,
}
use flowcart.Fulfillment.Completing.{is_committed, is_committed_with}
use flowcart.Fulfillment.Consuming.{IsHeld, OtherRecord, OtherReservation, UniqueReservations}

first-committed :
    (o id : ℕ) (row : Reservation) (rs : List Reservation)
    → UniqueReservations rs
    → Has row rs
    → is_committed_with o id row ≡ true
    → first (is_committed_with o id) rs ≡ some row
first-committed o id row [] unique has e = absurd has
first-committed o id row (r ∷ rs) unique (inl same) e = ground (arith, e, same)
first-committed o id row (r ∷ rs) unique (inr rest) e =
    let other = All-Has (OtherReservation r) row rs unique.0 rest in
    ground (arith, other, e, first-committed o id row rs unique.1 rest e)

module _ (o : ℕ) (ids : List ℕ) (db : Db) where
  -- A record has its row among the reservations.
  abbrev Describes : Reservation → ReservationRecord → Type 0
  Describes row r =
      (row.organization_id ≡ o)
      × (row.id ≡ r.id)
      × (row.quantity ≡ r.quantity)
      × (row.inventory_level_id ≡ r.inventory_level_id)
      × (row.status ≡ r.status)

  abbrev IsFrom : List Reservation → ReservationRecord → Type 0
  IsFrom all r = (row : Reservation) × Has row all × Describes row r

  abbrev records_among : List Reservation → List ReservationRecord
  records_among rs = scan_reservations o db (select (is_requested o ids) rs)

  record_joined-Describes :
      (row : Reservation) (r : ReservationRecord)
      → is_requested o ids row ≡ true
      → record_joined o db row ≡ some r
      → Describes row r
  record_joined-Describes row r e h = elim (Option-cases row.order_item_id) [
    | inl f ↦ absurd (ground (arith, f, h))
    | inr (item, f) ↦ elim (Option-cases (find_item o item db)) [
      | inl g ↦ absurd (ground (arith, f, g, h))
      | inr (i, g) ↦ elim (Option-cases (find_level o row.inventory_level_id db)) [
        | inl k ↦ absurd (ground (arith, f, g, k, h))
        | inr (l, k) ↦
            let at = first_holds (is_level o row.inventory_level_id) db.levels k in
            (
              ground (arith, e),
              ground (arith, f, g, k, h),
              ground (arith, f, g, k, h),
              ground (arith, f, g, k, h, at),
              ground (arith, f, g, k, h),
            )
      ]
    ]
  ]

  records_among-cases :
      (row : Reservation) (rs : List Reservation)
      → (records_among (row ∷ rs) ≡ records_among rs)
        ⊎ ((r : ReservationRecord) × Describes row r
            × (records_among (row ∷ rs) ≡ r ∷ records_among rs))
  unfolding scan_reservations
  records_among-cases row rs = elim (Bool-cases (is_requested o ids row)) [
    | inr e ↦ inl (ground (arith, e))
    | inl e ↦ elim (Option-cases (record_joined o db row)) [
      | inl f ↦ inl (rw e (ground (arith, e, f)))
      | inr (r, f) ↦ inr (r, record_joined-Describes row r e f, ground (arith, e, f))
    ]
  ]

  records_among-IsFrom :
      (all rs : List Reservation) → All (λ x. Has x all) rs → All (IsFrom all) (records_among rs)
  unfolding scan_reservations
  records_among-IsFrom all [] has = tt
  records_among-IsFrom all (row ∷ rs) has = elim (records_among-cases row rs) [
    | inl e ↦ rw e (records_among-IsFrom all rs has.1)
    | inr (r, from, e) ↦ rw e ((row, has.0, from), records_among-IsFrom all rs has.1)
  ]

  records_among-others :
      (x : Reservation) (rs : List Reservation)
      → x.organization_id ≡ o
      → All (OtherReservation x) rs
      → All (λ r. x.id ≢ r.id) (records_among rs)
  unfolding scan_reservations
  records_among-others x [] own other = tt
  records_among-others x (row ∷ rs) own other = elim (records_among-cases row rs) [
    | inl e ↦ rw e (records_among-others x rs own other.1)
    | inr (r, from, e) ↦ rw e (
      λ same. ground (arith, own, from, same, other.0, ==_refl o, ==_refl r.id),
      records_among-others x rs own other.1,
    )
  ]

  records_among-Apart :
      (rs : List Reservation) → UniqueReservations rs → Apart OtherRecord (records_among rs)
  unfolding scan_reservations
  records_among-Apart [] unique = tt
  records_among-Apart (row ∷ rs) unique = elim (records_among-cases row rs) [
    | inl e ↦ rw e (records_among-Apart rs unique.1)
    | inr (r, from, e) ↦ rw e (
      All-map (λ s. row.id ≢ s.id) (OtherRecord r) (records_among rs)
          (λ s other same. other (from.1 ∙ same)) (records_among-others row rs from.0 unique.0),
      records_among-Apart rs unique.1,
    )
  ]

  -- Records that are committed, of reservations with different keys, are each held by their row.
  records-IsHeld :
      (rows : List Reservation) (rs : List ReservationRecord)
      → UniqueReservations rows
      → All (IsFrom rows) rs
      → All (λ r. is_committed r.status ≡ true) rs
      → All (IsHeld o rows) rs
  records-IsHeld rows [] unique from commits = tt
  records-IsHeld rows (r ∷ rs) unique from commits =
      let (row, has, (org, id, quantity, level, status)) = from.0 in
      (
        (
          row,
          first-committed o r.id row rows unique has
              (ground (arith, org, id, status, commits.0, ==_refl o, ==_refl r.id)),
          quantity,
          level,
        ),
        records-IsHeld rows rs unique from.1 commits.1,
      )

  pub lock_reservations-AreHeld :
      UniqueReservations db.reservations
      → All (λ r. is_committed r.status ≡ true) (lock_reservations o ids db)
      → All (IsHeld o db.reservations) (lock_reservations o ids db)
        × Apart OtherRecord (lock_reservations o ids db)
  unfolding lock_reservations discover_reservations
  lock_reservations-AreHeld unique commits = (
    records-IsHeld db.reservations (sort_by record_less (records_among db.reservations)) unique
        (All-sort_by record_less (IsFrom db.reservations) (records_among db.reservations)
          (records_among-IsFrom db.reservations db.reservations (Has-self db.reservations)))
        commits,
    Apart-sort_by record_less OtherRecord (λ a b n e. n (sym e)) (records_among db.reservations)
        (records_among-Apart db.reservations unique),
  )
