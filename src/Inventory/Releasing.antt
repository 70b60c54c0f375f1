-- ===== src/Inventory/Releasing.antt =====
-- What a release gives back.
use flowcart.Prelude.{
  ℕ, ◌+◌, ◌≤◌, ◌<◌, ◌≡◌, refl, inl, inr, Bool, true, false, ◌&&◌, some, List, [], ◌∷◌, arith, ◌==◌,
  first, update, All, Apart, Bool-cases, ok,
}
use flowcart.Database.{Db, Clock, InventoryLevel, Reservation, active, released, transact}
use flowcart.Database.Stock.{
  is_level, find_level, reserved_on, is_overdue, expire, expire_reservations,
}
use flowcart.Database.Stock.Laws.{is_level_eq, weight, first_holds}
use flowcart.Inventory.Repository.{find_reservation, is_held, let_go, is_managed, release}

-- Two reservations differ in their key.
abbrev pub OtherReservation : Reservation → Reservation → Type 0
OtherReservation r s = ¬ ((r.organization_id ≡ s.organization_id) × (r.id ≡ s.id))

abbrev pub UniqueReservations : List Reservation → Type 0
UniqueReservations = Apart OtherReservation

abbrev is_reservation : ℕ → ℕ → Reservation → Bool
is_reservation o id r = r.organization_id == o && r.id == id

module _ (time o level id now : ℕ) where
  held_unmatched :
      (r : Reservation) (rs : List Reservation)
      → is_reservation o id r ≡ true
      → All (OtherReservation r) rs
      → reserved_on time o level (update (is_held o id level) (let_go now) rs)
        ≡ reserved_on time o level rs
  unfolding reserved_on
  held_unmatched r [] e other = refl
  held_unmatched r (s ∷ ss) e other = ground (arith, other.0, held_unmatched r ss e other.1)

  -- Letting go of one reservation takes what it weighs off the sum.
  reserved_on-let_go :
      (rs : List Reservation) (found : Reservation)
      → UniqueReservations rs
      → first (is_reservation o id) rs ≡ some found
      → is_held o id level found ≡ true
      → reserved_on time o level (update (is_held o id level) (let_go now) rs)
          + weight time o level found
        ≡ reserved_on time o level rs
  unfolding reserved_on
  reserved_on-let_go [] found unique f held = cc
  reserved_on-let_go (r ∷ rs) found unique f held = elim (Bool-cases (is_reservation o id r)) [
    | inl e ↦ ground (arith, e, f, held, held_unmatched r rs e unique.0)
    | inr e ↦
        ground (arith, e, f, held, reserved_on-let_go rs found unique.1 (ground (arith, e, f)) held)
  ]

  -- From the time of the transaction on, what it expires counted for nothing before.
  reserved_on-expire :
      (rs : List Reservation)
      → now ≤ time
      → reserved_on time o level (update (is_overdue now o level) (expire now) rs)
        ≡ reserved_on time o level rs
  unfolding reserved_on
  reserved_on-expire [] later = refl
  reserved_on-expire (r ∷ rs) later = ground (arith, reserved_on-expire rs later)

  others-expire :
      (r : Reservation) (rs : List Reservation)
      → All (OtherReservation r) rs
      → All (OtherReservation r) (update (is_overdue now o level) (expire now) rs)
  others-expire r [] h = tt
  others-expire r (s ∷ ss) h = elim (Bool-cases (is_overdue now o level s)) [
    | inl e ↦ rw e (h.0, others-expire r ss h.1)
    | inr e ↦ rw e (h.0, others-expire r ss h.1)
  ]

  unique-expire :
      (rs : List Reservation)
      → UniqueReservations rs
      → UniqueReservations (update (is_overdue now o level) (expire now) rs)
  unique-expire [] h = tt
  unique-expire (r ∷ rs) h = elim (Bool-cases (is_overdue now o level r)) [
    | inl e ↦ rw e (others-expire r rs h.0, unique-expire rs h.1)
    | inr e ↦ rw e (others-expire r rs h.0, unique-expire rs h.1)
  ]

  -- A reservation that is not overdue is found as it was.
  find-expire :
      (rs : List Reservation) (found : Reservation)
      → first (is_reservation o id) rs ≡ some found
      → is_overdue now o level found ≡ false
      → first (is_reservation o id) (update (is_overdue now o level) (expire now) rs) ≡ some found
  find-expire [] found f fresh = cc
  find-expire (r ∷ rs) found f fresh =
      ground (
        arith,
        f,
        λ (g : first (is_reservation o id) rs ≡ some found). find-expire rs found g fresh,
      )

  find-let_go :
      (rs : List Reservation) (found : Reservation)
      → first (is_reservation o id) rs ≡ some found
      → is_held o id level found ≡ true
      → first (is_reservation o id) (update (is_held o id level) (let_go now) rs)
        ≡ some (let_go now found)
  find-let_go [] found f held = cc
  find-let_go (r ∷ rs) found f held =
      ground
        (arith, f, λ (g : first (is_reservation o id) rs ≡ some found). find-let_go rs found g held)

-- The run of a release of a reservation that is not overdue.
release_run :
    (clock : Clock) (o id : ℕ) (db : Db) (r s : Reservation) (level : InventoryLevel)
    → find_reservation o id db ≡ some r
    → find_level o r.inventory_level_id db ≡ some level
    → find_reservation o id (expire_reservations clock o r.inventory_level_id db) ≡ some r
    → is_managed r.status ≡ false
    → let rs = (expire_reservations clock o r.inventory_level_id db).reservations in
      let ss = update (is_held o id level.id) (let_go clock.now) rs in
      first (is_reservation o id) ss ≡ some s
      → release clock o id db ≡ ok (s, record db { reservations = ss })
unfolding release
release_run clock o id db r s level f l again free gone = ground (arith, f, l, again, free, gone)

-- Releasing an active reservation before it expires marks it as released now, and from then on the
-- level has exactly its quantity less reserved, at any time at which it would still have counted.
pub release_frees :
    (clock : Clock) (o id : ℕ) (db : Db) (r : Reservation) (level : InventoryLevel) (time : ℕ)
    → UniqueReservations db.reservations
    → find_reservation o id db ≡ some r
    → find_level o r.inventory_level_id db ≡ some level
    → r.status ≡ active
    → clock.now < r.expires_at
    → clock.now ≤ time
    → time < r.expires_at
    → let (result, after) = transact (release clock o id) db in
      (result ≡ ok (record r { status = released; released_at = some clock.now }))
      × (reserved_on time o r.inventory_level_id after.reservations + r.quantity
          ≡ reserved_on time o r.inventory_level_id db.reservations)
unfolding release
release_frees clock o id db r level time unique f l is_active alive later counted =
    let key = first_holds (is_reservation o id) db.reservations f in
    let on =
      (is_level_eq o r.inventory_level_id level
        (first_holds (is_level o r.inventory_level_id) db.levels l)).1 in
    let lid = r.inventory_level_id in
    let rs = update (is_overdue clock.now o lid) (expire clock.now) db.reservations in
    let kept = find-expire time o lid id clock.now db.reservations r f (ground arith) in
    let gone = find-let_go time o lid id clock.now rs r kept (ground arith) in
    let sum =
      reserved_on-let_go time o lid id clock.now rs r
        (unique-expire time o lid id clock.now db.reservations unique) kept (ground arith) in
    let same = reserved_on-expire time o lid id clock.now db.reservations later in
    let run =
      release_run clock o id db r (let_go clock.now r) level f l kept (ground arith) (rw on gone) in
    rw run (ground arith, rw on (ground (arith, sum, same)))
