-- ===== src/Inventory/Outcomes.antt =====
-- What `Release` answers, on every status of the reservation.
use flowcart.Prelude.{
  ℕ, ◌≡◌, ◌≢◌, refl, sym, ap, ◌∙◌, inl, inr, false, some, arith, ◌==◌, ◌&&◌, leb, first,
  first-update_other, update, Option-cases, ok, if◌then◌else◌,
}
use flowcart.Database.{
  Db, Clock, InventoryLevel, Reservation, active, payment_held, committed, expired, released,
}
use flowcart.Database.Stock.{is_level, find_level, is_overdue, expire, expire_reservations}
use flowcart.Database.Stock.Laws.{is_level_eq, first_holds}
use flowcart.Inventory.Repository.{find_reservation, is_held, let_go, is_managed, release}

module _ (clock : Clock) (o id : ℕ) (db : Db) where
  -- What a release that committed tells.
  record IsReleased (r : Reservation) (after : Db) : Type 0 where
    pub before : Reservation
    pub found : find_reservation o id db ≡ some before
    pub level : InventoryLevel
    pub on : find_level o before.inventory_level_id db ≡ some level
    pub current : Reservation
    pub reread :
        find_reservation o id (expire_reservations clock o before.inventory_level_id db)
        ≡ some current
    pub unmanaged : is_managed current.status ≡ false
    pub tables : after ≡ record db {
      reservations = update (is_held o id level.id) (let_go clock.now) (
          update
            (is_overdue clock.now o before.inventory_level_id)
            (expire clock.now)
            db.reservations);
    }
    pub result : find_reservation o id after ≡ some r

  release-IsReleased :
      (r : Reservation) (after : Db) → release clock o id db ≡ ok (r, after) → IsReleased r after
  unfolding release
  release-IsReleased r after h = elim (Option-cases (find_reservation o id db)) [
    | inl e ↦ absurd (ground (arith, e, h))
    | inr (before, e) ↦ elim (Option-cases (find_level o before.inventory_level_id db)) [
      | inl f ↦ absurd (ground (arith, e, f, h))
      | inr (level, f) ↦
          elim (Option-cases
            (find_reservation o id (expire_reservations clock o before.inventory_level_id db))) [
              | inl g ↦ absurd (ground (arith, e, f, g, h))
              | inr (current, g) ↦ record {
                before = before;
                found = e;
                level = level;
                on = f;
                current = current;
                reread = g;
                unmanaged = ground (arith, e, f, g, h);
                tables = ground (arith, e, f, g, h);
                result = ground (arith, e, f, g, h);
              }
            ]
    ]
  ]

-- What becomes of a reservation that is given back.
abbrev pub given_back : ℕ → Reservation → Reservation
given_back now r = elim r.status [
  | active ↦
      if leb r.expires_at now
      then record r { status = expired; expired_at = some now }
      else record r { status = released; released_at = some now }
  | _ ↦ r
]

some-same : {A : Type 0} (a b : A) → some a ≡ some b → a ≡ b
some-same a b h = ground (arith, h)

-- A reservation that is found with its level answers as it then stands.
answer :
    (now o id level : ℕ) (r : Reservation)
    → r.organization_id ≡ o
    → r.id ≡ id
    → level ≡ r.inventory_level_id
    → let c = if is_overdue now o r.inventory_level_id r then expire now r else r in
      (if is_held o id level c then let_go now c else c) ≡ given_back now r
answer now o id level r org key on = ground (arith, org, key, on)

-- A release that succeeds was not of a reservation that is held for a payment or committed. One that
-- is active is released now, or expired now where it is overdue; any other is answered as it is. The
-- reservation stands in the tables as it is answered, and nothing but reservations changes.
pub release-answers :
    (clock : Clock) (o id : ℕ) (db after : Db) (r : Reservation)
    → release clock o id db ≡ ok (r, after)
    → (before : Reservation) × (find_reservation o id db ≡ some before)
      × (before.status ≢ payment_held)
      × (before.status ≢ committed)
      × (r ≡ given_back clock.now before)
      × (find_reservation o id after ≡ some r)
      × (after ≡ record db { reservations = after.reservations })
unfolding expire_reservations
release-answers clock o id db after r h =
    let s = release-IsReleased clock o id db r after h in
    let b = s.before in
    let on =
      (is_level_eq o b.inventory_level_id s.level
        (first_holds (is_level o b.inventory_level_id) db.levels s.on)).1 in
    let key = λ (x : Reservation). x.organization_id == o && x.id == id in
    let own = first_holds key db.reservations s.found in
    let c = if is_overdue clock.now o b.inventory_level_id b then expire clock.now b else b in
    let rs =
      update (is_overdue clock.now o b.inventory_level_id) (expire clock.now) db.reservations in
    let kept : first key rs ≡ some c =
      first-update_other key (is_overdue clock.now o b.inventory_level_id) (expire clock.now)
        (λ x e. refl) db.reservations s.found in
    let free : is_managed c.status ≡ false =
      ap (λ x. is_managed x.status) (some-same c s.current (sym kept ∙ s.reread)) ∙ s.unmanaged in
    let gone : first key after.reservations
        ≡ some (if is_held o id (s.level).id c then let_go clock.now c else c) =
      ap (λ d. first key d.reservations) s.tables
      ∙ first-update_other key (is_held o id (s.level).id) (let_go clock.now) (λ x e. ground arith)
          rs kept in
    (
      b,
      s.found,
      λ e. ground (arith, e, free),
      λ e. ground (arith, e, free),
      some-same r _ (sym s.result ∙ gone)
          ∙ answer clock.now o id (s.level).id b (ground (arith, own)) (ground (arith, own)) on,
      s.result,
      s.tables ∙ ap (λ d. record db { reservations = d.reservations }) (sym s.tables),
    )
