-- ===== src/Fulfillment/Conserving.antt =====
-- A fulfillment ships what was held for it, and the books show it.
use mathlib.Core.Path.{subst}
use flowcart.Prelude.{
  ℕ, String, ◌+◌, ◌≡◌, sym, ap, ◌∙◌, inl, inr, List, [], arith, ◌==◌, if◌then◌else◌, ltb, sort_by,
  All, All-map, sum_of-sort_by, Map,
}
use flowcart.Database.{Db, Clock, InventoryLevel, transact, transact-keeps}
use flowcart.Database.Stock.{reserved_on}
use flowcart.Database.Stock.Coverage.{UniqueLevels}
use flowcart.Database.Stock.Slack.{AllStock, AllStock-step}
use flowcart.Database.Ledger.{IsBalanced, brought_in, taken_out}
use flowcart.Fulfillment.Model.{
  FulfillmentView, record_less, discover_reservations, lock_reservations,
}
use flowcart.Fulfillment.Completing.{quantity_of, inventory_ids, complete}
use flowcart.Fulfillment.Quantities.{asked, pending, taken, add_quantities-AreAdded, taken_all}
use flowcart.Fulfillment.Deducting.{taken_from, deduct-IsDeducted}
use flowcart.Fulfillment.Consuming.{
  pending_from, UniqueReservations, AreHeld, AreCounted, ship_records-keeps, consumed-AreHeld,
  consumed-AreCounted,
}
use flowcart.Fulfillment.Locked.{lock_reservations-AreHeld}
use flowcart.Fulfillment.Outcomes.{IsShipped, complete-cases}

-- Of the stock of every level, so much is free: it is on hand and not reserved.
abbrev pub HasFree : (ℕ → ℕ → ℕ) → ℕ → Db → Type 0
HasFree free time db =
    All
      (λ l.
        reserved_on time l.organization_id l.id db.reservations + free l.organization_id l.id
        ≡ l.on_hand_quantity)
      db.levels

no_more : (n : ℕ) → 0 + n ≡ n
no_more n = omega arith

-- The levels give together what the locked records take.
given_is_pending :
    (o p j : ℕ) (ids : List ℕ) (db : Db) (m : Map ℕ)
    → ((l : ℕ) → quantity_of l m ≡ pending l (lock_reservations o ids db))
    → taken_from o m (sort_by ltb (inventory_ids [] (discover_reservations o ids db))) p j
      ≡ pending_from o (lock_reservations o ids db) p j
unfolding lock_reservations
given_is_pending o p j ids db m sums =
    let records = discover_reservations o ids db in
    let sorted = sum_of-sort_by record_less (asked j) records in
    ap (λ q. if o == p then taken j q (sort_by ltb (inventory_ids [] records)) else 0)
      (sums j ∙ sorted)
    ∙ ap (λ q. if o == p then q else 0) (taken_all j records ∙ sym sorted)

settled :
    (F : ℕ → ℕ → ℕ → Type 0) (o : ℕ) (ls : List InventoryLevel)
    → AllStock F (pending_from o []) ls
    → All (λ l. F l.organization_id l.id l.on_hand_quantity) ls
settled F o ls =
    All-map
      (λ l.
        F l.organization_id l.id (l.on_hand_quantity + pending_from o [] l.organization_id l.id))
      (λ l. F l.organization_id l.id l.on_hand_quantity) ls
      (λ l h. subst (F l.organization_id l.id) (ground arith) h)

module _ (clock : Clock) (o user order : ℕ) (key hash : String) (ids : List ℕ) (db : Db)
    (view : FulfillmentView) (after : Db) (unique : UniqueLevels db.levels)
    (s : IsShipped clock o user order key hash ids db view after) where
  -- After the levels have given their quantities, every statement holds with what is pending.
  deducted-AllStock :
      (F : ℕ → ℕ → ℕ → Type 0)
      → All (λ l. F l.organization_id l.id l.on_hand_quantity) db.levels
      → AllStock F (pending_from o (lock_reservations o ids db)) (s.ended).deducted.levels
  deducted-AllStock F holds =
      let sums =
        (add_quantities-AreAdded order s.warehouse (lock_reservations o ids db) [] s.quantities db
          db s.added).sums in
      let levels = sort_by ltb (inventory_ids [] (discover_reservations o ids db)) in
      let d =
        deduct-IsDeducted o s.quantities F levels s.started (s.ended).deducted (rw s.start unique)
          (s.ended).deduction in
      let before : AllStock F (λ p j. 0) (s.started).levels = rw s.start (
        All-map (λ l. F l.organization_id l.id l.on_hand_quantity)
          (λ l. F l.organization_id l.id (l.on_hand_quantity + 0)) db.levels
          (λ l h. subst (F l.organization_id l.id) (omega arith) h) holds) in
      AllStock-step F F (λ p j. 0 + taken_from o s.quantities levels p j)
        (pending_from o (lock_reservations o ids db))
        (λ p j k x.
          subst (λ t. F p j (k + t))
            (no_more (taken_from o s.quantities levels p j)
              ∙ given_is_pending o p j ids db s.quantities (λ l. sums l ∙ no_more _))
            x)
        (s.ended).deducted.levels (d.stated (λ p j. 0) before)

  deducted-reads :
      ((s.ended).deducted.movements ≡ db.movements)
      × ((s.ended).deducted.reservations ≡ db.reservations)
  deducted-reads =
      let levels = sort_by ltb (inventory_ids [] (discover_reservations o ids db)) in
      let d =
        deduct-IsDeducted o s.quantities (λ p j h. Unit) levels s.started (s.ended).deducted
          (rw s.start unique) (s.ended).deduction in
      (
        ap (λ x. x.movements) d.tables ∙ ap (λ x. x.movements) s.start,
        ap (λ x. x.reservations) d.tables ∙ ap (λ x. x.reservations) s.start,
      )

  shipped-IsBalanced : (opening : ℕ → ℕ → ℕ) → IsBalanced opening db → IsBalanced opening after
  shipped-IsBalanced opening balanced =
      let locked = lock_reservations o ids db in
      let e = s.ended in
      let id = ((s.scanned).fulfillment).id in
      let start =
        deducted-AllStock
          (λ p j h. h + taken_out p j db.movements ≡ opening p j + brought_in p j db.movements)
          balanced in
      let counted =
        ship_records-keeps clock o user id order (AreCounted clock o user id order opening)
          (consumed-AreCounted clock o user id order opening) locked e.deducted e.consumed
          (rw deducted-reads.0 start) e.consumption in
      rw e.tables (
        settled
          (λ p j h.
            h + taken_out p j (e.consumed).movements
            ≡ opening p j + brought_in p j (e.consumed).movements)
          o (e.consumed).levels counted)

  shipped-HasFree :
      (free : ℕ → ℕ → ℕ) (time : ℕ)
      → UniqueReservations db.reservations
      → HasFree free time db
      → HasFree free time after
  shipped-HasFree free time apart holds =
      let locked = lock_reservations o ids db in
      let e = s.ended in
      let id = ((s.scanned).fulfillment).id in
      let start =
        deducted-AllStock (λ p j h. reserved_on time p j db.reservations + free p j ≡ h) holds in
      let commits =
        (add_quantities-AreAdded order s.warehouse locked [] s.quantities db db s.added).commits in
      let (held, others) = lock_reservations-AreHeld o ids db apart commits in
      let (stock, none_held, none_apart, left_apart) =
        ship_records-keeps clock o user id order (AreHeld clock o user id order free time)
          (consumed-AreHeld clock o user id order free time) locked e.deducted e.consumed
          (rw deducted-reads.1 (start, held, others, apart)) e.consumption in
      rw e.tables (
        settled (λ p j h. reserved_on time p j (e.consumed).reservations + free p j ≡ h) o
          (e.consumed).levels stock)

-- Where levels and reservations differ in their keys, a fulfillment takes of each level exactly what
-- the reservations that it consumes have held of it: as much of the level as before is on hand and
-- not reserved, at every time and whether or not the transaction commits.
pub complete-HasFree :
    (clock : Clock) (o user order : ℕ) (key hash : String) (ids : List ℕ) (db : Db)
    (free : ℕ → ℕ → ℕ) (time : ℕ)
    → UniqueLevels db.levels
    → UniqueReservations db.reservations
    → HasFree free time db
    → HasFree free time (transact (complete clock o user order key hash ids) db).1
complete-HasFree clock o user order key hash ids db free time unique apart holds =
    transact-keeps (HasFree free time) (complete clock o user order key hash ids) db holds
      (λ view after h. elim (complete-cases clock o user order key hash ids db view after h) [
        | inl r ↦ rw r.same holds
        | inr s ↦
            shipped-HasFree clock o user order key hash ids db view after unique s free time apart
              holds
      ])

-- The movements that a fulfillment records account for all the stock that it takes.
pub complete-IsBalanced :
    (clock : Clock) (o user order : ℕ) (key hash : String) (ids : List ℕ) (db : Db)
    (opening : ℕ → ℕ → ℕ)
    → UniqueLevels db.levels
    → IsBalanced opening db
    → IsBalanced opening (transact (complete clock o user order key hash ids) db).1
complete-IsBalanced clock o user order key hash ids db opening unique balanced =
    transact-keeps (IsBalanced opening) (complete clock o user order key hash ids) db balanced
      (λ view after h. elim (complete-cases clock o user order key hash ids db view after h) [
        | inl r ↦ rw r.same balanced
        | inr s ↦
            shipped-IsBalanced clock o user order key hash ids db view after unique s opening
              balanced
      ])
