-- ===== src/Inventory/Refusals.antt =====
-- When `Adjust` refuses, and with which error.
use flowcart.Prelude.{
  ℕ, ◌+◌, ◌≤◌, ◌<◌, ◌≡◌, ◌↔◌, ◌⊎◌, IsInt64, refl, true, false, some, arith, ℤ, pos, negsuc,
  pos_part, neg_part, max_int64, ltb_ℤ, add64, +ℤ_parts, err,
}
use flowcart.Database.{Db, Clock, InventoryLevel, transact}
use flowcart.Database.Audit.{append_event}
use flowcart.Database.Stock.{find_level, reserved_quantity, expire_reservations}
use flowcart.Inventory.Repository.{insufficient_stock, stock_below_reserved, get_level}
use flowcart.Inventory.Adjust.{takes_too_much, adjust}

takes_too_much_iff :
    (on_hand : ℕ) (delta : ℤ)
    → on_hand ≤ max_int64
    → IsInt64 delta
    → (takes_too_much on_hand delta ≡ true) ↔ (on_hand + pos_part delta < neg_part delta)
takes_too_much_iff on_hand (pos n) small fits = (λ h. ground (arith, h), λ h. ground (arith, h))
takes_too_much_iff on_hand (negsuc n) small fits = (λ h. ground (arith, h), λ h. ground (arith, h))

enough_of :
    (on_hand : ℕ) (delta : ℤ)
    → takes_too_much on_hand delta ≡ false
    → neg_part delta ≤ on_hand + pos_part delta
enough_of on_hand (pos n) h = ground arith
enough_of on_hand (negsuc n) h = ground (arith, h)

enough_iff :
    (on_hand : ℕ) (delta : ℤ)
    → on_hand ≤ max_int64
    → IsInt64 delta
    → neg_part delta ≤ on_hand + pos_part delta
    → takes_too_much on_hand delta ≡ false
enough_iff on_hand (pos n) small fits h = refl
enough_iff on_hand (negsuc n) small fits h = ground (arith, h)

below_iff :
    (on_hand reserved : ℕ) (delta : ℤ)
    → on_hand ≤ max_int64
    → reserved ≤ max_int64
    → IsInt64 delta
    → takes_too_much on_hand delta ≡ false
    → (ltb_ℤ (add64 (pos on_hand) delta) (pos reserved) ≡ true) ↔ (
        (on_hand + pos_part delta < reserved + neg_part delta)
        ⊎ (max_int64 + neg_part delta < on_hand + pos_part delta))
unfolding add64
below_iff on_hand reserved (pos n) small few fits enough =
    let parts = +ℤ_parts (pos on_hand) (pos n) in
    (λ h. ground (arith, h, parts), λ h. ground (arith, h, parts))
below_iff on_hand reserved (negsuc n) small few fits enough =
    let parts = +ℤ_parts (pos on_hand) (negsuc n) in
    (λ h. ground (arith, h, parts), λ h. ground (arith, h, parts))

-- The result of an adjustment of a level that is there follows its two checks.
refusals :
    (clock : Clock) (o user id : ℕ) (delta : ℤ) (db : Db) (level : InventoryLevel)
    → find_level o id db ≡ some level
    → let result = (transact (adjust clock o user id delta) db).0 in
      let too_much = takes_too_much level.on_hand_quantity delta in
      let below =
        ltb_ℤ
          (add64 (pos level.on_hand_quantity) delta)
          (pos (reserved_quantity clock o id (expire_reservations clock o id db))) in
      ((result ≡ err insufficient_stock) ↔ (too_much ≡ true))
      × ((result ≡ err stock_below_reserved) ↔ ((too_much ≡ false) × (below ≡ true)))
unfolding adjust get_level append_event
refusals clock o user id delta db level f = (
  (λ h. ground (arith, f, h), λ h. ground (arith, f, h)),
  (λ h. ground (arith, f, h), λ h. ground (arith, f, h)),
)

-- Of a level that is there, more is taken than it has on hand exactly when that is what `Adjust`
-- reports. It reports stock below what is reserved exactly when the level has enough on hand, but
-- not for its reservations too, or when the sum is no int64.
pub adjust_refuses :
    (clock : Clock) (o user id : ℕ) (delta : ℤ) (db : Db) (level : InventoryLevel)
    → find_level o id db ≡ some level
    → level.on_hand_quantity ≤ max_int64
    → IsInt64 delta
    → reserved_quantity clock o id (expire_reservations clock o id db) ≤ max_int64
    → let result = (transact (adjust clock o user id delta) db).0 in
      ((result ≡ err insufficient_stock)
        ↔ (level.on_hand_quantity + pos_part delta < neg_part delta))
      × ((result ≡ err stock_below_reserved) ↔ (
          (neg_part delta ≤ level.on_hand_quantity + pos_part delta)
          × ((level.on_hand_quantity + pos_part delta
                < reserved_quantity clock o id (expire_reservations clock o id db) + neg_part delta)
              ⊎ (max_int64 + neg_part delta < level.on_hand_quantity + pos_part delta))))
adjust_refuses clock o user id delta db level f small fits few =
    let run = refusals clock o user id delta db level f in
    let much = takes_too_much_iff level.on_hand_quantity delta small fits in
    let below =
      below_iff level.on_hand_quantity
        (reserved_quantity clock o id (expire_reservations clock o id db)) delta small few fits in
    (
      (λ h. much.0 (run.0.0 h), λ h. run.0.1 (much.1 h)),
      (
        λ h. let (e, b) = run.1.0 h in (enough_of level.on_hand_quantity delta e, (below e).0 b),
        λ h.
            let e = enough_iff level.on_hand_quantity delta small fits h.0 in
            run.1.1 (e, (below e).1 h.1),
      ),
    )
