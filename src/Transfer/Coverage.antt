-- ===== src/Transfer/Coverage.antt =====
-- `Dispatch` ships only stock that is not reserved.
use flowcart.Prelude.{
  ℕ, String, ◌+◌, ◌≤◌, ◌≡◌, ◌≢◌, refl, ap, ◌∙◌, inl, inr, false, some, List, [], ◌∷◌, arith, first,
  All, Apart, Option-cases, ℤ, pos, ltb_ℤ, ◌-ℤ◌, -ℤ_parts, ok,
}
use flowcart.Database.{
  Db, Clock, Reservation, transfer_out, InventoryLevel, transact, transact-keeps,
}
use flowcart.Database.Stock.{is_level, find_level, reserved_on, expire_reservations}
use flowcart.Database.Stock.Laws.{reserved_on-expire_le, reserved_on_later}
use flowcart.Database.Stock.Coverage.{Covered, IsCovered, UniqueLevels, Covered-fewer}
use flowcart.Database.Stock.Moves.{
  Moves, change_levels-Moves, UniqueLevels-Moves, Covered-Moves, find-Moves_other,
}
use flowcart.Transfer.Reading.{ItemView, TransferView, load_items}
use flowcart.Transfer.Shipping.{minus, check_stock, take_out, dispatch}
use flowcart.Transfer.Moving.{IsMoved, minus_part, take_out-keeps}
use flowcart.Transfer.Sources.{HaveSources, OtherLevelView, load_items-Apart}
use flowcart.Transfer.Outcomes.{IsShipped, dispatch-cases}

-- A source has on hand what is reserved of it at a time and the quantity of the item.
pub record HasRoom (time o : ℕ) (ls : List InventoryLevel) (rs : List Reservation) (v : ItemView)
    : Type 0 where
  pub level : InventoryLevel
  pub found : first (is_level o (v.item).source_inventory_level_id) ls ≡ some level
  pub room :
      reserved_on time o (v.item).source_inventory_level_id rs + (v.item).quantity
      ≤ level.on_hand_quantity

module _ (clock : Clock) (o : ℕ) where
  -- What the checks of the sources tell.
  pub record IsChecked (vs : List ItemView) (db after : Db) : Type 0 where
    pub tables : after ≡ record db { reservations = after.reservations }
    pub fewer :
        (time p j : ℕ)
        → reserved_on time p j after.reservations ≤ reserved_on time p j db.reservations
    pub rooms :
        (time : ℕ)
        → ((level : ℕ) → clock.statement level ≤ time)
        → All (HasRoom time o db.levels after.reservations) vs

  pub check_stock-IsChecked :
      (vs : List ItemView) (db after : Db)
      → check_stock clock o vs db ≡ ok (tt, after)
      → IsChecked vs db after
  unfolding check_stock
  check_stock-IsChecked [] db after h = record {
    tables = ground (arith, h);
    fewer = λ time p j. ground (arith, h);
    rooms = λ time later. tt;
  }
  check_stock-IsChecked (v ∷ vs) db after h =
      let source = (v.item).source_inventory_level_id in
      let mid = expire_reservations clock o source db in
      let reserved = reserved_on (clock.statement source) o source mid.reservations in
      elim (Option-cases (find_level o source mid)) [
        | inl e ↦ absurd (ground (arith, e, h))
        | inr (level, e) ↦
            let rest = check_stock-IsChecked vs mid after (ground (arith, e, h)) in
            let guard : ltb_ℤ (pos level.on_hand_quantity -ℤ pos reserved) (pos (v.item).quantity)
                ≡ false =
              ground (arith, e, h) in
            let parts = -ℤ_parts (pos level.on_hand_quantity) (pos reserved) in
            let less =
              λ (time p j : ℕ). reserved_on-expire_le time p j clock.now o source db.reservations in
            record {
              tables = rw rest.tables refl;
              fewer = λ time p j. omega (arith, rest.fewer time p j, less time p j);
              rooms = λ time later. (
                record {
                  level = level;
                  found = e;
                  room = ground (
                    arith,
                    guard,
                    parts,
                    rest.fewer time o source,
                    reserved_on_later (clock.statement source) time o source mid.reservations
                        (later source),
                  );
                },
                rest.rooms time later,
              );
            }
      ]

module _ (clock : Clock) (o user transfer warehouse time : ℕ) (rs : List Reservation) where
  -- The rest of the sources keeps its room when one source is taken from.
  rooms-Moves :
      (i : ℕ) (delta : ℤ) (ls ls' : List InventoryLevel) (vs : List ItemView)
      → Moves o i delta ls ls'
      → All (λ w. i ≢ (w.item).source_inventory_level_id) vs
      → All (HasRoom time o ls rs) vs
      → All (HasRoom time o ls' rs) vs
  rooms-Moves i delta ls ls' [] m other rooms = tt
  rooms-Moves i delta ls ls' (w ∷ vs) m other rooms =
      let old = rooms.0 in
      let source = (w.item).source_inventory_level_id in
      (
        record {
          level = old.level;
          found = find-Moves_other o source m (ground (arith, other.0)) ∙ old.found;
          room = old.room;
        },
        rooms-Moves i delta ls ls' vs m other.1 rooms.1,
      )

  abbrev AreCovered : List ItemView → Db → Type 0
  AreCovered vs db =
      UniqueLevels db.levels
      × Covered time db.levels rs
      × (db.reservations ≡ rs)
      × All (HasRoom time o db.levels rs) vs
      × Apart OtherLevelView vs

  take_one-AreCovered :
      (v : ItemView) (vs : List ItemView) (db after : Db)
      → AreCovered (v ∷ vs) db
      → IsMoved clock o user transfer warehouse transfer_out
          (v.item).source_inventory_level_id
          (minus (v.item).quantity)
          v.item
          db
          after
      → AreCovered vs after
  take_one-AreCovered v vs db after (unique, covered, same, rooms, apart) m =
      let source = (v.item).source_inventory_level_id in
      let here = rooms.0 in
      let moves =
        change_levels-Moves o source (minus (v.item).quantity) db.levels after.levels unique
          m.moves in
      let parts = minus_part (v.item).quantity in
      (
        UniqueLevels-Moves moves unique,
        Covered-Moves time rs here.level moves here.found (omega (arith, parts, here.room)) covered,
        ap (λ d. d.reservations) m.rest ∙ same,
        rooms-Moves source (minus (v.item).quantity) db.levels after.levels vs moves apart.0
            rooms.1,
        apart.1,
      )

  pub take_out-Covered :
      (vs : List ItemView) (db after : Db)
      → AreCovered vs db
      → take_out clock o user transfer warehouse vs db ≡ ok (tt, after)
      → IsCovered time after
  take_out-Covered vs db after p h =
      let (unique, covered, same, rooms, apart) =
        take_out-keeps clock o user transfer warehouse AreCovered take_one-AreCovered vs db after p
          h in
      rw same covered

shipped-IsCovered :
    (clock : Clock) (o user id : ℕ) (key : String) (db : Db) (view : TransferView) (after : Db)
    (time : ℕ)
    → ((level : ℕ) → clock.statement level ≤ time)
    → UniqueLevels db.levels
    → HaveSources db
    → IsCovered time db
    → IsShipped clock o user id key db view after
    → IsCovered time after
shipped-IsCovered clock o user id key db view after time later unique sources covered s =
    let vs = load_items o id db in
    let c = check_stock-IsChecked clock o vs db s.checked s.check in
    let rs = (s.checked).reservations in
    rw s.tables (
      take_out-Covered clock o user id (s.transfer).source_warehouse_id time rs vs s.checked s.taken
        (rw c.tables (
          unique,
          Covered-fewer time db.levels db.reservations rs (c.fewer time) covered,
          refl,
          c.rooms time later,
          load_items-Apart db o id sources,
        ))
        s.take)

-- Dispatching a transfer never takes stock that is reserved: what was covered at a time from the
-- checks on is covered after it, committed or not.
pub dispatch-IsCovered :
    (clock : Clock) (o user id : ℕ) (key : String) (db : Db) (time : ℕ)
    → ((level : ℕ) → clock.statement level ≤ time)
    → UniqueLevels db.levels
    → HaveSources db
    → IsCovered time db
    → IsCovered time (transact (dispatch clock o user id key) db).1
dispatch-IsCovered clock o user id key db time later unique sources covered =
    transact-keeps (IsCovered time) (dispatch clock o user id key) db covered (λ view after h.
      elim (dispatch-cases clock o user id key db view after h) [
        | inl (same, read) ↦ rw same covered
        | inr s ↦
            shipped-IsCovered clock o user id key db view after time later unique sources covered s
      ])
