-- ===== src/Transfer/Rereading.antt =====
-- What is read of a transfer after its stock was moved.
use flowcart.Prelude.{
  ℕ, ◌≡◌, refl, sym, ap, ◌∙◌, inl, inr, true, ◌&&◌, Bool, none, some, List, [], ◌∷◌, arith, ltb,
  ◌==◌, first, update, select, sort_by, Bool-cases, Option-cases, ok, ℤ,
}
use flowcart.Database.{Db, Transfer, TransferStatus, TransferItem, InventoryLevel}
use flowcart.Database.Stock.{
  is_level, find_level, find_product, find_warehouse, change_levels, moved,
}
use flowcart.Transfer.Reading.{
  database_error, TransferView, is_transfer, find_transfer, scan_transfer, get_transfer,
  join_products, load_items, is_item_of, lock_levels, lock_inventory, distinct,
}
use flowcart.Transfer.Shipping.{is_open}

-- A transfer that was read: its row, its items, and the scan of the row.
pub record IsRead (o id : ℕ) (db : Db) (view : TransferView) : Type 0 where
  pub row : find_transfer o id db ≡ some view.transfer
  pub items : view.items ≡ load_items o id db
  pub found : TransferView
  pub scan : scan_transfer database_error o id db ≡ ok (found, db)
  pub same : found.transfer ≡ view.transfer

pub get_transfer-IsRead :
    (o id : ℕ) (db after : Db) (view : TransferView)
    → get_transfer o id db ≡ ok (view, after)
    → IsRead o id db view
unfolding get_transfer scan_transfer
get_transfer-IsRead o id db after view h = elim (Option-cases (find_transfer o id db)) [
  | inl e ↦ absurd (ground (arith, e, h))
  | inr (t, e) ↦ elim (Option-cases (find_warehouse o t.source_warehouse_id db)) [
    | inl f ↦ absurd (ground (arith, e, f, h))
    | inr (s, f) ↦ elim (Option-cases (find_warehouse o t.destination_warehouse_id db)) [
      | inl g ↦ absurd (ground (arith, e, f, g, h))
      | inr (w, g) ↦ record {
        row = ground (arith, e, f, g, h);
        items = ground (arith, e, f, g, h);
        found = record {
          transfer = t;
          source_warehouse_code = s.code;
          destination_warehouse_code = w.code;
          items = [];
        };
        scan = ground (arith, e, f, g, h);
        same = ground (arith, e, f, g, h);
      }
    ]
  ]
]

join_products_same :
    (a b : Db) (is : List TransferItem)
    → a.products ≡ b.products
    → join_products a is ≡ join_products b is
unfolding join_products
join_products_same a b [] h = refl
join_products_same a b (i ∷ is) h =
    let rest = join_products_same a b is h in
    let same = ap (first (λ p. p.organization_id == i.organization_id && p.id == i.product_id)) h in
    elim (Option-cases (find_product i.organization_id i.product_id a)) [
      | inl e ↦ ground (arith, e, rest, same)
      | inr (p, e) ↦ ground (arith, e, rest, same)
    ]

pub load_items_same :
    (o id : ℕ) (a b : Db)
    → a.products ≡ b.products
    → a.transfer_items ≡ b.transfer_items
    → load_items o id a ≡ load_items o id b
unfolding load_items
load_items_same o id a b h k = ap (sort_by (λ x y. ltb x.item.id y.item.id)) (
    join_products_same a b (select (is_item_of o id) a.transfer_items) h
    ∙ ap (λ rows. join_products b (select (is_item_of o id) rows)) k)

-- The levels that the tables have are had again later.
abbrev pub KeepLevels : ℕ → List InventoryLevel → List InventoryLevel → Type 0
KeepLevels o before after =
    (j : ℕ) → first (is_level o j) after ≡ none → first (is_level o j) before ≡ none

change_levels-none :
    (o level : ℕ) (delta : ℤ) (l : InventoryLevel) (ls after : List InventoryLevel)
    → change_levels o level delta ls ≡ none
    → ¬ (change_levels o level delta (l ∷ ls) ≡ some after)
unfolding change_levels
change_levels-none o level delta l ls after e h = elim (Bool-cases (is_level o level l)) [
  | inr b ↦ ground (arith, e, b, h)
  | inl b ↦ elim (Option-cases (moved l.on_hand_quantity delta)) [
    | inl m ↦ ground (arith, e, b, m, h)
    | inr (n, m) ↦ ground (arith, e, b, m, h)
  ]
]

pub change_levels-KeepLevels :
    (o level : ℕ) (delta : ℤ) (ls after : List InventoryLevel)
    → change_levels o level delta ls ≡ some after
    → KeepLevels o ls after
unfolding change_levels
change_levels-KeepLevels o level delta [] after h j missing = refl
change_levels-KeepLevels o level delta (l ∷ ls) after h j missing =
    elim (Option-cases (change_levels o level delta ls)) [
      | inl e ↦ absurd (change_levels-none o level delta l ls after e h)
      | inr (rest, e) ↦
          let kept = change_levels-KeepLevels o level delta ls rest e j in
          elim (Bool-cases (is_level o level l)) [
            | inr b ↦
                let same : l ∷ rest ≡ after = ground (arith, e, b, h) in
                let missed = rw (sym same) at missing in
                elim (Bool-cases (is_level o j l)) [
                  | inl c ↦ absurd (ground (arith, c, missed))
                  | inr c ↦ ground (arith, c, missed, kept)
                ]
            | inl b ↦ elim (Option-cases (moved l.on_hand_quantity delta)) [
              | inl m ↦ absurd (ground (arith, e, b, m, h))
              | inr (n, m) ↦
                  let same : record l { on_hand_quantity = n } ∷ rest ≡ after =
                    ground (arith, e, b, m, h) in
                  let missed = rw (sym same) at missing in
                  elim (Bool-cases (is_level o j l)) [
                    | inl c ↦ absurd (ground (arith, c, missed))
                    | inr c ↦ ground (arith, c, missed, kept)
                  ]
            ]
          ]
    ]

pub lock_levels_kept :
    (o : ℕ) (ids : List ℕ) (db after : Db)
    → KeepLevels o db.levels after.levels
    → lock_levels o ids db ≡ ok (tt, db)
    → lock_levels o ids after ≡ ok (tt, after)
unfolding lock_levels
lock_levels_kept o [] db after keep h = refl
lock_levels_kept o (j ∷ ids) db after keep h = elim (Option-cases (find_level o j after)) [
  | inl e ↦ absurd (ground (arith, keep j e, h))
  | inr (l, e) ↦ elim (Option-cases (find_level o j db)) [
    | inl f ↦ absurd (ground (arith, f, h))
    | inr (m, f) ↦ ground (arith, e, lock_levels_kept o ids db after keep (ground (arith, f, h)))
  ]
]

pub lock_inventory_kept :
    (o : ℕ) (ids : List ℕ) (db after : Db)
    → KeepLevels o db.levels after.levels
    → lock_inventory o ids db ≡ ok (tt, db)
    → lock_inventory o ids after ≡ ok (tt, after)
unfolding lock_inventory
lock_inventory_kept o ids db after keep h =
    lock_levels_kept o (sort_by ltb (distinct [] ids)) db after keep h

-- The row of a transfer after a mark, which keeps its key.
pub first-marked :
    (at : TransferStatus → Bool) (f : Transfer → Transfer) (o id : ℕ) (ts : List Transfer)
    (t : Transfer)
    → ((x : Transfer) → ((f x).organization_id ≡ x.organization_id) × ((f x).id ≡ x.id))
    → first (is_transfer o id) ts ≡ some t
    → at t.status ≡ true
    → first (is_transfer o id) (update (is_open at o id) f ts) ≡ some (f t)
first-marked at f o id [] t keeps h ready = absurd (cc)
first-marked at f o id (x ∷ ts) t keeps h ready = elim (Bool-cases (is_transfer o id x)) [
  | inl e ↦
      let same : x ≡ t = ground (arith, e, h) in
      ground (arith, e, h, ready, (keeps t).0, (keeps t).1, ap f same, same)
  | inr e ↦ ground (arith, e, first-marked at f o id ts t keeps (ground (arith, e, h)) ready)
]
