-- ===== src/Allocation/Score.antt =====
-- The comparisons of apps/api/internal/allocation/engine.go: headroom, score and the tie-breaks.
use flowcart.Prelude.{
  ℕ, ◌+◌, Bool, not, none, some, [], ◌∷◌, ℤ, pos, Map, lookup, ltb, ◌==◌, text_less, text_differs,
  if◌then◌else◌, ltb_ℤ, leb_ℤ, eqb_ℤ, add64, sub64,
}
use flowcart.Allocation.Model.{WarehouseSnapshot}

-- `m[k]` on a map into int64, which is zero at a missing key
abbrev pub get : ℕ → Map ℤ → ℤ
get k m = elim (lookup k m) [ none ↦ pos 0 | some v ↦ v ]

-- `warehouseLess`
unfoldable pub warehouse_less : WarehouseSnapshot → WarehouseSnapshot → Bool
warehouse_less left right =
    if text_differs left.code right.code
    then text_less left.code right.code
    else ltb left.id right.id

add_headroom : WarehouseSnapshot → Map ℤ → ℤ → ℤ
add_headroom warehouse [] headroom = headroom
add_headroom warehouse ((product, quantity) ∷ rest) headroom =
    let available = sub64 (get product warehouse.available_by) quantity in
    add_headroom warehouse rest
      (if ltb_ℤ (pos 0) available then add64 headroom available else headroom)

-- `warehouseHeadroom`
unfoldable pub warehouse_headroom : WarehouseSnapshot → Map ℤ → ℤ
unfolding add_headroom sub64 add64
warehouse_headroom warehouse remaining = add_headroom warehouse remaining (pos 0)

pub record Score : Type 0 where
  pub lines : ℕ
  pub units : ℤ
  pub touched : ℕ

add_score : WarehouseSnapshot → Map ℤ → Score → Score
add_score warehouse [] s = s
add_score warehouse ((product, quantity) ∷ rest) s =
    let available = get product warehouse.available_by in
    add_score warehouse rest (
      if leb_ℤ available (pos 0) then s else record {
        lines = if leb_ℤ quantity available then s.lines + 1 else s.lines;
        units = add64 s.units (if ltb_ℤ available quantity then available else quantity);
        touched = s.touched + 1;
      })

-- `warehouseScore`
unfoldable pub warehouse_score : WarehouseSnapshot → Map ℤ → Score
unfolding add_score add64
warehouse_score warehouse remaining =
    add_score warehouse remaining (record { lines = 0; units = pos 0; touched = 0 })

-- `singleWarehouseLess`
unfoldable pub single_warehouse_less : WarehouseSnapshot → WarehouseSnapshot → Map ℤ → Bool
unfolding warehouse_headroom warehouse_less
single_warehouse_less left right remaining =
    let left_headroom = warehouse_headroom left remaining in
    let right_headroom = warehouse_headroom right remaining in
    if eqb_ℤ left_headroom right_headroom
    then warehouse_less left right
    else ltb_ℤ right_headroom left_headroom

-- `greedyWarehouseLess`
unfoldable pub greedy_warehouse_less : WarehouseSnapshot → WarehouseSnapshot → Map ℤ → Bool
unfolding warehouse_score single_warehouse_less
greedy_warehouse_less left right remaining =
    let l = warehouse_score left remaining in
    let r = warehouse_score right remaining in
    if not (l.lines == r.lines)
    then ltb r.lines l.lines
    else if not (eqb_ℤ l.units r.units)
    then ltb_ℤ r.units l.units
    else if not (l.touched == r.touched)
    then ltb l.touched r.touched
    else single_warehouse_less left right remaining
