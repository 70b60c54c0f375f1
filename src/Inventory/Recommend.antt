-- ===== src/Inventory/Recommend.antt =====
-- `applyRecommendations` of apps/api/internal/inventory/service.go: from which other warehouses a
-- level that is low could be filled up.
use mathlib.Core.Option
use flowcart.Prelude.{
  ℕ, String, Bool, true, false, not, ◌&&◌, ◌||◌, Option, none, some, List, [], ◌∷◌, ◌++◌, ℤ, pos,
  ltb_ℤ, leb_ℤ, eqb_ℤ, add64, sub64, ltb, ◌==◌, if◌then◌else◌, text_less, text_differs, select,
  length, take, sort_by,
}

pub record DonorAllocation : Type 0 where
  pub source_warehouse_id : ℕ
  pub source_inventory_level_id : ℕ
  pub quantity : ℤ

-- `donorCandidate`
pub record DonorCandidate : Type 0 where
  pub target_id : ℕ
  pub warehouse_id : ℕ
  pub warehouse_code : String
  pub inventory_level_id : ℕ
  pub effective_available : ℤ

-- The fields of `LowStockItem` that a recommendation reads or writes.
pub record LowStockItem : Type 0 where
  pub id : ℕ
  pub warehouse_id : ℕ
  pub available_quantity : ℤ
  pub target_stock_level : Option ℤ
  pub recommended_quantity : ℤ
  pub unfulfilled_quantity : ℤ
  pub donors_truncated : Bool
  pub donor_allocations : List DonorAllocation

-- `replenishmentDonorLimit`
abbrev pub replenishment_donor_limit : ℕ
replenishment_donor_limit = 6

-- the comparison of the `sort.Slice`
unfoldable pub donor_less : DonorCandidate → DonorCandidate → Bool
donor_less a b =
    if not (eqb_ℤ a.effective_available b.effective_available)
    then ltb_ℤ b.effective_available a.effective_available
    else if text_differs a.warehouse_code b.warehouse_code
    then text_less a.warehouse_code b.warehouse_code
    else ltb a.warehouse_id b.warehouse_id

-- the donors of an item that have something to give in another warehouse
abbrev pub gives_to : LowStockItem → DonorCandidate → Bool
gives_to item d =
    d.target_id == item.id
    && not (d.warehouse_id == item.warehouse_id || leb_ℤ d.effective_available (pos 0))

unfoldable pub candidates_of : LowStockItem → List DonorCandidate → List DonorCandidate
unfolding donor_less sort_by
candidates_of item donors = sort_by donor_less (select (gives_to item) donors)

abbrev pub give : DonorCandidate → ℤ → LowStockItem → LowStockItem
give d quantity item = record item {
  donor_allocations =
      item.donor_allocations
      ++ record {
        source_warehouse_id = d.warehouse_id;
        source_inventory_level_id = d.inventory_level_id;
        quantity = quantity;
      }
        ∷ [];
  recommended_quantity = add64 item.recommended_quantity quantity;
}

-- the loop over the candidates, and `item.UnfulfilledQuantity = remaining`
unfoldable pub draw : ℤ → List DonorCandidate → LowStockItem → LowStockItem
unfolding add64 sub64
draw remaining [] item = record item { unfulfilled_quantity = remaining }
draw remaining (d ∷ ds) item =
    let quantity =
      if ltb_ℤ remaining d.effective_available then remaining else d.effective_available in
    let left = sub64 remaining quantity in
    elim (eqb_ℤ left (pos 0)) [
      | true ↦ record (give d quantity item) { unfulfilled_quantity = left }
      | false ↦ draw left ds (give d quantity item)
    ]

-- the body of the loop over the items; the program panics where an item has no target
unfoldable pub recommend : List DonorCandidate → LowStockItem → Option LowStockItem
unfolding candidates_of draw sub64
recommend donors item = elim item.target_stock_level [
  | none ↦ none
  | some target ↦
      let need = sub64 target item.available_quantity in
      let candidates = candidates_of item donors in
      elim (leb_ℤ need (pos 0)) [
        | true ↦ some item
        | false ↦ some (
            draw need (take replenishment_donor_limit candidates) (record item {
              donors_truncated = ltb replenishment_donor_limit (length candidates);
            }))
      ]
]

-- `applyRecommendations`
unfoldable pub apply_recommendations :
    List LowStockItem → List DonorCandidate → Option (List LowStockItem)
unfolding recommend
apply_recommendations [] donors = some []
apply_recommendations (i ∷ is) donors = elim (recommend donors i) [
  | none ↦ none
  | some j ↦ Option.map (λ js. j ∷ js) (apply_recommendations is donors)
]
