-- ===== src/Order/Service.antt =====
-- apps/api/internal/order/service.go: who may write, and the checks of the input. The digest of a
-- request, SHA-256 of its JSON, is a parameter.
use flowcart.Prelude.{
  ℕ, String, Bool, true, not, ◌&&◌, ◌||◌, List, [], ◌∷◌, ◌==◌, ltb, leb_ℤ, pos, length, sort_by,
  trim_space,
}
use flowcart.Database.{Clock, Tx, ◌>>◌, throw_if}
use flowcart.Pagination.{max_limit, bad_key}
use flowcart.Organization.Role.{TenantContext, can_write}
use flowcart.Order.Model.{
  OrderError, invalid_input, forbidden, ItemInput, CreateInput, AutoItemInput, AutoCreateInput,
  OrderView,
}
use flowcart.Order.Creating as Creating
use flowcart.Order.Creating.{contains}
use flowcart.Order.Automatic as Automatic
use flowcart.Order.Cancelling as Cancelling

-- the loop over the sorted items, with the levels that were seen
unfoldable pub check_order_items : List ℕ → List ItemInput → Bool
check_order_items seen [] = true
check_order_items seen (i ∷ is) =
    not
      (i.inventory_level_id == 0 || leb_ℤ i.quantity (pos 0) || contains i.inventory_level_id seen)
    && check_order_items (i.inventory_level_id ∷ seen) is

abbrev pub level_less : ItemInput → ItemInput → Bool
level_less a b = ltb a.inventory_level_id b.inventory_level_id

abbrev pub sorted_order : CreateInput → CreateInput
sorted_order input = record { items = sort_by level_less input.items }

-- `Service.Create`
unfoldable pub create :
    (CreateInput → String) → Clock → TenantContext → String → CreateInput → Tx OrderError OrderView
unfolding check_order_items trim_space sort_by Creating.create
create digest clock tenant key input = do
  throw_if (not (can_write tenant.role)) forbidden
  throw_if
      (bad_key (trim_space key) || length input.items == 0 || ltb max_limit (length input.items))
      invalid_input
  throw_if (not (check_order_items [] (sorted_order input).items)) invalid_input
  Creating.create clock tenant.organization_id tenant.user_id (trim_space key)
      (digest (sorted_order input)) (sorted_order input)

-- the loop over the sorted items, with the products that were seen
unfoldable pub check_auto_items : List ℕ → List AutoItemInput → Bool
check_auto_items seen [] = true
check_auto_items seen (i ∷ is) =
    not (i.product_id == 0 || leb_ℤ i.quantity (pos 0) || contains i.product_id seen)
    && check_auto_items (i.product_id ∷ seen) is

abbrev pub auto_product_less : AutoItemInput → AutoItemInput → Bool
auto_product_less a b = ltb a.product_id b.product_id

abbrev pub sorted_auto_order : AutoCreateInput → AutoCreateInput
sorted_auto_order input = record { items = sort_by auto_product_less input.items }

-- `Service.AutoCreate`
unfoldable pub auto_create :
    (AutoCreateInput → String)
    → Clock
    → TenantContext
    → String
    → AutoCreateInput
    → Tx OrderError OrderView
unfolding check_auto_items trim_space sort_by Automatic.auto_create
auto_create digest clock tenant key input = do
  throw_if (not (can_write tenant.role)) forbidden
  throw_if
      (bad_key (trim_space key) || length input.items == 0 || ltb max_limit (length input.items))
      invalid_input
  throw_if (not (check_auto_items [] (sorted_auto_order input).items)) invalid_input
  Automatic.auto_create clock tenant.organization_id tenant.user_id (trim_space key)
      (digest (sorted_auto_order input)) (sorted_auto_order input)

-- `Service.Cancel`
unfoldable pub cancel : Clock → TenantContext → ℕ → Tx OrderError OrderView
unfolding Cancelling.cancel
cancel clock tenant id = do
  throw_if (not (can_write tenant.role)) forbidden
  throw_if (id == 0) invalid_input
  Cancelling.cancel clock tenant.organization_id id
