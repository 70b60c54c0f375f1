-- ===== src/Transfer/Service.antt =====
-- apps/api/internal/transfer/service.go: who may write, and the checks of the input. The digest of
-- a request, SHA-256 of its JSON, is a parameter.
use flowcart.Prelude.{
  ℕ, String, Bool, true, not, ◌&&◌, ◌||◌, List, [], ◌∷◌, ◌==◌, ltb, leb_ℤ, pos, length, sort_by,
  trim_space,
}
use flowcart.Database.{Clock, Tx, ◌>>◌, throw_if}
use flowcart.Pagination.{max_limit, bad_key}
use flowcart.Organization.Role.{TenantContext, can_write}
use flowcart.Transfer.Reading.{TransferError, invalid_input, forbidden, not_found, TransferView}
use flowcart.Transfer.Creating as Repository
use flowcart.Transfer.Creating.{TransferItemInput, CreateInput}
use flowcart.Transfer.Shipping as Shipping

abbrev pub product_less : TransferItemInput → TransferItemInput → Bool
product_less a b = ltb a.product_id b.product_id

abbrev pub bad_item : TransferItemInput → Bool
bad_item i = i.product_id == 0 || leb_ℤ i.quantity (pos 0)

-- the loop over the sorted items, after the first
unfoldable pub follow : TransferItemInput → List TransferItemInput → Bool
follow before [] = true
follow before (i ∷ is) = not (bad_item i || before.product_id == i.product_id) && follow i is

-- the loop over the sorted items
unfoldable pub check_items : List TransferItemInput → Bool
unfolding follow
check_items [] = true
check_items (i ∷ is) = not (bad_item i) && follow i is

abbrev pub bad_request : String → CreateInput → Bool
bad_request key input =
    bad_key key
    || input.source_warehouse_id == 0
    || input.destination_warehouse_id == 0
    || input.source_warehouse_id == input.destination_warehouse_id
    || length input.items == 0
    || ltb max_limit (length input.items)

abbrev pub sorted_input : CreateInput → CreateInput
sorted_input input = record input { items = sort_by product_less input.items }

-- `Service.Create`
unfoldable pub create :
    (CreateInput → String) → TenantContext → String → CreateInput → Tx TransferError TransferView
unfolding check_items trim_space sort_by Repository.create
create digest tenant key input = do
  throw_if (not (can_write tenant.role)) forbidden
  throw_if (bad_request (trim_space key) input) invalid_input
  throw_if (not (check_items (sorted_input input).items)) invalid_input
  Repository.create tenant.organization_id tenant.user_id (trim_space key)
      (digest (sorted_input input)) (sorted_input input)

-- `Service.Dispatch`
unfoldable pub dispatch : Clock → TenantContext → ℕ → String → Tx TransferError TransferView
unfolding trim_space Shipping.dispatch
dispatch clock tenant id key = do
  throw_if (not (can_write tenant.role)) forbidden
  throw_if (id == 0 || bad_key (trim_space key)) invalid_input
  Shipping.dispatch clock tenant.organization_id tenant.user_id id (trim_space key)

-- `Service.Receive`
unfoldable pub receive : Clock → TenantContext → ℕ → String → Tx TransferError TransferView
unfolding trim_space Shipping.receive
receive clock tenant id key = do
  throw_if (not (can_write tenant.role)) forbidden
  throw_if (id == 0 || bad_key (trim_space key)) invalid_input
  Shipping.receive clock tenant.organization_id tenant.user_id id (trim_space key)

-- `Service.Cancel`
unfoldable pub cancel : Clock → TenantContext → ℕ → Tx TransferError TransferView
unfolding Shipping.cancel
cancel clock tenant id = do
  throw_if (not (can_write tenant.role)) forbidden
  throw_if (id == 0) not_found
  Shipping.cancel clock tenant.organization_id tenant.user_id id
