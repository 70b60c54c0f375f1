-- ===== src/Inventory/Service.antt =====
-- apps/api/internal/inventory/service.go: who may write, and the checks of the input.
use flowcart.Prelude.{ℕ, not, ◌||◌, Option, ℤ, pos, ltb_ℤ, leb_ℤ, eqb_ℤ, ◌==◌}
use flowcart.Database.{Clock, Tx, Reservation, ◌>>◌, throw_if}
use flowcart.Organization.Role.{TenantContext, can_write}
use flowcart.Inventory.Repository as Repository
use flowcart.Inventory.Repository.{
  InventoryError, forbidden, invalid_input, invalid_replenishment_policy, LevelView,
}
use flowcart.Inventory.Adjust as Adjust
use flowcart.Inventory.Adjust.{valid_replenishment_policy}

-- `Service.Create`
unfoldable pub create : Clock → TenantContext → ℕ → ℕ → ℤ → Tx InventoryError LevelView
unfolding Repository.create
create clock tenant product warehouse on_hand = do
  throw_if (not (can_write tenant.role)) forbidden
  throw_if (product == 0 || warehouse == 0 || ltb_ℤ on_hand (pos 0)) invalid_input
  Repository.create clock tenant.organization_id product warehouse on_hand

-- `Service.Adjust`, over the repository, which has `AdjustWithUser`
unfoldable pub adjust : Clock → TenantContext → ℕ → ℤ → Tx InventoryError LevelView
unfolding Adjust.adjust
adjust clock tenant id delta = do
  throw_if (not (can_write tenant.role)) forbidden
  throw_if (eqb_ℤ delta (pos 0)) invalid_input
  Adjust.adjust clock tenant.organization_id tenant.user_id id delta

-- `Service.Reserve`
unfoldable pub reserve : Clock → TenantContext → ℕ → ℤ → Tx InventoryError Reservation
unfolding Repository.reserve
reserve clock tenant inventory_id quantity = do
  throw_if (not (can_write tenant.role)) forbidden
  throw_if (inventory_id == 0 || leb_ℤ quantity (pos 0)) invalid_input
  Repository.reserve clock tenant.organization_id inventory_id quantity

-- `Service.Release`
unfoldable pub release : Clock → TenantContext → ℕ → Tx InventoryError Reservation
unfolding Repository.release
release clock tenant reservation_id = do
  throw_if (not (can_write tenant.role)) forbidden
  throw_if (reservation_id == 0) invalid_input
  Repository.release clock tenant.organization_id reservation_id

-- `Service.UpdateReplenishmentPolicy`
unfoldable pub update_replenishment_policy :
    Clock → TenantContext → ℕ → Option ℤ → Option ℤ → Tx InventoryError LevelView
unfolding Adjust.update_replenishment_policy
update_replenishment_policy clock tenant id reorder_point target = do
  throw_if (not (can_write tenant.role)) forbidden
  throw_if (id == 0 || not (valid_replenishment_policy reorder_point target))
      invalid_replenishment_policy
  Adjust.update_replenishment_policy clock tenant.organization_id id reorder_point target
