-- ===== src/Access.antt =====
-- Who may change the tables of an organization, over the services of apps/api/internal/inventory,
-- order, transfer and fulfillment.
use flowcart.Prelude.{ℕ, String, ◌≡◌, refl, inl, inr, ◌⊎◌, false, List, Option, ℤ, err}
use flowcart.Database.{Db, Clock, Tx, transact, Role, owner, admin, warehouse_manager}
use flowcart.Organization.Role.{TenantContext, can_write}
use flowcart.Inventory.Repository.{InventoryError}
use flowcart.Inventory.Service as Inventory
use flowcart.Order.Model.{OrderError}
use flowcart.Order.Model as OrderInput
use flowcart.Order.Service as Order
use flowcart.Transfer.Reading.{TransferError}
use flowcart.Transfer.Creating as TransferInput
use flowcart.Transfer.Service as Transfer
use flowcart.Fulfillment.Model.{FulfillmentError}
use flowcart.Fulfillment.Model as FulfillmentInput
use flowcart.Fulfillment.Service as Fulfillment
mod Tests

-- The roles that write: owners, admins and warehouse managers.
abbrev pub IsWriter : Role → Type 0
IsWriter role = (role ≡ owner) ⊎ (role ≡ admin) ⊎ (role ≡ warehouse_manager)

-- A writer asks for the operation, or it is refused and the tables stay as they are.
abbrev pub OnlyWriters : {E A : Type 0} → Role → E → Tx E A → Db → Type 0
OnlyWriters role refusal m db = IsWriter role ⊎ (transact m db ≡ (err refusal, db))

can_write-IsWriter : (role : Role) → IsWriter role ⊎ (can_write role ≡ false)
can_write-IsWriter owner = inl (inl refl)
can_write-IsWriter admin = inl (inr (inl refl))
can_write-IsWriter warehouse_manager = inl (inr (inr refl))
can_write-IsWriter _ = inr refl

-- what a request asks of the services
pub record Request : Type 0 where
  pub clock : Clock
  pub tenant : TenantContext
  pub id : ℕ
  pub other_id : ℕ
  pub quantity : ℤ
  pub reorder_point : Option ℤ
  pub target : Option ℤ
  pub key : String
  pub order : OrderInput.CreateInput
  pub auto_order : OrderInput.AutoCreateInput
  pub transfer : TransferInput.CreateInput
  pub fulfillment : FulfillmentInput.CreateInput
  pub digest_order : OrderInput.CreateInput → String
  pub digest_auto : OrderInput.AutoCreateInput → String
  pub digest_transfer : TransferInput.CreateInput → String
  pub digest_ids : List ℕ → String

-- Each operation that writes is only for writers.
abbrev pub WritersOnly : Request → Db → Type 0
WritersOnly r db =
    OnlyWriters (r.tenant).role InventoryError.forbidden
      (Inventory.create r.clock r.tenant r.id r.other_id r.quantity) db
    × OnlyWriters (r.tenant).role InventoryError.forbidden
        (Inventory.adjust r.clock r.tenant r.id r.quantity) db
    × OnlyWriters (r.tenant).role InventoryError.forbidden
        (Inventory.reserve r.clock r.tenant r.id r.quantity) db
    × OnlyWriters (r.tenant).role InventoryError.forbidden (Inventory.release r.clock r.tenant r.id)
        db
    × OnlyWriters (r.tenant).role InventoryError.forbidden
        (Inventory.update_replenishment_policy r.clock r.tenant r.id r.reorder_point r.target) db
    × OnlyWriters (r.tenant).role OrderError.forbidden
        (Order.create r.digest_order r.clock r.tenant r.key r.order) db
    × OnlyWriters (r.tenant).role OrderError.forbidden
        (Order.auto_create r.digest_auto r.clock r.tenant r.key r.auto_order) db
    × OnlyWriters (r.tenant).role OrderError.forbidden (Order.cancel r.clock r.tenant r.id) db
    × OnlyWriters (r.tenant).role TransferError.forbidden
        (Transfer.create r.digest_transfer r.tenant r.key r.transfer) db
    × OnlyWriters (r.tenant).role TransferError.forbidden
        (Transfer.dispatch r.clock r.tenant r.id r.key) db
    × OnlyWriters (r.tenant).role TransferError.forbidden
        (Transfer.receive r.clock r.tenant r.id r.key) db
    × OnlyWriters (r.tenant).role TransferError.forbidden (Transfer.cancel r.clock r.tenant r.id) db
    × OnlyWriters (r.tenant).role FulfillmentError.forbidden
        (Fulfillment.complete r.digest_ids r.clock r.tenant r.id r.key r.fulfillment) db

-- Every operation of the services of stock, orders, transfers and fulfillments that writes is
-- carried out for owners, admins and warehouse managers alone: whoever else asks for it is told that
-- it is forbidden, and the tables stay as they are.
pub services-OnlyWriters : (r : Request) (db : Db) → WritersOnly r db
unfolding Inventory.create Inventory.adjust Inventory.reserve Inventory.release
    Inventory.update_replenishment_policy Order.create Order.auto_create Order.cancel
    Transfer.create Transfer.dispatch Transfer.receive Transfer.cancel Fulfillment.complete
services-OnlyWriters r db = elim (can_write-IsWriter (r.tenant).role) [
  | inl w ↦
      (inl w, inl w, inl w, inl w, inl w, inl w, inl w, inl w, inl w, inl w, inl w, inl w, inl w)
  | inr n ↦ (
    inr (rw n refl),
    inr (rw n refl),
    inr (rw n refl),
    inr (rw n refl),
    inr (rw n refl),
    inr (rw n refl),
    inr (rw n refl),
    inr (rw n refl),
    inr (rw n refl),
    inr (rw n refl),
    inr (rw n refl),
    inr (rw n refl),
    inr (rw n refl),
  )
]
