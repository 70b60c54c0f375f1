-- ===== src/Organization/Role.antt =====
-- apps/api/internal/organization/model.go and authorization.go: the roles, what each may do, and
-- the tenant that a request is made for.
use flowcart.Database.{Role, owner, admin, warehouse_manager, other}
use flowcart.Prelude.{ℕ, Bool, true, false, not, ◌||◌, if◌then◌else◌}

abbrev pub is_owner : Role → Bool
is_owner owner = true
is_owner _ = false

abbrev pub is_admin : Role → Bool
is_admin admin = true
is_admin _ = false

-- `validRole`
abbrev pub valid_role : Role → Bool
valid_role (other _) = false
valid_role _ = true

-- `canUpdateOrganization`
abbrev pub can_update_organization : Role → Bool
can_update_organization role = is_owner role || is_admin role

-- `canManageMembers`
abbrev pub can_manage_members : Role → Bool
can_manage_members role = is_owner role || is_admin role

-- `canAssignRole`
abbrev pub can_assign_role : Role → Role → Bool
can_assign_role actor target =
    if not (valid_role target) || not (can_manage_members actor)
    then false
    else if is_owner target
    then is_owner actor
    else true

-- `canWrite` of the inventory, order, transfer, payment and fulfillment services
abbrev pub can_write : Role → Bool
can_write owner = true
can_write admin = true
can_write warehouse_manager = true
can_write _ = false

pub record TenantContext : Type 0 where
  pub organization_id : ℕ
  pub user_id : ℕ
  pub role : Role
