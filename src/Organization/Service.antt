-- ===== src/Organization/Service.antt =====
-- apps/api/internal/organization/service.go: who may change which member.
use flowcart.Prelude.{ℕ, not, ◌&&◌}
use flowcart.Database.{Tx, Role, ◌>>=◌, ◌>>◌, or_throw, throw_if}
use flowcart.Organization.Role.{is_owner, is_admin, can_assign_role, can_manage_members}
use flowcart.Organization.Repository as Repository
use flowcart.Organization.Repository.{
  OrganizationError, not_found, member_not_found, forbidden, find_member,
}

-- `Service.ChangeRole`
unfoldable pub change_role : ℕ → ℕ → ℕ → Role → Tx OrganizationError (Unit {0})
unfolding Repository.change_role
change_role user organization target role = do
  membership ← (λ db. or_throw (find_member organization user db) not_found db)
  throw_if (not (can_assign_role membership.role role)) forbidden
  current ← (λ db. or_throw (find_member organization target db) member_not_found db)
  throw_if (is_admin membership.role && is_owner current.role) forbidden
  Repository.change_role organization target role

-- `Service.RemoveMember`
unfoldable pub remove_member : ℕ → ℕ → ℕ → Tx OrganizationError (Unit {0})
unfolding Repository.remove_member
remove_member user organization target = do
  membership ← (λ db. or_throw (find_member organization user db) not_found db)
  throw_if (not (can_manage_members membership.role)) forbidden
  current ← (λ db. or_throw (find_member organization target db) member_not_found db)
  throw_if (is_owner current.role && not (is_owner membership.role)) forbidden
  Repository.remove_member organization target
