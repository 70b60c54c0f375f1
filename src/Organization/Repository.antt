-- ===== src/Organization/Repository.antt =====
-- apps/api/internal/organization/repository.go: the transactions on organizations and members.
use text.Mathlib.Text.{◌==◌ as text_eq}
use flowcart.Prelude.{
  ℕ, String, Bool, not, ◌&&◌, Option, none, some, List, [], ◌∷◌, ◌++◌, ◌==◌, leb, length, take,
  first, select, update,
}
use flowcart.Database.{
  Db, Tx, Role, owner, Organization, Member, ◌>>=◌, ◌>>◌, pure, throw, gets, or_throw, modify,
  throw_if,
}
use flowcart.Organization.Role.{is_owner, valid_role}

pub data OrganizationError : Type 0 where
  not_found member_not_found user_not_found slug_taken : OrganizationError
  duplicate_membership last_owner forbidden invalid_role database_error : OrganizationError

abbrev pub is_member : ℕ → ℕ → Member → Bool
is_member organization user m = m.organization_id == organization && m.user_id == user

abbrev pub find_member : ℕ → ℕ → Db → Option Member
find_member organization user db = first (is_member organization user) db.members

-- `FindMembership`
unfoldable pub find_membership : ℕ → ℕ → Tx OrganizationError Member
find_membership organization user = λ db. or_throw (find_member organization user db) not_found db

abbrev pub has_slug : String → Organization → Bool
has_slug slug o = text_eq o.slug slug

abbrev pub insert_member : ℕ → ℕ → Role → Db → Db
insert_member organization user role db = record db {
  members =
      db.members ++ record { organization_id = organization; user_id = user; role = role } ∷ [];
}

-- `CreateWithOwner`: the identifier is new, so that only the slug can be taken
unfoldable pub create_with_owner : Organization → ℕ → Tx OrganizationError Organization
create_with_owner organization user = do
  taken ← gets (λ db. first (has_slug organization.slug) db.organizations)
  elim taken [ none ↦ pure tt | some _ ↦ throw slug_taken ]
  modify (λ db. record db { organizations = db.organizations ++ organization ∷ [] })
  modify (insert_member organization.id user owner)
  pure organization

-- `AddMember`, with the unique key `(organization_id, user_id)` and the `CHECK` of the roles
unfoldable pub add_member : ℕ → ℕ → Role → Tx OrganizationError (Unit {0})
add_member organization user role = do
  throw_if (not (valid_role role)) database_error
  existing ← gets (find_member organization user)
  elim existing [ none ↦ pure tt | some _ ↦ throw duplicate_membership ]
  modify (insert_member organization user role)

-- `lockOrganization`
unfoldable pub lock_organization : ℕ → Tx OrganizationError (Unit {0})
lock_organization organization = do
  locked ← gets (λ db. first (λ o. o.id == organization) db.organizations)
  elim locked [ none ↦ throw not_found | some _ ↦ pure tt ]

abbrev pub is_owner_in : ℕ → Member → Bool
is_owner_in organization m = m.organization_id == organization && is_owner m.role

-- the rows of the owners
unfoldable pub owners : ℕ → List Member → List Member
owners organization members = select (is_owner_in organization) members

-- `lockOwnerCount`, with its `LIMIT 2`
unfoldable pub lock_owner_count : ℕ → Db → ℕ
unfolding owners
lock_owner_count organization db = length (take 2 (owners organization db.members))

-- the refusal that `ChangeRole` and `RemoveMember` share
unfoldable pub keep_an_owner : Bool → ℕ → Tx OrganizationError (Unit {0})
unfolding lock_owner_count
keep_an_owner loses_owner organization = do
  count ← gets (lock_owner_count organization)
  throw_if (loses_owner && leb count 1) last_owner

abbrev pub set_role : Role → Member → Member
set_role role m = record m { role = role }

-- `ChangeRole`
unfoldable pub change_role : ℕ → ℕ → Role → Tx OrganizationError (Unit {0})
unfolding lock_organization keep_an_owner
change_role organization user role = do
  lock_organization organization
  current ← (λ db. or_throw (find_member organization user db) member_not_found db)
  keep_an_owner (is_owner current.role && not (is_owner role)) organization
  throw_if (not (valid_role role)) database_error
  modify (λ db. record db {
    members = update (is_member organization user) (set_role role) db.members;
  })

-- `RemoveMember`
unfoldable pub remove_member : ℕ → ℕ → Tx OrganizationError (Unit {0})
unfolding lock_organization keep_an_owner
remove_member organization user = do
  lock_organization organization
  current ← (λ db. or_throw (find_member organization user db) member_not_found db)
  keep_an_owner (is_owner current.role) organization
  modify
      (λ db. record db { members = select (λ m. not (is_member organization user m)) db.members })
