-- ===== src/Organization/Tests.antt =====
-- Runs of the changes of members, and the witnesses.
use flowcart.Prelude.{◌≡◌, refl, err, arith}
use flowcart.Database.{admin, viewer, transact}
use flowcart.Database.Samples.{shop, user, member, sample}
use flowcart.Organization.Repository as Repository
use flowcart.Organization.Repository.{OrganizationError, owners}
use flowcart.Organization.Service.{change_role, remove_member}
use flowcart.Organization.Owners.{UniqueMembers, HasOwner, members-HasOwner}
use flowcart.Organization.Rights.{owners-unchanged}

keeps_last_owner :
    (transact (remove_member user shop user) sample).0 ≡ err OrganizationError.last_owner
unfolding remove_member
keeps_last_owner = refl

-- An admin changes no owner.
admin_refused :
    (transact (change_role 11 shop user viewer) sample).0 ≡ err OrganizationError.forbidden
unfolding change_role
admin_refused = refl

sample-UniqueMembers : UniqueMembers sample.members
sample-UniqueMembers = ground arith

members-HasOwner_example :
    HasOwner shop (transact (Repository.change_role shop user viewer) sample).1
    × HasOwner shop (transact (Repository.remove_member shop user) sample).1
members-HasOwner_example =
    members-HasOwner shop user viewer sample shop sample-UniqueMembers
      (unfold owners in omega arith)

owners-unchanged_example :
    (owners shop (transact (change_role 11 shop 12 viewer) sample).1.members
      ≡ owners shop sample.members)
    × (owners shop (transact (remove_member 11 shop 12) sample).1.members
        ≡ owners shop sample.members)
owners-unchanged_example =
    owners-unchanged 11 shop 12 viewer sample (member 11 admin) shop sample-UniqueMembers refl refl
