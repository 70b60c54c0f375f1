-- ===== src/Organization/Rights.antt =====
-- Only an owner makes an owner, or unmakes one.
use flowcart.Prelude.{
  ℕ, ◌≡◌, refl, inl, inr, false, not, some, List, [], ◌∷◌, arith, first, select, update, Bool-cases,
  Option-cases, ok,
}
use flowcart.Database.{Db, Role, Member, transact, transact-keeps}
use flowcart.Organization.Role.{is_owner}
use flowcart.Organization.Repository as Repository
use flowcart.Organization.Repository.{is_member, find_member, is_owner_in, owners, set_role}
use flowcart.Organization.Owners.{
  UniqueMembers, unmatched, update_unmatched, select_unmatched, change_role-IsChanged,
  remove_member-IsRemoved,
}
use flowcart.Organization.Service.{change_role, remove_member}

module _ (o user : ℕ) where
  owners-update :
      (q : ℕ) (role : Role) (ms : List Member) (found : Member)
      → UniqueMembers ms
      → first (is_member o user) ms ≡ some found
      → is_owner found.role ≡ false
      → is_owner role ≡ false
      → owners q (update (is_member o user) (set_role role) ms) ≡ owners q ms
  unfolding owners
  owners-update q role [] found unique f was will = refl
  owners-update q role (m ∷ ms) found unique f was will = elim (Bool-cases (is_member o user m)) [
    | inl e ↦
        let same = update_unmatched o user role ms (unmatched o user m ms e unique.0) in
        ground (arith, e, f, same)
    | inr e ↦
        ground (arith, e, owners-update q role ms found unique.1 (ground (arith, e, f)) was will)
  ]

  owners-remove :
      (q : ℕ) (ms : List Member) (found : Member)
      → UniqueMembers ms
      → first (is_member o user) ms ≡ some found
      → is_owner found.role ≡ false
      → owners q (select (λ m. not (is_member o user m)) ms) ≡ owners q ms
  unfolding owners
  owners-remove q [] found unique f was = refl
  owners-remove q (m ∷ ms) found unique f was = elim (Bool-cases (is_member o user m)) [
    | inl e ↦
        let same = select_unmatched o user ms (unmatched o user m ms e unique.0) in
        ground (arith, e, f, same)
    | inr e ↦ ground (arith, e, owners-remove q ms found unique.1 (ground (arith, e, f)) was)
  ]

-- What a change of a role by a member of a role other than owner tells, if it commits.
change_role-Repository :
    (user o target : ℕ) (role : Role) (db after : Db) (member : Member)
    → find_member o user db ≡ some member
    → is_owner member.role ≡ false
    → change_role user o target role db ≡ ok (tt, after)
    → (found : Member) × (find_member o target db ≡ some found)
      × (is_owner found.role ≡ false)
      × (is_owner role ≡ false)
      × (Repository.change_role o target role db ≡ ok (tt, after))
unfolding change_role
change_role-Repository user o target role db after member f plain h =
    elim (Option-cases (find_member o target db)) [
      | inl e ↦ absurd (ground (arith, f, e, h))
      | inr (found, e) ↦ (
        found,
        e,
        ground (arith, f, e, plain, h),
        ground (arith, f, e, plain, h),
        ground (arith, f, e, plain, h),
      )
    ]

remove_member-Repository :
    (user o target : ℕ) (db after : Db) (member : Member)
    → find_member o user db ≡ some member
    → is_owner member.role ≡ false
    → remove_member user o target db ≡ ok (tt, after)
    → (found : Member) × (find_member o target db ≡ some found)
      × (is_owner found.role ≡ false)
      × (Repository.remove_member o target db ≡ ok (tt, after))
unfolding remove_member
remove_member-Repository user o target db after member f plain h =
    elim (Option-cases (find_member o target db)) [
      | inl e ↦ absurd (ground (arith, f, e, h))
      | inr (found, e) ↦ (found, e, ground (arith, f, e, plain, h), ground (arith, f, e, plain, h))
    ]

-- A change of a role and a removal by a member who is no owner leave the owners of every
-- organization as they were, row by row, committed or not.
pub owners-unchanged :
    (user o target : ℕ) (role : Role) (db : Db) (member : Member) (q : ℕ)
    → UniqueMembers db.members
    → find_member o user db ≡ some member
    → is_owner member.role ≡ false
    → (owners q (transact (change_role user o target role) db).1.members ≡ owners q db.members)
      × (owners q (transact (remove_member user o target) db).1.members ≡ owners q db.members)
owners-unchanged user o target role db member q unique f plain =
    let Same = λ (d : Db). owners q d.members ≡ owners q db.members in
    (
      transact-keeps Same (change_role user o target role) db refl (λ u after h.
          let (found, e, was, will, run) =
            change_role-Repository user o target role db after member f plain h in
          rw (change_role-IsChanged o target role db after run).members
            (owners-update o target q role db.members found unique e was will)),
      transact-keeps Same (remove_member user o target) db refl (λ u after h.
          let (found, e, was, run) =
            remove_member-Repository user o target db after member f plain h in
          rw (remove_member-IsRemoved o target db after run).members
            (owners-remove o target q db.members found unique e was)),
    )
