-- ===== src/Organization/Owners.antt =====
-- An organization keeps an owner.
use flowcart.Prelude.{
  ℕ, ◌+◌, ◌≤◌, ◌≡◌, refl, inl, inr, true, false, not, ◌&&◌, some, List, [], ◌∷◌, arith, leb, ◌==◌,
  if◌then◌else◌, length, take, first, select, update, All, Apart, Bool-cases, Option-cases, ok,
}
use flowcart.Database.{Db, Role, Member, transact, transact-keeps}
use flowcart.Organization.Role.{is_owner}
use flowcart.Organization.Repository.{
  is_member, find_member, owners, lock_owner_count, set_role, change_role, remove_member,
}

-- Two members differ in their key.
abbrev pub OtherMember : Member → Member → Type 0
OtherMember m n = ¬ ((m.organization_id ≡ n.organization_id) × (m.user_id ≡ n.user_id))

abbrev pub UniqueMembers : List Member → Type 0
UniqueMembers = Apart OtherMember

abbrev pub owner_count : ℕ → List Member → ℕ
owner_count q ms = length (owners q ms)

abbrev pub HasOwner : ℕ → Db → Type 0
HasOwner q db = 1 ≤ owner_count q db.members

module _ (o user : ℕ) where
  -- A row that a key does not find is not changed, nor is what follows the one that it finds.
  pub unmatched :
      (m : Member) (ms : List Member)
      → is_member o user m ≡ true
      → All (OtherMember m) ms
      → All (λ n. is_member o user n ≡ false) ms
  unmatched m [] e other = tt
  unmatched m (n ∷ ms) e other = (ground (arith, other.0), unmatched m ms e other.1)

  pub update_unmatched :
      (role : Role) (ms : List Member)
      → All (λ n. is_member o user n ≡ false) ms
      → update (is_member o user) (set_role role) ms ≡ ms
  update_unmatched role [] u = refl
  update_unmatched role (n ∷ ms) u = rw (u.0, update_unmatched role ms u.1) refl

  pub select_unmatched :
      (ms : List Member)
      → All (λ n. is_member o user n ≡ false) ms
      → select (λ m. not (is_member o user m)) ms ≡ ms
  select_unmatched [] u = refl
  select_unmatched (n ∷ ms) u = rw (u.0, select_unmatched ms u.1) refl

  -- A change of a role takes an owner off only where the member was one and no longer is.
  pub owner_count-update :
      (q : ℕ) (role : Role) (ms : List Member) (found : Member)
      → UniqueMembers ms
      → first (is_member o user) ms ≡ some found
      → owner_count q ms
        ≤ owner_count q (update (is_member o user) (set_role role) ms)
          + (if o == q && (is_owner found.role && not (is_owner role)) then 1 else 0)
  unfolding owners
  owner_count-update q role [] found unique f = absurd (cc)
  owner_count-update q role (m ∷ ms) found unique f = elim (Bool-cases (is_member o user m)) [
    | inl e ↦
        let same = update_unmatched role ms (unmatched m ms e unique.0) in
        ground (arith, e, f, same)
    | inr e ↦ ground (arith, e, owner_count-update q role ms found unique.1 (ground (arith, e, f)))
  ]

  pub owner_count-remove :
      (q : ℕ) (ms : List Member) (found : Member)
      → UniqueMembers ms
      → first (is_member o user) ms ≡ some found
      → owner_count q ms
        ≤ owner_count q (select (λ m. not (is_member o user m)) ms)
          + (if o == q && is_owner found.role then 1 else 0)
  unfolding owners
  owner_count-remove q [] found unique f = absurd (cc)
  owner_count-remove q (m ∷ ms) found unique f = elim (Bool-cases (is_member o user m)) [
    | inl e ↦
        let same = select_unmatched ms (unmatched m ms e unique.0) in ground (arith, e, f, same)
    | inr e ↦ ground (arith, e, owner_count-remove q ms found unique.1 (ground (arith, e, f)))
  ]

  -- What a change of a role that committed tells.
  pub record IsChanged (role : Role) (db after : Db) : Type 0 where
    pub found : Member
    pub is_found : find_member o user db ≡ some found
    pub kept : is_owner found.role && not (is_owner role) && leb (lock_owner_count o db) 1 ≡ false
    pub members : after.members ≡ update (is_member o user) (set_role role) db.members

  pub change_role-IsChanged :
      (role : Role) (db after : Db)
      → change_role o user role db ≡ ok (tt, after)
      → IsChanged role db after
  unfolding change_role
  change_role-IsChanged role db after h = elim (Option-cases (find_member o user db)) [
    | inl e ↦ absurd (ground (arith, e, h))
    | inr (m, e) ↦ record {
      found = m;
      is_found = e;
      kept = ground (arith, e, h);
      members = ground (arith, e, h);
    }
  ]

  pub record IsRemoved (db after : Db) : Type 0 where
    pub found : Member
    pub is_found : find_member o user db ≡ some found
    pub kept : is_owner found.role && leb (lock_owner_count o db) 1 ≡ false
    pub members : after.members ≡ select (λ m. not (is_member o user m)) db.members

  pub remove_member-IsRemoved :
      (db after : Db) → remove_member o user db ≡ ok (tt, after) → IsRemoved db after
  unfolding remove_member
  remove_member-IsRemoved db after h = elim (Option-cases (find_member o user db)) [
    | inl e ↦ absurd (ground (arith, e, h))
    | inr (m, e) ↦ record {
      found = m;
      is_found = e;
      kept = ground (arith, e, h);
      members = ground (arith, e, h);
    }
  ]

-- The count stops at two.
locked_two : {A : Type 0} (xs : List A) → leb (length (take 2 xs)) 1 ≡ false → 2 ≤ length xs
locked_two [] h = ground (arith, h)
locked_two (x ∷ []) h = ground (arith, h)
locked_two (x ∷ y ∷ xs) h = omega arith

-- No change of a role and no removal of a member leaves an organization that had an owner without
-- one.
pub members-HasOwner :
    (o user : ℕ) (role : Role) (db : Db) (q : ℕ)
    → UniqueMembers db.members
    → HasOwner q db
    → HasOwner q (transact (change_role o user role) db).1
      × HasOwner q (transact (remove_member o user) db).1
unfolding lock_owner_count
members-HasOwner o user role db q unique some_owner = (
  transact-keeps (HasOwner q) (change_role o user role) db some_owner (λ u after h.
      let c = change_role-IsChanged o user role db after h in
      let count = owner_count-update o user q role db.members c.found unique c.is_found in
      rw c.members (ground (arith, count, some_owner, c.kept, locked_two (owners o db.members)))),
  transact-keeps (HasOwner q) (remove_member o user) db some_owner (λ u after h.
      let c = remove_member-IsRemoved o user db after h in
      let count = owner_count-remove o user q db.members c.found unique c.is_found in
      rw c.members (ground (arith, count, some_owner, c.kept, locked_two (owners o db.members)))),
)
