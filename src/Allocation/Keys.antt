-- ===== src/Allocation/Keys.antt =====
-- The maps of the engine name no product twice.
use flowcart.Prelude.{
  ℕ, ◌≤◌, ◌<◌, ◌≡◌, ◌≢◌, refl, sym, ◌∙◌, inl, inr, true, ◌||◌, List, [], ◌∷◌, arith, ℤ, pos,
  pos_part, neg_part, leb_ℤ, Map, lookup, insert, All, Apart, ◌==◌, ==→eq, ==_refl, Bool-cases,
  Option-cases, ok,
}
use flowcart.Allocation.Model.{nil_id, AllocationItem, AllocationDecision}
use flowcart.Allocation.Score.{get}
use flowcart.Allocation.Engine.{normalize_items, take_decisions, drop_by, covers, has_remaining}
use flowcart.Allocation.Request.{refused_item, seen_item, accepted_item}

abbrev pub OtherKey : ℕ × ℤ → ℕ × ℤ → Type 0
OtherKey a b = a.0 ≢ b.0

abbrev pub UniqueKeys : Map ℤ → Type 0
UniqueKeys = Apart OtherKey

abbrev Misses : ℕ → Map ℤ → Type 0
Misses k = All (λ e. k ≢ e.0)

get_missing : (k : ℕ) (m : Map ℤ) → Misses k m → get k m ≡ pos 0
get_missing k [] h = refl
get_missing k ((j, v) ∷ m) h = ground (arith, get_missing k m h.1)

insert-Misses : (j k : ℕ) (v : ℤ) (m : Map ℤ) → j ≢ k → Misses j m → Misses j (insert k v m)
insert-Misses j k v [] n h = (n, tt)
insert-Misses j k v ((i, w) ∷ m) n h = elim (Bool-cases (i == k)) [
  | inl e ↦ rw e (n, h.1)
  | inr e ↦ rw e (h.0, insert-Misses j k v m n h.1)
]

insert-UniqueKeys : (k : ℕ) (v : ℤ) (m : Map ℤ) → UniqueKeys m → UniqueKeys (insert k v m)
insert-UniqueKeys k v [] h = (tt, tt)
insert-UniqueKeys k v ((i, w) ∷ m) h = elim (Bool-cases (i == k)) [
  | inl e ↦ let same : i ≡ k = ==→eq i k e in rw e (rw same at h.0, h.1)
  | inr e ↦ rw e (
    insert-Misses i k v m (λ same. ground (arith, e, same, ==_refl i)) h.0,
    insert-UniqueKeys k v m h.1,
  )
]

pub take_decisions-UniqueKeys :
    (ds : List AllocationDecision) (m : Map ℤ) → UniqueKeys m → UniqueKeys (take_decisions ds m)
unfolding take_decisions
take_decisions-UniqueKeys [] m h = h
take_decisions-UniqueKeys (d ∷ ds) m h =
    take_decisions-UniqueKeys ds (drop_by d.product_id d.quantity m)
      (insert-UniqueKeys d.product_id _ m h)

pub normalize_items-UniqueKeys :
    (items : List AllocationItem) (m m' : Map ℤ)
    → UniqueKeys m
    → normalize_items items m ≡ ok m'
    → UniqueKeys m'
unfolding normalize_items
normalize_items-UniqueKeys [] m m' u h = let e : m ≡ m' = cc in rw e at u
normalize_items-UniqueKeys (i ∷ is) m m' u h =
    elim (Bool-cases (i.product_id == nil_id || leb_ℤ i.quantity (pos 0))) [
      | inl e ↦ absurd (refused_item i is m m' e h)
      | inr e ↦ elim (Option-cases (lookup i.product_id m)) [
        | inr (v, f) ↦ absurd (seen_item i is m m' v f h)
        | inl f ↦
            normalize_items-UniqueKeys is (insert i.product_id i.quantity m) m'
              (insert-UniqueKeys i.product_id i.quantity m u) (sym (accepted_item i is m e f) ∙ h)
      ]
    ]

-- Where something remains, it is of a product.
pub has_remaining-product :
    (m : Map ℤ) → UniqueKeys m → has_remaining m ≡ true → (p : ℕ) × (0 < pos_part (get p m))
unfolding has_remaining
has_remaining-product [] u h = absurd (cc)
has_remaining-product ((k, v) ∷ m) u h = elim (Bool-cases (has_remaining m)) [
  | inr e ↦ (k, ground (arith, e, h, ==_refl k))
  | inl e ↦
      let (p, some_left) = has_remaining-product m u.1 e in
      elim (Bool-cases (k == p)) [
        | inl same ↦ absurd (ground (arith, some_left, get_missing k m u.0, ==→eq k p same))
        | inr other ↦ (p, ground (arith, other, some_left))
      ]
]

-- A map that has of every product what another asks for covers it.
pub covers_enough :
    (available remaining : Map ℤ)
    → UniqueKeys remaining
    → ((p : ℕ) → neg_part (get p available) ≡ 0)
    → ((p : ℕ) → pos_part (get p remaining) ≤ pos_part (get p available))
    → covers available remaining ≡ true
unfolding covers
covers_enough available [] u nonneg h = refl
covers_enough available ((k, v) ∷ m) u nonneg h =
    let rest = covers_enough available m u.1 nonneg (λ p. elim (Bool-cases (k == p)) [
      | inl e ↦ ground (arith, get_missing k m u.0, ==→eq k p e)
      | inr e ↦ ground (arith, e, h p)
    ]) in
    ground (arith, rest, nonneg k, h k, ==_refl k)
