-- ===== src/Allocation/Request.antt =====
-- `normalizeRequest`: which requests it accepts, and the map that it makes of them.
use flowcart.Prelude.{
  ℕ, ◌+◌, ◌≡◌, ◌≢◌, refl, sym, ◌∙◌, ◌↔◌, inl, inr, true, false, ◌||◌, none, some, List, [], ◌∷◌,
  arith, ℤ, pos, pos_part, ◌<ℤ◌, leb_ℤ, IsInt64, Map, lookup, insert, lookup-insert, All, Apart,
  length, ◌==◌, ==→eq, ==_refl, if◌then◌else◌, Bool-cases, Option-cases, Result, ok, err,
}
use flowcart.Allocation.Model.{
  nil_id, AllocationItem, AllocationRequest, AllocationError, invalid_request,
}
use flowcart.Allocation.Score.{get}
use flowcart.Allocation.Engine.{normalize_items, normalize_request}
use flowcart.Allocation.Remaining.{IsBounded, get-insert}

-- The units that a request asks for of a product.
abbrev pub requested : ℕ → List AllocationItem → ℕ
requested p [] = 0
requested p (i ∷ is) = (if i.product_id == p then pos_part i.quantity else 0) + requested p is

abbrev pub Int64Items : List AllocationItem → Type 0
Int64Items = All (λ i. IsInt64 i.quantity)

-- The request names products, each once, and asks for at least one unit of each.
abbrev pub Asks : AllocationItem → Type 0
Asks i = (i.product_id ≢ nil_id) × (pos 0 <ℤ i.quantity)

abbrev pub OtherItem : AllocationItem → AllocationItem → Type 0
OtherItem i j = i.product_id ≢ j.product_id

abbrev pub IsWellFormed : AllocationRequest → Type 0
IsWellFormed r = (r.items ≢ []) × All Asks r.items × Apart OtherItem r.items

-- What the loop makes of the items: a map that adds their quantities, or a refusal.
abbrev pub Normalized : List AllocationItem → Map ℤ → Result AllocationError (Map ℤ) → Type 0
Normalized items m (err e) = e ≡ invalid_request
Normalized items m (ok m') =
    IsBounded m' × ((p : ℕ) → pos_part (get p m') ≡ pos_part (get p m) + requested p items)

item-IsBounded :
    (i : AllocationItem) (m : Map ℤ)
    → IsBounded m
    → IsInt64 i.quantity
    → pos 0 <ℤ i.quantity
    → IsBounded (insert i.product_id i.quantity m)
item-IsBounded i m bounded int positive p =
    ground (arith, get-insert i.product_id p i.quantity m, bounded p)

normalize_items-Normalized :
    (items : List AllocationItem) (m : Map ℤ)
    → Int64Items items
    → IsBounded m
    → Normalized items m (normalize_items items m)
unfolding normalize_items
normalize_items-Normalized [] m ints bounded = (bounded, λ p. omega arith)
normalize_items-Normalized (i ∷ is) m ints bounded =
    elim (Bool-cases (i.product_id == nil_id || leb_ℤ i.quantity (pos 0))) [
      | inl e ↦ rw e refl
      | inr e ↦ elim (Option-cases (lookup i.product_id m)) [
        | inr (v, f) ↦ rw (e, f) refl
        | inl f ↦
            rw (e, f)
              (shift (normalize_items is (insert i.product_id i.quantity m))
                (normalize_items-Normalized is (insert i.product_id i.quantity m) ints.1
                  (item-IsBounded i m bounded ints.0 (ground arith)))
                f)
      ]
    ]
  where
    shift :
        (r : Result AllocationError (Map ℤ))
        → Normalized is (insert i.product_id i.quantity m) r
        → lookup i.product_id m ≡ none
        → Normalized (i ∷ is) m r
    shift (err e) n f = n
    shift (ok m') n f = (
      n.0,
      λ p. ground (arith, n.1 p, get-insert i.product_id p i.quantity m, f, ==→eq i.product_id p),
    )

-- An accepted request becomes a map of its quantities, none of them negative.
pub normalize_request-Normalized :
    (r : AllocationRequest) → Int64Items r.items → Normalized r.items [] (normalize_request r)
unfolding normalize_request
normalize_request-Normalized r ints = elim (Bool-cases (length r.items == 0)) [
  | inl e ↦ rw e refl
  | inr e ↦ rw e (normalize_items-Normalized r.items [] ints (λ p. (refl, omega arith)))
]

-- No item names a product that the map has.
abbrev Unseen : Map ℤ → List AllocationItem → Type 0
Unseen m = All (λ i. lookup i.product_id m ≡ none)

abbrev pub Accepted : Result AllocationError (Map ℤ) → Type 0
Accepted r = (m : Map ℤ) × (r ≡ ok m)

Unseen-insert :
    (k : ℕ) (v : ℤ) (m : Map ℤ) (is : List AllocationItem)
    → Unseen (insert k v m) is ↔ (Unseen m is × All (λ i. k ≢ i.product_id) is)
Unseen-insert k v m [] = (λ _. (tt, tt), λ _. tt)
Unseen-insert k v m (i ∷ is) =
    let rest = Unseen-insert k v m is in
    (
      λ u.
          let (a, b) = rest.0 u.1 in
          (
            (ground (arith, lookup-insert k i.product_id v m), a),
            (ground (arith, lookup-insert k i.product_id v m, ==_refl k), b),
          ),
      λ u. (
        ground (arith, lookup-insert k i.product_id v m, ==→eq k i.product_id),
        rest.1 (u.0.1, u.1.1),
      ),
    )

pub refused_item :
    (i : AllocationItem) (is : List AllocationItem) (m m' : Map ℤ)
    → (i.product_id == nil_id || leb_ℤ i.quantity (pos 0)) ≡ true
    → normalize_items (i ∷ is) m ≢ ok m'
unfolding normalize_items
refused_item i is m m' e h = ground arith

pub seen_item :
    (i : AllocationItem) (is : List AllocationItem) (m m' : Map ℤ) (v : ℤ)
    → lookup i.product_id m ≡ some v
    → normalize_items (i ∷ is) m ≢ ok m'
unfolding normalize_items
seen_item i is m m' v e h = ground arith

pub accepted_item :
    (i : AllocationItem) (is : List AllocationItem) (m : Map ℤ)
    → (i.product_id == nil_id || leb_ℤ i.quantity (pos 0)) ≡ false
    → lookup i.product_id m ≡ none
    → normalize_items (i ∷ is) m ≡ normalize_items is (insert i.product_id i.quantity m)
unfolding normalize_items
accepted_item i is m e f = ground arith

normalize_items_sound :
    (items : List AllocationItem) (m m' : Map ℤ)
    → normalize_items items m ≡ ok m'
    → All Asks items × Apart OtherItem items × Unseen m items
normalize_items_sound [] m m' h = (tt, tt, tt)
normalize_items_sound (i ∷ is) m m' h =
    elim (Bool-cases (i.product_id == nil_id || leb_ℤ i.quantity (pos 0))) [
      | inl e ↦ absurd (refused_item i is m m' e h)
      | inr e ↦ elim (Option-cases (lookup i.product_id m)) [
        | inr (v, f) ↦ absurd (seen_item i is m m' v f h)
        | inl f ↦
            let (asks, apart, unseen) =
              normalize_items_sound is (insert i.product_id i.quantity m) m'
                (sym (accepted_item i is m e f) ∙ h) in
            let (before, others) = (Unseen-insert i.product_id i.quantity m is).0 unseen in
            ((ground arith, asks), (others, apart), (f, before))
      ]
    ]

normalize_items_complete :
    (items : List AllocationItem) (m : Map ℤ)
    → All Asks items
    → Apart OtherItem items
    → Unseen m items
    → Accepted (normalize_items items m)
unfolding normalize_items
normalize_items_complete [] m asks apart unseen = (m, refl)
normalize_items_complete (i ∷ is) m asks apart unseen =
    rw (accepted_item i is m (ground arith) unseen.0) (
      normalize_items_complete is (insert i.product_id i.quantity m) asks.1 apart.1
        ((Unseen-insert i.product_id i.quantity m is).1 (unseen.1, apart.0)))

Unseen-nil : (items : List AllocationItem) → Unseen [] items
Unseen-nil [] = tt
Unseen-nil (i ∷ is) = (refl, Unseen-nil is)

-- A request is accepted exactly when it names at least one product, none of them nil or twice,
-- and asks for at least one unit of each.
pub normalize_request-accepts :
    (r : AllocationRequest) → Accepted (normalize_request r) ↔ IsWellFormed r
unfolding normalize_request
normalize_request-accepts r = elim (Bool-cases (length r.items == 0)) [
  | inl e ↦ (λ a. cc (a.1, e), λ w. absurd (w.0 (ground arith)))
  | inr e ↦ rw e (
    λ a.
        let (asks, apart, _) = normalize_items_sound r.items [] a.0 a.1 in
        (λ none_asked. cc (e, none_asked), asks, apart),
    λ w. normalize_items_complete r.items [] w.1 w.2 (Unseen-nil r.items),
  )
]
