-- ===== src/Allocation/Remaining.antt =====
-- The map of remaining quantities: what `-=` over a list of decisions leaves of it.
use flowcart.Prelude.{
  ℕ, ◌+◌, ◌≤◌, ◌≡◌, refl, false, List, [], ◌∷◌, ◌++◌, arith, ℤ, pos, pos_part, neg_part, ◌<ℤ◌,
  max_int64, sub64, Map, insert, lookup-insert, All, ◌==◌, ==_refl, ==→eq, if◌then◌else◌,
}
use flowcart.Allocation.Model.{AllocationDecision}
use flowcart.Allocation.Score.{get}
use flowcart.Allocation.Engine.{drop_by, take_decisions, has_remaining, units_left}

-- The units that a list of decisions gives to a product, and to all.
abbrev pub allocated : ℕ → List AllocationDecision → ℕ
allocated p [] = 0
allocated p (d ∷ ds) = (if d.product_id == p then pos_part d.quantity else 0) + allocated p ds

abbrev pub allocated_all : List AllocationDecision → ℕ
allocated_all [] = 0
allocated_all (d ∷ ds) = pos_part d.quantity + allocated_all ds

-- Every decision takes at least one unit.
abbrev pub Positive : List AllocationDecision → Type 0
Positive = All (λ d. pos 0 <ℤ d.quantity)

-- No quantity of the map is negative or beyond an int64.
abbrev pub IsBounded : Map ℤ → Type 0
IsBounded m = (p : ℕ) → (neg_part (get p m) ≡ 0) × (pos_part (get p m) ≤ max_int64)

pub get-insert :
    (k j : ℕ) (v : ℤ) (m : Map ℤ) → get j (insert k v m) ≡ (if k == j then v else get j m)
get-insert k j v m = ground (arith, lookup-insert k j v m)

pub sub64_nonneg :
    (a b : ℤ)
    → neg_part a ≡ 0
    → neg_part b ≡ 0
    → pos_part a ≤ max_int64
    → pos_part b ≤ pos_part a
    → (neg_part (sub64 a b) ≡ 0) × (pos_part (sub64 a b) + pos_part b ≡ pos_part a)
unfolding sub64
sub64_nonneg (pos a) (pos b) ha hb bound le = ground arith
sub64_nonneg (pos a) _ ha hb bound le = absurd (omega arith)
sub64_nonneg _ b ha hb bound le = absurd (omega arith)

pub get-drop_by :
    (k j : ℕ) (v : ℤ) (m : Map ℤ)
    → IsBounded m
    → neg_part v ≡ 0
    → pos_part v ≤ pos_part (get k m)
    → (neg_part (get j (drop_by k v m)) ≡ 0)
      × (pos_part (get j (drop_by k v m)) + (if k == j then pos_part v else 0) ≡ pos_part (get j m))
get-drop_by k j v m bounded nonneg le = ground (
  arith,
  get-insert k j (sub64 (get k m) v) m,
  bounded j,
  bounded k,
  sub64_nonneg (get k m) v (bounded k).0 nonneg (bounded k).1 le,
  ==→eq k j,
)

drop_by-IsBounded :
    (k : ℕ) (v : ℤ) (m : Map ℤ)
    → IsBounded m
    → neg_part v ≡ 0
    → pos_part v ≤ pos_part (get k m)
    → IsBounded (drop_by k v m)
drop_by-IsBounded k v m bounded nonneg le p =
    let step = get-drop_by k p v m bounded nonneg le in let old = bounded p in (step.0, omega arith)

units_left-insert :
    (k : ℕ) (v : ℤ) (m : Map ℤ)
    → units_left (insert k v m) + pos_part (get k m) ≡ units_left m + pos_part v
unfolding units_left
units_left-insert k v [] = omega arith
units_left-insert k v ((j, w) ∷ m) = ground (arith, units_left-insert k v m)

module _ (ds : List AllocationDecision) where
  -- The decisions ask for no more of a product than the map holds.
  abbrev pub Fits : Map ℤ → Type 0
  Fits m = (p : ℕ) → allocated p ds ≤ pos_part (get p m)

Fits-tail :
    (d : AllocationDecision) (ds : List AllocationDecision) (m : Map ℤ)
    → IsBounded m
    → pos 0 <ℤ d.quantity
    → Fits (d ∷ ds) m
    → Fits ds (drop_by d.product_id d.quantity m)
Fits-tail d ds m bounded positive fits p = ground (
  arith,
  fits p,
  fits d.product_id,
  ==_refl d.product_id,
  get-drop_by d.product_id p d.quantity m bounded,
)

Fits-head :
    (d : AllocationDecision) (ds : List AllocationDecision) (m : Map ℤ)
    → Fits (d ∷ ds) m
    → pos_part d.quantity ≤ pos_part (get d.product_id m)
Fits-head d ds m fits = ground (arith, fits d.product_id, ==_refl d.product_id)

pub take_decisions-IsBounded :
    (ds : List AllocationDecision) (m : Map ℤ)
    → IsBounded m
    → Positive ds
    → Fits ds m
    → IsBounded (take_decisions ds m)
unfolding take_decisions
take_decisions-IsBounded [] m bounded positive fits = bounded
take_decisions-IsBounded (d ∷ ds) m bounded positive fits =
    take_decisions-IsBounded ds (drop_by d.product_id d.quantity m)
      (drop_by-IsBounded d.product_id d.quantity m bounded (ground arith) (Fits-head d ds m fits))
      positive.1 (Fits-tail d ds m bounded positive.0 fits)

-- What is left of a product and what the decisions gave make up what there was.
pub get-take_decisions :
    (ds : List AllocationDecision) (m : Map ℤ)
    → IsBounded m
    → Positive ds
    → Fits ds m
    → (p : ℕ) → pos_part (get p (take_decisions ds m)) + allocated p ds ≡ pos_part (get p m)
unfolding take_decisions
get-take_decisions [] m bounded positive fits p = omega arith
get-take_decisions (d ∷ ds) m bounded positive fits p =
    let head = Fits-head d ds m fits in
    let rest =
      get-take_decisions ds (drop_by d.product_id d.quantity m)
        (drop_by-IsBounded d.product_id d.quantity m bounded (ground arith) head) positive.1
        (Fits-tail d ds m bounded positive.0 fits) p in
    ground (arith, rest, head, get-drop_by d.product_id p d.quantity m bounded)

pub units_left-take_decisions :
    (ds : List AllocationDecision) (m : Map ℤ)
    → IsBounded m
    → Positive ds
    → Fits ds m
    → units_left (take_decisions ds m) + allocated_all ds ≡ units_left m
unfolding take_decisions
units_left-take_decisions [] m bounded positive fits = omega arith
units_left-take_decisions (d ∷ ds) m bounded positive fits =
    let head = Fits-head d ds m fits in
    let rest =
      units_left-take_decisions ds (drop_by d.product_id d.quantity m)
        (drop_by-IsBounded d.product_id d.quantity m bounded (ground arith) head) positive.1
        (Fits-tail d ds m bounded positive.0 fits) in
    let here =
      sub64_nonneg (get d.product_id m) d.quantity (bounded d.product_id).0 (ground arith)
        (bounded d.product_id).1 head in
    let spent = units_left-insert d.product_id (sub64 (get d.product_id m) d.quantity) m in
    omega arith

-- The loop's test: nothing is left of any product.
pub has_remaining-false : (m : Map ℤ) → has_remaining m ≡ false → (p : ℕ) → pos_part (get p m) ≡ 0
unfolding has_remaining
has_remaining-false [] h p = refl
has_remaining-false ((k, v) ∷ m) h p =
    ground (arith, λ (e : has_remaining m ≡ false). has_remaining-false m e p)

pub allocated-append :
    (p : ℕ) (ds es : List AllocationDecision)
    → allocated p (ds ++ es) ≡ allocated p ds + allocated p es
allocated-append p [] es = omega arith
allocated-append p (d ∷ ds) es = omega (arith, allocated-append p ds es)
