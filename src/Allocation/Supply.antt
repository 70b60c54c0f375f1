-- ===== src/Allocation/Supply.antt =====
-- `networkCanSatisfy`: the total that it makes of the candidates is what they have together.
use flowcart.Prelude.{
  ℕ, ◌+◌, ◌≤◌, ◌≡◌, refl, inl, inr, true, List, [], ◌∷◌, arith, ℤ, pos, pos_part, neg_part, ltb_ℤ,
  max_int64, add64, Map, ==→eq, ==_refl, Bool-cases,
}
use flowcart.Allocation.Model.{InventoryCandidate}
use flowcart.Allocation.Score.{get}
use flowcart.Allocation.Engine.{bump, network_total, network_can_satisfy}
use flowcart.Allocation.Remaining.{get-insert}
use flowcart.Allocation.Grouping.{supply}
use flowcart.Allocation.Keys.{UniqueKeys, covers_enough}

add64_nonneg :
    (a b : ℤ)
    → neg_part a ≡ 0
    → neg_part b ≡ 0
    → pos_part a + pos_part b ≤ max_int64
    → (neg_part (add64 a b) ≡ 0) × (pos_part (add64 a b) ≡ pos_part a + pos_part b)
unfolding add64
add64_nonneg (pos a) (pos b) ha hb h = ground arith
add64_nonneg (pos a) _ ha hb h = absurd (omega arith)
add64_nonneg _ b ha hb h = absurd (omega arith)

-- One entry of the total: a candidate in stock adds what it has.
get-bump :
    (c : InventoryCandidate) (cs : List InventoryCandidate) (total : Map ℤ)
    → ((q : ℕ) → neg_part (get q total) ≡ 0)
    → ((q : ℕ) → pos_part (get q total) + supply q (c ∷ cs) ≤ max_int64)
    → ltb_ℤ (pos 0) c.available ≡ true
    → (q : ℕ)
    → (neg_part (get q (bump c.product_id c.available total)) ≡ 0)
      × (pos_part (get q (bump c.product_id c.available total)) + supply q cs
          ≡ pos_part (get q total) + supply q (c ∷ cs))
get-bump c cs total nonneg fits e q =
    let k = c.product_id in
    let here = get-insert k q (add64 (get k total) c.available) total in
    let bound = fits k in
    let enough : pos_part (get k total) + pos_part c.available ≤ max_int64 =
      ground (arith, bound, ==_refl k) in
    let sum = add64_nonneg (get k total) c.available (nonneg k) (ground (arith, e)) enough in
    ground (arith, here, sum.0, sum.1, nonneg q, ==→eq k q)

-- The total over the network is the supply, where that is an int64.
pub get-network_total :
    (p : ℕ) (cs : List InventoryCandidate) (total : Map ℤ)
    → ((q : ℕ) → neg_part (get q total) ≡ 0)
    → ((q : ℕ) → pos_part (get q total) + supply q cs ≤ max_int64)
    → (neg_part (get p (network_total cs total)) ≡ 0)
      × (pos_part (get p (network_total cs total)) ≡ pos_part (get p total) + supply p cs)
unfolding network_total
get-network_total p [] total nonneg fits = (nonneg p, omega arith)
get-network_total p (c ∷ cs) total nonneg fits = elim (Bool-cases (ltb_ℤ (pos 0) c.available)) [
  | inr e ↦ rw e (
      let rest = get-network_total p cs total nonneg (λ q. ground (arith, fits q)) in
      (rest.0, ground (arith, e, rest.1)))
  | inl e ↦ rw e (
      let step = get-bump c cs total nonneg fits e in
      let rest =
        get-network_total p cs (bump c.product_id c.available total) (λ q. (step q).0)
          (λ q. omega (arith, step q, fits q)) in
      (rest.0, omega (arith, rest.1, step p)))
]

pub network_can_satisfy_supplied :
    (remaining : Map ℤ) (cs : List InventoryCandidate)
    → UniqueKeys remaining
    → ((p : ℕ) → supply p cs ≤ max_int64)
    → ((p : ℕ) → pos_part (get p remaining) ≤ supply p cs)
    → network_can_satisfy remaining cs ≡ true
unfolding network_can_satisfy
network_can_satisfy_supplied remaining cs unique fits enough =
    let total = λ (p : ℕ). get-network_total p cs [] (λ q. refl) (λ q. omega (arith, fits q)) in
    covers_enough (network_total cs []) remaining unique (λ p. (total p).0)
      (λ p. omega (arith, (total p).1, enough p))
