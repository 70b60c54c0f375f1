-- ===== src/Allocation/Complete.antt =====
-- `Allocate` serves every request that the stock covers.
use flowcart.Prelude.{
  ℕ, ◌+◌, ◌≤◌, ◌<◌, ◌≡◌, ◌≢◌, ◌↔◌, refl, inl, inr, true, Option, none, some, List, [], ◌∷◌, arith,
  ℤ, pos_part, max_int64, Map, All, length, ◌==◌, ==_refl, Bool-cases, Result, ok, err,
}
use flowcart.Allocation.Model.{
  AllocationItem, AllocationRequest, InventoryCandidate, AllocationResult, WarehouseSnapshot,
  AllocationError,
}
use flowcart.Allocation.Score.{get}
use flowcart.Allocation.Engine.{
  normalize_request, group_warehouses, network_total, network_can_satisfy, best_single_warehouse,
  allocate_from_warehouses, greedy, units_left, allocate_remaining, allocate,
}
use flowcart.Allocation.Remaining.{IsBounded}
use flowcart.Allocation.Grouping.{UniqueStock, Int64Stock, supply, group_warehouses-IsTallied}
use flowcart.Allocation.Request.{
  requested, Asks, Int64Items, IsWellFormed, Normalized, normalize_request-Normalized,
  normalize_request-accepts,
}
use flowcart.Allocation.Single.{covers_le}
use flowcart.Allocation.Keys.{UniqueKeys, normalize_items-UniqueKeys}
use flowcart.Allocation.Supply.{get-network_total, network_can_satisfy_supplied}
use flowcart.Allocation.Lacking.{Named, Without, Ready, Without-group_warehouses}
use flowcart.Allocation.Rounds.{Served, Held, Ready-IsTallied, greedy-Served}

module _ (remaining : Map ℤ) (candidates : List InventoryCandidate) (bounded : IsBounded remaining)
    (unique : UniqueKeys remaining) where
  chosen-Served :
      (ws : List WarehouseSnapshot)
      → All Ready ws
      → Held remaining ws
      → (best : Option WarehouseSnapshot)
      → Served (elim best [
        | some w ↦ some (ok (record { decisions = allocate_from_warehouses remaining (w ∷ []) }))
        | none ↦ greedy (units_left remaining + 1) remaining ws []
      ])
  chosen-Served ws ready held none =
      greedy-Served (units_left remaining + 1) remaining ws [] (omega arith) bounded unique ready
        held
  chosen-Served ws ready held (some w) = tt

  -- A snapshot there is, since one holds the first product that is asked for.
  allocate_remaining-Served :
      UniqueStock candidates
      → Int64Stock candidates
      → All Named candidates
      → ((p : ℕ) → supply p candidates ≤ max_int64)
      → ((p : ℕ) → pos_part (get p remaining) ≤ supply p candidates)
      → (wanted : ℕ) → 0 < pos_part (get wanted remaining)
      → Served (allocate_remaining remaining candidates)
  unfolding allocate_remaining
  allocate_remaining-Served uniques ints named fits enough wanted some_wanted =
      let ws = group_warehouses candidates in
      let held : Held remaining ws = λ p h without.
        omega (arith, h, enough p, Without-group_warehouses p candidates named without) in
      let satisfied = network_can_satisfy_supplied remaining candidates unique fits enough in
      let ready = Ready-IsTallied ws (group_warehouses-IsTallied candidates uniques ints) in
      elim (Bool-cases (length ws == 0)) [
        | inl e ↦ absurd (held wanted some_wanted (empty ws e))
        | inr e ↦
            rw (e, satisfied, allocate_remaining, Served)
              (chosen-Served ws ready held (best_single_warehouse remaining ws))
      ]
    where
      empty : (xs : List WarehouseSnapshot) → (length xs == 0) ≡ true → Without wanted xs
      empty [] e = tt
      empty (x ∷ xs) e = absurd (ground (arith, e))

  -- What is not refused for want of stock is covered by the supply.
  Served-supplied :
      ((p : ℕ) → supply p candidates ≤ max_int64)
      → Served (allocate_remaining remaining candidates)
      → (p : ℕ) → pos_part (get p remaining) ≤ supply p candidates
  unfolding allocate_remaining network_can_satisfy
  Served-supplied fits served p =
      let total = get-network_total p candidates [] (λ q. refl) (λ q. omega (arith, fits q)) in
      elim (Bool-cases (network_can_satisfy remaining candidates)) [
        | inl e ↦ omega (arith, total.1, covers_le (network_total candidates []) remaining p e)
        | inr e ↦ elim (Bool-cases (length (group_warehouses candidates) == 0)) [
          | inl none_usable ↦ absurd (rw (none_usable, allocate_remaining, Served) at served)
          | inr some_usable ↦ absurd (rw (some_usable, e, allocate_remaining, Served) at served)
        ]
      ]

-- The stock covers a request: of no product more is asked than the candidates have together.
abbrev pub Covered : AllocationRequest → List InventoryCandidate → Type 0
Covered request candidates = (p : ℕ) → requested p request.items ≤ supply p candidates

first_wanted :
    (items : List AllocationItem) → items ≢ [] → All Asks items → (p : ℕ) × (0 < requested p items)
first_wanted [] n asks = absurd (n refl)
first_wanted (i ∷ is) n asks = (i.product_id, ground (arith, asks.0.1, ==_refl i.product_id))

normalize_request-UniqueKeys :
    (r : AllocationRequest) (m : Map ℤ) → normalize_request r ≡ ok m → UniqueKeys m
unfolding normalize_request
normalize_request-UniqueKeys r m h = elim (Bool-cases (length r.items == 0)) [
  | inl e ↦ let impossible = rw e at h in absurd (cc)
  | inr e ↦ normalize_items-UniqueKeys r.items [] m tt (rw e at h)
]

module _ (request : AllocationRequest) (candidates : List InventoryCandidate) where
  Normalized-Served :
      UniqueStock candidates
      → Int64Stock candidates
      → All Named candidates
      → ((p : ℕ) → supply p candidates ≤ max_int64)
      → (n : Result AllocationError (Map ℤ)) → Normalized request.items [] n
      → normalize_request request ≡ n
      → Served
          (elim n [ err e ↦ some (err e) | ok remaining ↦ allocate_remaining remaining candidates ])
        ↔ (IsWellFormed request × Covered request candidates)
  Normalized-Served uniques ints named fits (err e) n h = (
    λ s. absurd s,
    λ c. let (m, accepted) = (normalize_request-accepts request).1 c.0 in absurd (cc),
  )
  Normalized-Served uniques ints named fits (ok m) n h =
      let unique = normalize_request-UniqueKeys request m h in
      let formed = (normalize_request-accepts request).0 (m, h) in
      let (wanted, some_wanted) = first_wanted request.items formed.0 formed.1 in
      (
        λ s. (formed, λ p. omega (arith, n.1 p, Served-supplied m candidates n.0 unique fits s p)),
        λ c.
            allocate_remaining-Served m candidates n.0 unique uniques ints named fits
              (λ p. omega (arith, n.1 p, c.1 p)) wanted (omega (arith, n.1 wanted)),
      )

Served-result :
    (r : Option (Result AllocationError AllocationResult))
    → Served r ↔ ((a : AllocationResult) × (r ≡ some (ok a)))
Served-result none = (λ s. absurd s, λ a. absurd (cc (a.1)))
Served-result (some (err e)) = (λ s. absurd s, λ a. absurd (cc (a.1)))
Served-result (some (ok a)) = (λ _. (a, refl), λ _. tt)

-- On int64 quantities, at most one candidate for a product in a warehouse, candidates that name
-- what they stand for, and a supply of each product that an int64 holds, `Allocate` succeeds
-- exactly when the request is well formed and asks of no product for more than the candidates
-- have of it together.
pub allocate_iff :
    (request : AllocationRequest) (candidates : List InventoryCandidate)
    → Int64Items request.items
    → UniqueStock candidates
    → Int64Stock candidates
    → All Named candidates
    → ((p : ℕ) → supply p candidates ≤ max_int64)
    → ((r : AllocationResult) × (allocate request candidates ≡ some (ok r)))
      ↔ (IsWellFormed request × Covered request candidates)
unfolding allocate
allocate_iff request candidates items uniques ints named fits =
    let served =
      Normalized-Served request candidates uniques ints named fits (normalize_request request)
        (normalize_request-Normalized request items) refl in
    let result = Served-result (allocate request candidates) in
    (λ r. served.0 (result.1 r), λ c. result.0 (served.1 c))
