-- ===== src/Allocation/Correct.antt =====
-- `Allocate` as a whole: it ends, refuses exactly the requests that are not well formed, and gives
-- an accepted one what it asks for or tells that stock is short.
use flowcart.Prelude.{
  ℕ, ◌+◌, ◌≡◌, refl, sym, inl, inr, not, ◌||◌, Option, none, some, List, [], ◌∷◌, arith, ℤ,
  pos_part, Map, All, length, ◌==◌, Bool-cases, Result, ok, err,
}
use flowcart.Allocation.Model.{
  AllocationRequest, InventoryCandidate, AllocationResult, WarehouseSnapshot, AllocationError,
  invalid_request, insufficient_inventory,
}
use flowcart.Allocation.Score.{get}
use flowcart.Allocation.Engine.{
  normalize_request, group_warehouses, network_can_satisfy, best_single_warehouse,
  allocate_from_warehouses, greedy, units_left, allocate_remaining, allocate,
}
use flowcart.Allocation.Remaining.{allocated, Positive, IsBounded}
use flowcart.Allocation.Greedy.{OneEach, Settles, greedy-Settles}
use flowcart.Allocation.Grouping.{UniqueStock, Int64Stock, IsTallied, group_warehouses-IsTallied}
use flowcart.Allocation.Single.{
  Covering, best_single_warehouse-Covering, single-Positive, allocated-single,
}
use flowcart.Allocation.Request.{
  requested, Int64Items, IsWellFormed, Normalized, normalize_request-Normalized,
  normalize_request-accepts,
}

OneEach-IsTallied : (ws : List WarehouseSnapshot) → All IsTallied ws → All OneEach ws
OneEach-IsTallied [] t = tt
OneEach-IsTallied (w ∷ ws) t = ((t.0).one_each, OneEach-IsTallied ws t.1)

module _ (remaining : Map ℤ) (candidates : List InventoryCandidate)
    (bounded : IsBounded remaining) where
  chosen-Settles :
      (ws : List WarehouseSnapshot)
      → All IsTallied ws
      → (best : Option WarehouseSnapshot) → Covering IsTallied remaining best
      → Settles remaining [] (elim best [
        | some w ↦ some (ok (record { decisions = allocate_from_warehouses remaining (w ∷ []) }))
        | none ↦ greedy (units_left remaining + 1) remaining ws []
      ])
  chosen-Settles ws t none c =
      greedy-Settles (units_left remaining + 1) remaining ws [] (omega arith) bounded
        (OneEach-IsTallied ws t) tt
  chosen-Settles ws t (some w) c = (
    single-Positive remaining w,
    λ p. omega (arith, allocated-single remaining w p c.0 c.1 (bounded p).0),
  )

  allocate_remaining-Settles :
      UniqueStock candidates
      → Int64Stock candidates
      → Settles remaining [] (allocate_remaining remaining candidates)
  unfolding allocate_remaining
  allocate_remaining-Settles unique ints =
      let ws = group_warehouses candidates in
      let t = group_warehouses-IsTallied candidates unique ints in
      elim (Bool-cases (length ws == 0 || not (network_can_satisfy remaining candidates))) [
        | inl e ↦ rw (e, allocate_remaining, Settles) refl
        | inr e ↦
            rw (e, allocate_remaining, Settles)
              (chosen-Settles ws t (best_single_warehouse remaining ws)
                (best_single_warehouse-Covering IsTallied remaining ws t))
      ]

-- How an allocation ends: with a refusal of a request that is not well formed, with one of a
-- request that is, for want of stock, or with decisions that give each product what is asked for.
abbrev pub Fulfils : AllocationRequest → Option (Result AllocationError AllocationResult) → Type 0
Fulfils request none = ⊥
Fulfils request (some (err invalid_request)) = ¬ (IsWellFormed request)
Fulfils request (some (err insufficient_inventory)) = IsWellFormed request
Fulfils request (some (ok r)) =
    IsWellFormed request
    × Positive r.decisions
    × ((p : ℕ) → allocated p r.decisions ≡ requested p request.items)

settled-Fulfils :
    (request : AllocationRequest) (remaining : Map ℤ)
    → IsWellFormed request
    → ((p : ℕ) → pos_part (get p remaining) ≡ 0 + requested p request.items)
    → (r : Option (Result AllocationError AllocationResult)) → Settles remaining [] r
    → Fulfils request r
settled-Fulfils request remaining w h none s = s
settled-Fulfils request remaining w h (some (err invalid_request)) s = cc
settled-Fulfils request remaining w h (some (err insufficient_inventory)) s = w
settled-Fulfils request remaining w h (some (ok r)) s = (w, s.0, λ p. omega (arith, s.1 p, h p))

allocate-Normalized :
    (request : AllocationRequest) (candidates : List InventoryCandidate)
    → UniqueStock candidates
    → Int64Stock candidates
    → (n : Result AllocationError (Map ℤ)) → Normalized request.items [] n
    → n ≡ normalize_request request
    → Fulfils request
        (elim n [ err e ↦ some (err e) | ok remaining ↦ allocate_remaining remaining candidates ])
allocate-Normalized request candidates unique ints (err invalid_request) n e =
    λ w. let (m, accepted) = (normalize_request-accepts request).1 w in cc
allocate-Normalized request candidates unique ints (err insufficient_inventory) n e = cc
allocate-Normalized request candidates unique ints (ok m) n e =
    settled-Fulfils request m ((normalize_request-accepts request).0 (m, sym e)) n.1
      (allocate_remaining m candidates) (allocate_remaining-Settles m candidates n.0 unique ints)

-- On int64 quantities and at most one candidate for a product in a warehouse, `Allocate` ends.
-- It refuses a request as invalid only if that is not well formed, and for want of stock only if
-- that is well formed; else the request is well formed, every decision takes at least a unit, and
-- those for a product sum to what is asked.
pub allocate-Fulfils :
    (request : AllocationRequest) (candidates : List InventoryCandidate)
    → Int64Items request.items
    → UniqueStock candidates
    → Int64Stock candidates
    → Fulfils request (allocate request candidates)
unfolding allocate
allocate-Fulfils request candidates items unique ints =
    allocate-Normalized request candidates unique ints (normalize_request request)
      (normalize_request-Normalized request items) refl
