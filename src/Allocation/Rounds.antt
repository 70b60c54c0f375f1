-- ===== src/Allocation/Rounds.antt =====
-- The greedy loop serves every remainder whose products the snapshots hold.
use flowcart.Prelude.{
  ℕ, zero, suc, ◌<◌, ◌≡◌, refl, inl, inr, true, Option, none, some, List, [], ◌∷◌, ◌++◌, arith, ℤ,
  pos_part, Map, All, Bool-cases, Result, ok, err,
}
use flowcart.Allocation.Model.{
  AllocationDecision, AllocationResult, WarehouseSnapshot, AllocationError,
}
use flowcart.Allocation.Score.{get}
use flowcart.Allocation.Engine.{
  best_greedy_warehouse, allocate_from_warehouse, take_decisions, has_remaining, take_stock, greedy,
  units_left,
}
use flowcart.Allocation.Remaining.{
  IsBounded, take_decisions-IsBounded, get-take_decisions, units_left-take_decisions,
}
use flowcart.Allocation.Decisions.{allocated_all_pos}
use flowcart.Allocation.Greedy.{
  Chosen, best_greedy_warehouse-Chosen, allocate_from_warehouse-Positive,
  allocate_from_warehouse-Fits,
}
use flowcart.Allocation.Grouping.{IsTallied}
use flowcart.Allocation.Keys.{UniqueKeys, take_decisions-UniqueKeys, has_remaining-product}
use flowcart.Allocation.Lacking.{
  Without, Ready, Without-take_stock, take_stock-Ready, best_greedy_warehouse-Without,
}

-- An allocation that succeeds.
abbrev pub Served : Option (Result AllocationError AllocationResult) → Type 0
Served none = ⊥
Served (some (err e)) = ⊥
Served (some (ok r)) = Unit

-- Every product of which something remains is in a snapshot.
abbrev pub Held : Map ℤ → List WarehouseSnapshot → Type 0
Held remaining ws = (p : ℕ) → 0 < pos_part (get p remaining) → ¬ (Without p ws)

pub Ready-IsTallied : (ws : List WarehouseSnapshot) → All IsTallied ws → All Ready ws
Ready-IsTallied [] t = tt
Ready-IsTallied (w ∷ ws) t = (((t.0).one_each, (t.0).stocked), Ready-IsTallied ws t.1)

-- A round serves what remains if the rounds after it serve what it leaves.
round-Served :
    (fuel : ℕ) (remaining : Map ℤ) (ws : List WarehouseSnapshot) (given : List AllocationDecision)
    → IsBounded remaining
    → UniqueKeys remaining
    → All Ready ws
    → Held remaining ws
    → has_remaining remaining ≡ true
    → (best : Option WarehouseSnapshot) → best_greedy_warehouse remaining ws ≡ best
    → Chosen Ready remaining best
    → ((left : Map ℤ) (stock : List WarehouseSnapshot) (more : List AllocationDecision)
        → units_left left < units_left remaining
        → IsBounded left
        → UniqueKeys left
        → All Ready stock
        → Held left stock
        → Served (greedy fuel left stock more))
    → Served (elim best [
      | none ↦ some (err AllocationError.insufficient_inventory)
      | some b ↦
          let taken = allocate_from_warehouse remaining b in
          greedy fuel (take_decisions taken remaining) (take_stock b.id taken ws) (given ++ taken)
    ])
round-Served fuel remaining ws given bounded unique ready held left none is_best c loop =
    let (p, wanted) = has_remaining-product remaining unique left in
    held p wanted (best_greedy_warehouse-Without remaining p ws ready wanted is_best)
round-Served fuel remaining ws given bounded unique ready held left (some b) is_best c loop =
    let taken = allocate_from_warehouse remaining b in
    let some_units = allocate_from_warehouse-Positive remaining b in
    let fits = allocate_from_warehouse-Fits remaining b c.0.0 in
    let spent = units_left-take_decisions taken remaining bounded some_units fits in
    let progress = allocated_all_pos taken some_units c.1 in
    let kept = get-take_decisions taken remaining bounded some_units fits in
    loop (take_decisions taken remaining) (take_stock b.id taken ws) (given ++ taken) (omega arith)
      (take_decisions-IsBounded taken remaining bounded some_units fits)
      (take_decisions-UniqueKeys taken remaining unique) (take_stock-Ready b.id taken ws ready)
      (λ p wanted without.
        held p (omega (arith, kept p)) (Without-take_stock p b.id taken ws without))

pub greedy-Served :
    (fuel : ℕ) (remaining : Map ℤ) (ws : List WarehouseSnapshot) (given : List AllocationDecision)
    → units_left remaining < fuel
    → IsBounded remaining
    → UniqueKeys remaining
    → All Ready ws
    → Held remaining ws
    → Served (greedy fuel remaining ws given)
unfolding greedy
greedy-Served zero remaining ws given enough bounded unique ready held = absurd (omega arith)
greedy-Served (suc fuel) remaining ws given enough bounded unique ready held =
    elim (Bool-cases (has_remaining remaining)) [
      | inr e ↦ rw (e, greedy, Served) tt
      | inl e ↦
          rw (e, greedy, Served)
            (round-Served fuel remaining ws given bounded unique ready held e
              (best_greedy_warehouse remaining ws) refl
              (best_greedy_warehouse-Chosen Ready remaining ws ready)
              (λ left stock more less b u r h.
                greedy-Served fuel left stock more (omega arith) b u r h))
    ]
