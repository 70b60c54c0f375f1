-- ===== src/Allocation/Decisions.antt =====
-- What one warehouse gives: positive quantities, no more of a product than is wanted.
use flowcart.Prelude.{
  ℕ, ◌<◌, ◌≡◌, ◌≢◌, refl, false, List, [], ◌∷◌, arith, ℤ, Map, All, Apart, length, ◌==◌, ==→eq,
}
use flowcart.Allocation.Model.{InventoryCandidate, AllocationDecision}
use flowcart.Allocation.Engine.{allocate_from}
use flowcart.Allocation.Remaining.{allocated, allocated_all, Positive, Fits}

-- Two candidates stand for different products.
abbrev pub OtherProduct : InventoryCandidate → InventoryCandidate → Type 0
OtherProduct c d = c.product_id ≢ d.product_id

abbrev pub Lacks : ℕ → List InventoryCandidate → Type 0
Lacks p = All (λ c. p ≢ c.product_id)

module _ (remaining : Map ℤ) where
  pub allocate_from-Positive :
      (cs : List InventoryCandidate) → Positive (allocate_from remaining cs)
  unfolding allocate_from
  allocate_from-Positive [] = tt
  allocate_from-Positive (c ∷ cs) = ground (arith, allocate_from-Positive cs)

  pub allocated-allocate_from_lacking :
      (p : ℕ) (cs : List InventoryCandidate)
      → Lacks p cs
      → allocated p (allocate_from remaining cs) ≡ 0
  unfolding allocate_from
  allocated-allocate_from_lacking p [] h = refl
  allocated-allocate_from_lacking p (c ∷ cs) h =
      ground (arith, allocated-allocate_from_lacking p cs h.1)

  pub allocate_from-Fits :
      (cs : List InventoryCandidate)
      → Apart OtherProduct cs
      → Fits (allocate_from remaining cs) remaining
  unfolding allocate_from
  allocate_from-Fits [] h p = omega arith
  allocate_from-Fits (c ∷ cs) h p = ground (
    arith,
    allocate_from-Fits cs h.1 p,
    allocated-allocate_from_lacking c.product_id cs h.0,
    ==→eq c.product_id p,
  )

-- Decisions that are there take at least a unit.
pub allocated_all_pos :
    (ds : List AllocationDecision) → Positive ds → (length ds == 0) ≡ false → 0 < allocated_all ds
allocated_all_pos [] positive h = cc
allocated_all_pos (d ∷ ds) positive h = ground arith
