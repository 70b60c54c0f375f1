-- ===== src/Allocation/Single.antt =====
-- The single warehouse that covers a request gives all of it.
use flowcart.Prelude.{
  ℕ, ◌≤◌, ◌≡◌, inl, inr, true, Option, none, some, List, [], ◌∷◌, ◌++◌, arith, ℤ, pos_part,
  neg_part, Map, All, Apart, ==→eq, Bool-cases,
}
use flowcart.Allocation.Model.{InventoryCandidate, AllocationDecision, WarehouseSnapshot}
use flowcart.Allocation.Score.{get, single_warehouse_less}
use flowcart.Allocation.Engine.{
  covers, better_single, single_from, best_single_warehouse, allocate_from, allocate_from_warehouse,
  allocate_from_warehouses,
}
use flowcart.Allocation.Remaining.{allocated, Positive, allocated-append}
use flowcart.Allocation.Decisions.{
  OtherProduct, allocate_from-Positive, allocated-allocate_from_lacking,
}
use flowcart.Allocation.Grouping.{supply, supply_lacking, Stocked, IsTallied}

-- A warehouse whose stock covers what is wanted of a product gives exactly that.
allocated-allocate_from_covered :
    (remaining : Map ℤ) (p : ℕ) (cs : List InventoryCandidate)
    → Apart OtherProduct cs
    → All Stocked cs
    → neg_part (get p remaining) ≡ 0
    → pos_part (get p remaining) ≤ supply p cs
    → allocated p (allocate_from remaining cs) ≡ pos_part (get p remaining)
unfolding allocate_from
allocated-allocate_from_covered remaining p [] apart stocked nonneg h = omega arith
allocated-allocate_from_covered remaining p (c ∷ cs) apart stocked nonneg h = ground (
  arith,
  allocated-allocate_from_covered remaining p cs apart.1 stocked.1 nonneg,
  allocated-allocate_from_lacking remaining c.product_id cs apart.0,
  supply_lacking c.product_id cs apart.0,
  ==→eq c.product_id p,
)

pub covers_le :
    (available remaining : Map ℤ) (p : ℕ)
    → covers available remaining ≡ true
    → pos_part (get p remaining) ≤ pos_part (get p available)
unfolding covers
covers_le available [] p h = omega arith
covers_le available ((k, v) ∷ rest) p h =
    ground (arith, ==→eq k p, λ (e : covers available rest ≡ true). covers_le available rest p e)

-- The snapshot chosen so far is one of them, and covers the request.
abbrev pub Covering {κ} : (WarehouseSnapshot → Type κ) → Map ℤ → Option WarehouseSnapshot → Type κ
Covering P remaining none = Unit
Covering P remaining (some w) = P w × (covers w.available_by remaining ≡ true)

module _ (P : WarehouseSnapshot → Type 0) (remaining : Map ℤ) where
  better_single-Covering :
      (w : WarehouseSnapshot) (best : Option WarehouseSnapshot)
      → P w
      → Covering P remaining best
      → Covering P remaining (better_single remaining w best)
  unfolding better_single
  better_single-Covering w none h c = elim (Bool-cases (covers w.available_by remaining)) [
    | inl e ↦ rw e (h, e)
    | inr e ↦ rw e tt
  ]
  better_single-Covering w (some b) h c = elim (Bool-cases (covers w.available_by remaining)) [
    | inr e ↦ rw e c
    | inl e ↦ elim (Bool-cases (single_warehouse_less w b remaining)) [
      | inl l ↦ rw (e, l) (h, e)
      | inr l ↦ rw (e, l) c
    ]
  ]

  single_from-Covering :
      (ws : List WarehouseSnapshot) (best : Option WarehouseSnapshot)
      → All P ws
      → Covering P remaining best
      → Covering P remaining (single_from remaining ws best)
  unfolding single_from
  single_from-Covering [] best h c = c
  single_from-Covering (w ∷ ws) best h c =
      single_from-Covering ws (better_single remaining w best) h.1
        (better_single-Covering w best h.0 c)

  pub best_single_warehouse-Covering :
      (ws : List WarehouseSnapshot)
      → All P ws
      → Covering P remaining (best_single_warehouse remaining ws)
  unfolding best_single_warehouse
  best_single_warehouse-Covering ws h = single_from-Covering ws none h tt

module _ (remaining : Map ℤ) (w : WarehouseSnapshot) where
  pub single-Positive : Positive (allocate_from_warehouses remaining (w ∷ []))
  unfolding allocate_from_warehouses
  single-Positive =
      Positive-append_nil (allocate_from_warehouse remaining w)
        (allocate_from-Positive remaining w.candidates)
    where
      Positive-append_nil : (ds : List AllocationDecision) → Positive ds → Positive (ds ++ [])
      Positive-append_nil [] h = tt
      Positive-append_nil (d ∷ ds) h = (h.0, Positive-append_nil ds h.1)

  -- A snapshot in order that covers what remains gives all of it.
  pub allocated-single :
      (p : ℕ)
      → IsTallied w
      → covers w.available_by remaining ≡ true
      → neg_part (get p remaining) ≡ 0
      → allocated p (allocate_from_warehouses remaining (w ∷ [])) ≡ pos_part (get p remaining)
  unfolding allocate_from_warehouses
  allocated-single p t c nonneg =
      let enough = covers_le w.available_by remaining p c in
      let given =
        allocated-allocate_from_covered remaining p w.candidates t.one_each t.stocked nonneg
          (rw (t.tally p) at enough) in
      omega (arith, allocated-append p (allocate_from remaining w.candidates) [], given)
