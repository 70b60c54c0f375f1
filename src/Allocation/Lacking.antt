-- ===== src/Allocation/Lacking.antt =====
-- A product that no snapshot holds is one that no candidate holds, and a round that finds no
-- warehouse has nothing left of the products that a snapshot holds.
use flowcart.Prelude.{
  ℕ, ◌<◌, ◌≡◌, ◌≢◌, refl, inl, inr, true, Option, none, some, List, [], ◌∷◌, ◌++◌, arith, ℤ, pos,
  pos_part, ◌<ℤ◌, Map, All, Apart, length, ◌==◌, Bool-cases, All-sort_by_back, ==→eq,
}
use flowcart.Allocation.Model.{InventoryCandidate, AllocationDecision, WarehouseSnapshot}
use flowcart.Allocation.Score.{get, warehouse_less, greedy_warehouse_less}
use flowcart.Allocation.Engine.{
  usable, add_candidate, collect, level_less, sort_candidates, group_warehouses, allocate_from,
  allocate_from_warehouse, better_greedy, greedy_from, best_greedy_warehouse, take_stock,
}
use flowcart.Allocation.Decisions.{Lacks, OtherProduct}
use flowcart.Allocation.Grouping.{supply, Stocked}

-- A candidate in stock names its level, its warehouse and its product.
abbrev pub Named : InventoryCandidate → Type 0
Named c = pos 0 <ℤ c.available → usable c ≡ true

abbrev pub Without : ℕ → List WarehouseSnapshot → Type 0
Without p = All (λ w. Lacks p w.candidates)

Lacks-snoc :
    (p : ℕ) (cs : List InventoryCandidate) (c : InventoryCandidate)
    → Lacks p (cs ++ c ∷ [])
    → Lacks p cs × (p ≢ c.product_id)
Lacks-snoc p [] c h = (tt, h.0)
Lacks-snoc p (d ∷ cs) c h = let (rest, last) = Lacks-snoc p cs c h.1 in ((h.0, rest), last)

Without-add_candidate :
    (p : ℕ) (c : InventoryCandidate) (ws : List WarehouseSnapshot)
    → Without p (add_candidate c ws)
    → Without p ws × (p ≢ c.product_id)
unfolding add_candidate
Without-add_candidate p c [] h = (tt, h.0.0)
Without-add_candidate p c (w ∷ ws) h = elim (Bool-cases (w.id == c.warehouse_id)) [
  | inl e ↦
      let (here, rest) = rw e at h in
      let (before, last) = Lacks-snoc p w.candidates c here in ((before, rest), last)
  | inr e ↦
      let (here, rest) = rw e at h in
      let (others, apart) = Without-add_candidate p c ws rest in ((here, others), apart)
]

Without-collect :
    (p : ℕ) (cs : List InventoryCandidate) (ws : List WarehouseSnapshot)
    → All Named cs
    → Without p (collect cs ws)
    → Without p ws × (supply p cs ≡ 0)
unfolding collect
Without-collect p [] ws named h = (h, refl)
Without-collect p (c ∷ cs) ws named h = elim (Bool-cases (usable c)) [
  | inl e ↦
      let (more, rest) = Without-collect p cs (add_candidate c ws) named.1 (rw e at h) in
      let (before, other) = Without-add_candidate p c ws more in
      (before, ground (arith, rest, other, ==→eq c.product_id p))
  | inr e ↦
      let (before, rest) = Without-collect p cs ws named.1 (rw e at h) in
      (before, ground (arith, rest, e, named.0))
]

Without-sort_candidates :
    (p : ℕ) (ws : List WarehouseSnapshot) → Without p (sort_candidates ws) → Without p ws
unfolding sort_candidates
Without-sort_candidates p [] h = tt
Without-sort_candidates p (w ∷ ws) h = (
  All-sort_by_back level_less (λ c. p ≢ c.product_id) w.candidates h.0,
  Without-sort_candidates p ws h.1,
)

pub Without-group_warehouses :
    (p : ℕ) (cs : List InventoryCandidate)
    → All Named cs
    → Without p (group_warehouses cs)
    → supply p cs ≡ 0
unfolding group_warehouses
Without-group_warehouses p cs named h =
    let sorted =
      All-sort_by_back warehouse_less (λ w. Lacks p w.candidates) (sort_candidates (collect cs []))
        h in
    (Without-collect p cs [] named (Without-sort_candidates p (collect cs []) sorted)).1

pub Without-take_stock :
    (p id : ℕ) (ds : List AllocationDecision) (ws : List WarehouseSnapshot)
    → Without p (take_stock id ds ws)
    → Without p ws
unfolding take_stock
Without-take_stock p id ds [] h = tt
Without-take_stock p id ds (w ∷ ws) h = elim (Bool-cases (w.id == id)) [
  | inl e ↦ let (here, rest) = rw e at h in (here, Without-take_stock p id ds ws rest)
  | inr e ↦ let (here, rest) = rw e at h in (here, Without-take_stock p id ds ws rest)
]

-- A snapshot that the loop may choose: no product twice, and all in stock.
abbrev pub Ready : WarehouseSnapshot → Type 0
Ready w = Apart OtherProduct w.candidates × All Stocked w.candidates

pub take_stock-Ready :
    (id : ℕ) (ds : List AllocationDecision) (ws : List WarehouseSnapshot)
    → All Ready ws
    → All Ready (take_stock id ds ws)
unfolding take_stock
take_stock-Ready id ds [] h = tt
take_stock-Ready id ds (w ∷ ws) h = elim (Bool-cases (w.id == id)) [
  | inl e ↦ rw e (h.0, take_stock-Ready id ds ws h.1)
  | inr e ↦ rw e (h.0, take_stock-Ready id ds ws h.1)
]

module _ (remaining : Map ℤ) where
  abbrev GivesNothing : WarehouseSnapshot → Type 0
  GivesNothing w = (length (allocate_from_warehouse remaining w) == 0) ≡ true

  better_greedy-none :
      (w : WarehouseSnapshot) (best : Option WarehouseSnapshot)
      → better_greedy remaining w best ≡ none
      → (best ≡ none) × GivesNothing w
  unfolding better_greedy
  better_greedy-none w none h =
      elim (Bool-cases (length (allocate_from_warehouse remaining w) == 0)) [
        | inl e ↦ (refl, e)
        | inr e ↦ let impossible = rw e at h in absurd (cc)
      ]
  better_greedy-none w (some b) h =
      elim (Bool-cases (length (allocate_from_warehouse remaining w) == 0)) [
        | inl e ↦ let impossible = rw e at h in absurd (cc)
        | inr e ↦ elim (Bool-cases (greedy_warehouse_less w b remaining)) [
          | inl l ↦ let impossible = rw (e, l) at h in absurd (cc)
          | inr l ↦ let impossible = rw (e, l) at h in absurd (cc)
        ]
      ]

  greedy_from-none :
      (ws : List WarehouseSnapshot) (best : Option WarehouseSnapshot)
      → greedy_from remaining ws best ≡ none
      → (best ≡ none) × All GivesNothing ws
  unfolding greedy_from
  greedy_from-none [] best h = (h, tt)
  greedy_from-none (w ∷ ws) best h =
      let (before, rest) = greedy_from-none ws (better_greedy remaining w best) h in
      let (first, here) = better_greedy-none w best before in (first, (here, rest))

  allocate_from_none :
      (p : ℕ) (cs : List InventoryCandidate)
      → All Stocked cs
      → 0 < pos_part (get p remaining)
      → (length (allocate_from remaining cs) == 0) ≡ true
      → Lacks p cs
  unfolding allocate_from
  allocate_from_none p [] stocked wanted h = tt
  allocate_from_none p (c ∷ cs) stocked wanted h = (
    λ e. ground (arith, rw e at wanted, h, stocked.0.0),
    allocate_from_none p cs stocked.1 wanted (ground (arith, h, stocked.0.0)),
  )

  -- A round that finds no warehouse: none holds a product of which something remains.
  pub best_greedy_warehouse-Without :
      (p : ℕ) (ws : List WarehouseSnapshot)
      → All Ready ws
      → 0 < pos_part (get p remaining)
      → best_greedy_warehouse remaining ws ≡ none
      → Without p ws
  unfolding best_greedy_warehouse allocate_from_warehouse
  best_greedy_warehouse-Without p ws ready wanted h = all ws ready (greedy_from-none ws none h).1
    where
      all : (xs : List WarehouseSnapshot) → All Ready xs → All GivesNothing xs → Without p xs
      all [] r g = tt
      all (x ∷ xs) r g = (allocate_from_none p x.candidates r.0.1 wanted g.0, all xs r.1 g.1)
