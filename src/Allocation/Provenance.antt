-- ===== src/Allocation/Provenance.antt =====
-- Every decision comes from a candidate of the input: it names its level and warehouse, and takes
-- no more than the candidate has.
use flowcart.Prelude.{
  ℕ, zero, suc, ◌+◌, ◌≡◌, refl, ◌⊎◌, inl, inr, not, ◌||◌, Option, none, some, List, [], ◌∷◌, ◌++◌,
  arith, ℤ, pos, ◌≤ℤ◌, ltb_ℤ, leb_ℤ, Map, All, All-append, length, ◌==◌, if◌then◌else◌, All-sort_by,
  Bool-cases, Result, ok, err,
}
use flowcart.Allocation.Model.{
  AllocationRequest, InventoryCandidate, AllocationDecision, AllocationResult, WarehouseSnapshot,
  AllocationError,
}
use flowcart.Allocation.Score.{get, warehouse_less}
use flowcart.Allocation.Engine.{
  usable, add_candidate, collect, level_less, sort_candidates, group_warehouses, allocate_from,
  allocate_from_warehouse, take_decisions, allocate_from_warehouses, best_single_warehouse,
  best_greedy_warehouse, network_can_satisfy, has_remaining, take_stock, greedy, units_left,
  allocate_remaining, normalize_request, allocate, decide,
}
use flowcart.Allocation.Greedy.{Chosen, best_greedy_warehouse-Chosen}
use flowcart.Allocation.Single.{Covering, best_single_warehouse-Covering}

-- The decision is about the candidate's stock and within it.
pub record DrawsOn (d : AllocationDecision) (c : InventoryCandidate) : Type 0 where
  pub product : d.product_id ≡ c.product_id
  pub level : d.inventory_level_id ≡ c.inventory_level_id
  pub warehouse : d.warehouse_id ≡ c.warehouse_id
  pub code : d.warehouse_code ≡ c.warehouse_code
  pub within : d.quantity ≤ℤ c.available

abbrev pub OneOf : List InventoryCandidate → InventoryCandidate → Type 0
OneOf [] c = ⊥
OneOf (d ∷ ds) c = (c ≡ d) ⊎ OneOf ds c

-- The decision draws on one of the candidates.
abbrev pub IsSourced : List InventoryCandidate → AllocationDecision → Type 0
IsSourced cs d = (c : InventoryCandidate) × OneOf cs c × DrawsOn d c

decide-DrawsOn :
    (c : InventoryCandidate) (wanted : ℤ)
    → DrawsOn (decide c (if ltb_ℤ c.available wanted then c.available else wanted)) c
decide-DrawsOn c wanted = record {
  product = refl;
  level = refl;
  warehouse = refl;
  code = refl;
  within = ground arith;
}

module _ (all : List InventoryCandidate) where
  abbrev Sourced : List AllocationDecision → Type 0
  Sourced = All (IsSourced all)

  abbrev Holds : WarehouseSnapshot → Type 0
  Holds w = All (OneOf all) w.candidates

  allocate_from-Sourced :
      (remaining : Map ℤ) (cs : List InventoryCandidate)
      → All (OneOf all) cs
      → Sourced (allocate_from remaining cs)
  unfolding allocate_from
  allocate_from-Sourced remaining [] h = tt
  allocate_from-Sourced remaining (c ∷ cs) h =
      let rest = allocate_from-Sourced remaining cs h.1 in
      let wanted = get c.product_id remaining in
      let quantity = if ltb_ℤ c.available wanted then c.available else wanted in
      elim (Bool-cases (leb_ℤ wanted (pos 0))) [
        | inl e ↦ rw e rest
        | inr e ↦ elim (Bool-cases (ltb_ℤ (pos 0) quantity)) [
          | inl f ↦ rw (e, f) ((c, h.0, decide-DrawsOn c wanted), rest)
          | inr f ↦ rw (e, f) rest
        ]
      ]

  allocate_from_warehouse-Sourced :
      (remaining : Map ℤ) (w : WarehouseSnapshot)
      → Holds w
      → Sourced (allocate_from_warehouse remaining w)
  unfolding allocate_from_warehouse
  allocate_from_warehouse-Sourced remaining w h = allocate_from-Sourced remaining w.candidates h

  add_candidate-Holds :
      (c : InventoryCandidate) (ws : List WarehouseSnapshot)
      → OneOf all c
      → All Holds ws
      → All Holds (add_candidate c ws)
  unfolding add_candidate
  add_candidate-Holds c [] h hs = ((h, tt), tt)
  add_candidate-Holds c (w ∷ ws) h hs = elim (Bool-cases (w.id == c.warehouse_id)) [
    | inl e ↦ rw e (All-append (OneOf all) w.candidates (c ∷ []) hs.0 (h, tt), hs.1)
    | inr e ↦ rw e (hs.0, add_candidate-Holds c ws h hs.1)
  ]

  collect-Holds :
      (cs : List InventoryCandidate) (ws : List WarehouseSnapshot)
      → All (OneOf all) cs
      → All Holds ws
      → All Holds (collect cs ws)
  unfolding collect
  collect-Holds [] ws h hs = hs
  collect-Holds (c ∷ cs) ws h hs = elim (Bool-cases (usable c)) [
    | inl e ↦ rw e (collect-Holds cs (add_candidate c ws) h.1 (add_candidate-Holds c ws h.0 hs))
    | inr e ↦ rw e (collect-Holds cs ws h.1 hs)
  ]

  sort_candidates-Holds :
      (ws : List WarehouseSnapshot) → All Holds ws → All Holds (sort_candidates ws)
  unfolding sort_candidates
  sort_candidates-Holds [] h = tt
  sort_candidates-Holds (w ∷ ws) h =
      (All-sort_by level_less (OneOf all) w.candidates h.0, sort_candidates-Holds ws h.1)

  group_warehouses-Holds :
      (cs : List InventoryCandidate) → All (OneOf all) cs → All Holds (group_warehouses cs)
  unfolding group_warehouses
  group_warehouses-Holds cs h =
      All-sort_by warehouse_less Holds (sort_candidates (collect cs []))
        (sort_candidates-Holds (collect cs []) (collect-Holds cs [] h tt))

  take_stock-Holds :
      (id : ℕ) (ds : List AllocationDecision) (ws : List WarehouseSnapshot)
      → All Holds ws
      → All Holds (take_stock id ds ws)
  unfolding take_stock
  take_stock-Holds id ds [] h = tt
  take_stock-Holds id ds (w ∷ ws) h = elim (Bool-cases (w.id == id)) [
    | inl e ↦ rw e (h.0, take_stock-Holds id ds ws h.1)
    | inr e ↦ rw e (h.0, take_stock-Holds id ds ws h.1)
  ]

  abbrev Result-Sourced : Option (Result AllocationError AllocationResult) → Type 0
  Result-Sourced none = Unit
  Result-Sourced (some (err e)) = Unit
  Result-Sourced (some (ok r)) = Sourced r.decisions

  greedy-Sourced :
      (fuel : ℕ) (remaining : Map ℤ) (ws : List WarehouseSnapshot) (given : List AllocationDecision)
      → All Holds ws
      → Sourced given
      → Result-Sourced (greedy fuel remaining ws given)
  unfolding greedy
  greedy-Sourced zero remaining ws given h s = tt
  greedy-Sourced (suc fuel) remaining ws given h s = elim (Bool-cases (has_remaining remaining)) [
    | inr e ↦ rw (e, greedy, Result-Sourced) s
    | inl e ↦
        rw (e, greedy, Result-Sourced)
          (round (best_greedy_warehouse remaining ws)
            (best_greedy_warehouse-Chosen Holds remaining ws h) (greedy-Sourced fuel))
  ]
    where
      round :
          (best : Option WarehouseSnapshot)
          → Chosen Holds remaining best
          → ((left : Map ℤ) (stock : List WarehouseSnapshot) (more : List AllocationDecision)
              → All Holds stock
              → Sourced more
              → Result-Sourced (greedy fuel left stock more))
          → Result-Sourced (elim best [
            | none ↦ some (err AllocationError.insufficient_inventory)
            | some b ↦
                let taken = allocate_from_warehouse remaining b in
                greedy fuel
                  (take_decisions taken remaining)
                  (take_stock b.id taken ws)
                  (given ++ taken)
          ])
      round none c loop = tt
      round (some b) c loop =
          let taken = allocate_from_warehouse remaining b in
          loop (take_decisions taken remaining) (take_stock b.id taken ws) (given ++ taken)
            (take_stock-Holds b.id taken ws h)
            (All-append (IsSourced all) given taken s
              (allocate_from_warehouse-Sourced remaining b c.0))

  single-Sourced :
      (remaining : Map ℤ) (w : WarehouseSnapshot)
      → Holds w
      → Sourced (allocate_from_warehouses remaining (w ∷ []))
  unfolding allocate_from_warehouses
  single-Sourced remaining w h =
      All-append (IsSourced all) (allocate_from remaining w.candidates) []
        (allocate_from-Sourced remaining w.candidates h) tt

  chosen-Sourced :
      (remaining : Map ℤ) (ws : List WarehouseSnapshot)
      → All Holds ws
      → (best : Option WarehouseSnapshot) → Covering Holds remaining best
      → Result-Sourced (elim best [
        | some w ↦ some (ok (record { decisions = allocate_from_warehouses remaining (w ∷ []) }))
        | none ↦ greedy (units_left remaining + 1) remaining ws []
      ])
  chosen-Sourced remaining ws h none c =
      greedy-Sourced (units_left remaining + 1) remaining ws [] h tt
  chosen-Sourced remaining ws h (some w) c = single-Sourced remaining w c.0

  allocate_remaining-Sourced :
      (remaining : Map ℤ) → All (OneOf all) all → Result-Sourced (allocate_remaining remaining all)
  unfolding allocate_remaining
  allocate_remaining-Sourced remaining every =
      let ws = group_warehouses all in
      let h = group_warehouses-Holds all every in
      elim (Bool-cases (length ws == 0 || not (network_can_satisfy remaining all))) [
        | inl e ↦ rw (e, allocate_remaining, Result-Sourced) tt
        | inr e ↦
            rw (e, allocate_remaining, Result-Sourced)
              (chosen-Sourced remaining ws h (best_single_warehouse remaining ws)
                (best_single_warehouse-Covering Holds remaining ws h))
      ]

OneOf-weaken :
    (cs xs : List InventoryCandidate) (d : InventoryCandidate)
    → All (OneOf cs) xs
    → All (OneOf (d ∷ cs)) xs
OneOf-weaken cs [] d h = tt
OneOf-weaken cs (x ∷ xs) d h = (inr h.0, OneOf-weaken cs xs d h.1)

OneOf-self : (cs : List InventoryCandidate) → All (OneOf cs) cs
OneOf-self [] = tt
OneOf-self (c ∷ cs) = (inl refl, OneOf-weaken cs cs c (OneOf-self cs))

normalized-Sourced :
    (candidates : List InventoryCandidate) (n : Result AllocationError (Map ℤ))
    → Result-Sourced candidates
        (elim n [ err e ↦ some (err e) | ok remaining ↦ allocate_remaining remaining candidates ])
normalized-Sourced candidates (err e) = tt
normalized-Sourced candidates (ok m) =
    allocate_remaining-Sourced candidates m (OneOf-self candidates)

allocate-Result :
    (request : AllocationRequest) (candidates : List InventoryCandidate)
    → Result-Sourced candidates (allocate request candidates)
unfolding allocate
allocate-Result request candidates = normalized-Sourced candidates (normalize_request request)

-- Each decision of a successful allocation draws on one of the candidates: it names that one's
-- product, level and warehouse, and takes no more than it has.
pub allocate-IsSourced :
    (request : AllocationRequest) (candidates : List InventoryCandidate) (r : AllocationResult)
    → allocate request candidates ≡ some (ok r)
    → All (IsSourced candidates) r.decisions
allocate-IsSourced request candidates r h = rw h at (allocate-Result request candidates)
