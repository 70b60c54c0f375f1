-- ===== src/Allocation/Greedy.antt =====
-- The greedy loop: it ends, and gives out exactly what is wanted of each product.
use flowcart.Prelude.{
  ℕ, zero, suc, ◌+◌, ◌<◌, ◌≡◌, refl, inl, inr, false, Option, none, some, List, [], ◌∷◌, ◌++◌,
  arith, ℤ, pos_part, Map, All, Apart, length, ◌==◌, Bool-cases, Result, ok, err,
}
use flowcart.Allocation.Model.{
  AllocationDecision, AllocationResult, WarehouseSnapshot, AllocationError, insufficient_inventory,
}
use flowcart.Allocation.Score.{get, greedy_warehouse_less}
use flowcart.Allocation.Engine.{
  allocate_from_warehouse, take_decisions, better_greedy, greedy_from, best_greedy_warehouse,
  has_remaining, take_stock, greedy, units_left,
}
use flowcart.Allocation.Remaining.{
  allocated, Positive, IsBounded, Fits, take_decisions-IsBounded, get-take_decisions,
  units_left-take_decisions, has_remaining-false, allocated-append,
}
use flowcart.Allocation.Decisions.{
  OtherProduct, allocate_from-Positive, allocate_from-Fits, allocated_all_pos,
}

-- No product stands twice in a warehouse.
abbrev pub OneEach : WarehouseSnapshot → Type 0
OneEach w = Apart OtherProduct w.candidates

-- A choice among the warehouses: one of them, and it has something to give.
abbrev pub Chosen {κ} : (WarehouseSnapshot → Type κ) → Map ℤ → Option WarehouseSnapshot → Type κ
Chosen P remaining none = Unit
Chosen P remaining (some w) = P w × ((length (allocate_from_warehouse remaining w) == 0) ≡ false)

module _ (P : WarehouseSnapshot → Type 0) (remaining : Map ℤ) where
  better_greedy-Chosen :
      (w : WarehouseSnapshot) (best : Option WarehouseSnapshot)
      → P w
      → Chosen P remaining best
      → Chosen P remaining (better_greedy remaining w best)
  unfolding better_greedy
  better_greedy-Chosen w none h c =
      elim (Bool-cases (length (allocate_from_warehouse remaining w) == 0)) [
        | inl e ↦ rw e tt
        | inr e ↦ rw e (h, e)
      ]
  better_greedy-Chosen w (some b) h c =
      elim (Bool-cases (length (allocate_from_warehouse remaining w) == 0)) [
        | inl e ↦ rw e c
        | inr e ↦ rw e (elim (Bool-cases (greedy_warehouse_less w b remaining)) [
          | inl l ↦ rw l (h, e)
          | inr l ↦ rw l c
        ])
      ]

  greedy_from-Chosen :
      (ws : List WarehouseSnapshot) (best : Option WarehouseSnapshot)
      → All P ws
      → Chosen P remaining best
      → Chosen P remaining (greedy_from remaining ws best)
  unfolding greedy_from
  greedy_from-Chosen [] best h c = c
  greedy_from-Chosen (w ∷ ws) best h c =
      greedy_from-Chosen ws (better_greedy remaining w best) h.1 (better_greedy-Chosen w best h.0 c)

  -- The warehouse that is chosen is one of them, and gives something.
  pub best_greedy_warehouse-Chosen :
      (ws : List WarehouseSnapshot)
      → All P ws
      → Chosen P remaining (best_greedy_warehouse remaining ws)
  unfolding best_greedy_warehouse
  best_greedy_warehouse-Chosen ws h = greedy_from-Chosen ws none h tt

-- Taking stock leaves the candidates of every snapshot as they were.
take_stock-OneEach :
    (id : ℕ) (ds : List AllocationDecision) (ws : List WarehouseSnapshot)
    → All OneEach ws
    → All OneEach (take_stock id ds ws)
unfolding take_stock
take_stock-OneEach id ds [] h = tt
take_stock-OneEach id ds (w ∷ ws) h = elim (Bool-cases (w.id == id)) [
  | inl e ↦ rw e (h.0, take_stock-OneEach id ds ws h.1)
  | inr e ↦ rw e (h.0, take_stock-OneEach id ds ws h.1)
]

-- How the loop ends: an error that tells that stock is short, or decisions of at least one unit
-- each that give every product what the earlier ones gave and all that remained.
abbrev pub Settles :
    Map ℤ → List AllocationDecision → Option (Result AllocationError AllocationResult) → Type 0
Settles remaining given none = ⊥
Settles remaining given (some (err e)) = e ≡ insufficient_inventory
Settles remaining given (some (ok r)) =
    Positive r.decisions
    × ((p : ℕ) → allocated p r.decisions ≡ allocated p given + pos_part (get p remaining))

Settles-shift :
    (old new : Map ℤ) (given taken : List AllocationDecision)
    → ((p : ℕ) → pos_part (get p new) + allocated p taken ≡ pos_part (get p old))
    → (r : Option (Result AllocationError AllocationResult)) → Settles new (given ++ taken) r
    → Settles old given r
Settles-shift old new given taken h none s = s
Settles-shift old new given taken h (some (err e)) s = s
Settles-shift old new given taken h (some (ok r)) s =
    (s.0, λ p. omega (arith, s.1 p, h p, allocated-append p given taken))

Positive-append :
    (ds es : List AllocationDecision) → Positive ds → Positive es → Positive (ds ++ es)
Positive-append [] es h k = k
Positive-append (d ∷ ds) es h k = (h.0, Positive-append ds es h.1 k)

pub allocate_from_warehouse-Positive :
    (remaining : Map ℤ) (w : WarehouseSnapshot) → Positive (allocate_from_warehouse remaining w)
unfolding allocate_from_warehouse
allocate_from_warehouse-Positive remaining w = allocate_from-Positive remaining w.candidates

pub allocate_from_warehouse-Fits :
    (remaining : Map ℤ) (w : WarehouseSnapshot)
    → OneEach w
    → Fits (allocate_from_warehouse remaining w) remaining
unfolding allocate_from_warehouse
allocate_from_warehouse-Fits remaining w one = allocate_from-Fits remaining w.candidates one

-- A round settles what remains if the rounds after it settle what it leaves.
round-Settles :
    (fuel : ℕ) (remaining : Map ℤ) (ws : List WarehouseSnapshot) (given : List AllocationDecision)
    → IsBounded remaining
    → Positive given
    → (best : Option WarehouseSnapshot) → Chosen OneEach remaining best
    → ((left : Map ℤ) (stock : List WarehouseSnapshot) (more : List AllocationDecision)
        → units_left left < units_left remaining
        → IsBounded left
        → (All OneEach ws → All OneEach stock)
        → Positive more
        → Settles left more (greedy fuel left stock more))
    → Settles remaining given (elim best [
      | none ↦ some (err insufficient_inventory)
      | some b ↦
          let taken = allocate_from_warehouse remaining b in
          greedy fuel (take_decisions taken remaining) (take_stock b.id taken ws) (given ++ taken)
    ])
round-Settles fuel remaining ws given bounded positive none c loop = refl
round-Settles fuel remaining ws given bounded positive (some b) c loop =
    let taken = allocate_from_warehouse remaining b in
    let some_units = allocate_from_warehouse-Positive remaining b in
    let fits = allocate_from_warehouse-Fits remaining b c.0 in
    let spent = units_left-take_decisions taken remaining bounded some_units fits in
    let progress = allocated_all_pos taken some_units c.1 in
    Settles-shift remaining (take_decisions taken remaining) given taken
      (get-take_decisions taken remaining bounded some_units fits)
      (greedy fuel (take_decisions taken remaining) (take_stock b.id taken ws) (given ++ taken))
      (loop (take_decisions taken remaining) (take_stock b.id taken ws) (given ++ taken)
        (omega arith) (take_decisions-IsBounded taken remaining bounded some_units fits)
        (take_stock-OneEach b.id taken ws) (Positive-append given taken positive some_units))

-- With more fuel than units are left, the loop settles what remains.
pub greedy-Settles :
    (fuel : ℕ) (remaining : Map ℤ) (ws : List WarehouseSnapshot) (given : List AllocationDecision)
    → units_left remaining < fuel
    → IsBounded remaining
    → All OneEach ws
    → Positive given
    → Settles remaining given (greedy fuel remaining ws given)
unfolding greedy
greedy-Settles zero remaining ws given enough bounded one positive = absurd (omega arith)
greedy-Settles (suc fuel) remaining ws given enough bounded one positive =
    elim (Bool-cases (has_remaining remaining)) [
      | inr e ↦
          rw (e, greedy, Settles) (positive, λ p. omega (arith, has_remaining-false remaining e p))
      | inl e ↦
          rw (e, greedy, Settles)
            (round-Settles fuel remaining ws given bounded positive
              (best_greedy_warehouse remaining ws)
              (best_greedy_warehouse-Chosen OneEach remaining ws one)
              (λ left stock more less b keep ps.
                greedy-Settles fuel left stock more (omega arith) b (keep one) ps))
    ]
