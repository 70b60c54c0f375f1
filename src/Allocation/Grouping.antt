-- ===== src/Allocation/Grouping.antt =====
-- `groupWarehouses`: what holds of the snapshots that it makes of the candidates.
use flowcart.Prelude.{
  ℕ, ◌+◌, ◌≡◌, ◌≢◌, refl, sym, ◌∙◌, inl, inr, true, List, [], ◌∷◌, ◌++◌, arith, ℤ, pos, pos_part,
  ◌<ℤ◌, IsInt64, add64, All, Apart, sort_by, insert_by, All-sort_by, Apart-sort_by, ◌==◌, ==→eq,
  if◌then◌else◌, Bool-cases,
}
use flowcart.Allocation.Model.{InventoryCandidate, WarehouseSnapshot}
use flowcart.Allocation.Score.{get, warehouse_less}
use flowcart.Allocation.Engine.{
  bump, usable, add_candidate, collect, level_less, sort_candidates, group_warehouses,
}
use flowcart.Allocation.Remaining.{get-insert}
use flowcart.Allocation.Decisions.{OtherProduct, Lacks}

-- Two candidates stand for different pairs of a warehouse and a product, as the rows of
-- `inventory_levels` do by their unique key.
abbrev pub OtherStock : InventoryCandidate → InventoryCandidate → Type 0
OtherStock c d = ¬ ((c.warehouse_id ≡ d.warehouse_id) × (c.product_id ≡ d.product_id))

abbrev pub UniqueStock : List InventoryCandidate → Type 0
UniqueStock = Apart OtherStock

-- The units of a product among the candidates.
abbrev pub supply : ℕ → List InventoryCandidate → ℕ
supply p [] = 0
supply p (c ∷ cs) = (if c.product_id == p then pos_part c.available else 0) + supply p cs

abbrev pub Stocked : InventoryCandidate → Type 0
Stocked c = (pos 0 <ℤ c.available) × IsInt64 c.available

-- A snapshot is in order: no product stands twice, all are in stock, and `availableBy` is the
-- stock of the candidates.
pub record IsTallied (w : WarehouseSnapshot) : Type 0 where
  pub one_each : Apart OtherProduct w.candidates
  pub stocked : All Stocked w.candidates
  pub tally : (p : ℕ) → get p w.available_by ≡ pos (supply p w.candidates)

-- A candidate that adds no second stock of a product to a snapshot.
abbrev NewTo : InventoryCandidate → WarehouseSnapshot → Type 0
NewTo c w = w.id ≡ c.warehouse_id → Lacks c.product_id w.candidates

supply-append :
    (p : ℕ) (cs ds : List InventoryCandidate) → supply p (cs ++ ds) ≡ supply p cs + supply p ds
supply-append p [] ds = omega arith
supply-append p (c ∷ cs) ds = omega (arith, supply-append p cs ds)

pub supply_lacking : (p : ℕ) (cs : List InventoryCandidate) → Lacks p cs → supply p cs ≡ 0
supply_lacking p [] h = refl
supply_lacking p (c ∷ cs) h = ground (arith, supply_lacking p cs h.1)

All-snoc {ℓ κ} :
    {A : Type ℓ} (P : A → Type κ) (xs : List A) (x : A) → All P xs → P x → All P (xs ++ x ∷ [])
All-snoc P [] x h px = (px, tt)
All-snoc P (y ∷ ys) x h px = (h.0, All-snoc P ys x h.1 px)

one_each-snoc :
    (cs : List InventoryCandidate) (c : InventoryCandidate)
    → Apart OtherProduct cs
    → Lacks c.product_id cs
    → Apart OtherProduct (cs ++ c ∷ [])
one_each-snoc [] c h l = (tt, tt)
one_each-snoc (d ∷ ds) c h l =
    (All-snoc (OtherProduct d) ds c h.0 (λ e. l.0 (sym e)), one_each-snoc ds c h.1 l.1)

add64_zero : (a : ℤ) → pos 0 <ℤ a → IsInt64 a → add64 (pos 0) a ≡ pos (pos_part a)
unfolding add64
add64_zero a h k = ground arith

bump_tally :
    (p : ℕ) (c : InventoryCandidate) (w : WarehouseSnapshot)
    → Stocked c
    → Lacks c.product_id w.candidates
    → ((q : ℕ) → get q w.available_by ≡ pos (supply q w.candidates))
    → get p (bump c.product_id c.available w.available_by) ≡ pos (supply p (w.candidates ++ c ∷ []))
bump_tally p c w h l tally = ground (
  arith,
  get-insert c.product_id p (add64 (get c.product_id w.available_by) c.available) w.available_by,
  supply-append p w.candidates (c ∷ []),
  supply_lacking c.product_id w.candidates l,
  tally p,
  tally c.product_id,
  add64_zero c.available h.0 h.1,
)

new-IsTallied :
    (c : InventoryCandidate)
    → Stocked c
    → IsTallied (record {
      id = c.warehouse_id;
      code = c.warehouse_code;
      candidates = c ∷ [];
      available_by = bump c.product_id c.available [];
    })
new-IsTallied c h = record {
  one_each = (tt, tt);
  stocked = (h, tt);
  tally = λ p. ground (arith, add64_zero c.available h.0 h.1);
}

add_candidate-IsTallied :
    (c : InventoryCandidate) (ws : List WarehouseSnapshot)
    → Stocked c
    → All (NewTo c) ws
    → All IsTallied ws
    → All IsTallied (add_candidate c ws)
unfolding add_candidate
add_candidate-IsTallied c [] h new t = (new-IsTallied c h, tt)
add_candidate-IsTallied c (w ∷ ws) h new t = elim (Bool-cases (w.id == c.warehouse_id)) [
  | inl e ↦
      let lacks = new.0 (==→eq w.id c.warehouse_id e) in
      rw e (
        record {
          one_each = one_each-snoc w.candidates c (t.0).one_each lacks;
          stocked = All-snoc Stocked w.candidates c (t.0).stocked h;
          tally = λ p. bump_tally p c w h lacks (t.0).tally;
        },
        t.1,
      )
  | inr e ↦ rw e (t.0, add_candidate-IsTallied c ws h new.1 t.1)
]

add_candidate-NewTo :
    (c d : InventoryCandidate) (ws : List WarehouseSnapshot)
    → OtherStock c d
    → All (NewTo d) ws
    → All (NewTo d) (add_candidate c ws)
unfolding add_candidate
add_candidate-NewTo c d [] other new = (λ e. (λ p. other (e, sym p), tt), tt)
add_candidate-NewTo c d (w ∷ ws) other new = elim (Bool-cases (w.id == c.warehouse_id)) [
  | inl e ↦ rw e (
    λ k.
        All-snoc (λ x. d.product_id ≢ x.product_id) w.candidates c (new.0 k)
          (λ p. other (sym (==→eq w.id c.warehouse_id e) ∙ k, sym p)),
    new.1,
  )
  | inr e ↦ rw e (new.0, add_candidate-NewTo c d ws other new.1)
]

-- the candidates still to come are new to all the snapshots
abbrev AllNew : List InventoryCandidate → List WarehouseSnapshot → Type 0
AllNew cs ws = All (λ c. All (NewTo c) ws) cs

AllNew-add_candidate :
    (c : InventoryCandidate) (cs : List InventoryCandidate) (ws : List WarehouseSnapshot)
    → All (OtherStock c) cs
    → AllNew cs ws
    → AllNew cs (add_candidate c ws)
AllNew-add_candidate c [] ws other new = tt
AllNew-add_candidate c (d ∷ cs) ws other new =
    (add_candidate-NewTo c d ws other.0 new.0, AllNew-add_candidate c cs ws other.1 new.1)

usable-Stocked : (c : InventoryCandidate) → IsInt64 c.available → usable c ≡ true → Stocked c
usable-Stocked c h e = (ground arith, h)

-- Every available quantity is an int64.
abbrev pub Int64Stock : List InventoryCandidate → Type 0
Int64Stock = All (λ c. IsInt64 c.available)

collect-IsTallied :
    (cs : List InventoryCandidate) (ws : List WarehouseSnapshot)
    → UniqueStock cs
    → Int64Stock cs
    → AllNew cs ws
    → All IsTallied ws
    → All IsTallied (collect cs ws)
unfolding collect
collect-IsTallied [] ws unique ints new t = t
collect-IsTallied (c ∷ cs) ws unique ints new t = elim (Bool-cases (usable c)) [
  | inl e ↦ rw e (
      collect-IsTallied cs (add_candidate c ws) unique.1 ints.1
        (AllNew-add_candidate c cs ws unique.0 new.1)
        (add_candidate-IsTallied c ws (usable-Stocked c ints.0 e) new.0 t))
  | inr e ↦ rw e (collect-IsTallied cs ws unique.1 ints.1 new.1 t)
]

supply-insert_by :
    (p : ℕ) (c : InventoryCandidate) (cs : List InventoryCandidate)
    → supply p (insert_by level_less c cs) ≡ supply p (c ∷ cs)
unfolding insert_by
supply-insert_by p c [] = refl
supply-insert_by p c (d ∷ ds) = elim (Bool-cases (level_less d c)) [
  | inl e ↦ rw e (omega (arith, supply-insert_by p c ds))
  | inr e ↦ rw e
]

supply-sort_by :
    (p : ℕ) (cs : List InventoryCandidate) → supply p (sort_by level_less cs) ≡ supply p cs
unfolding sort_by
supply-sort_by p [] = refl
supply-sort_by p (c ∷ cs) =
    omega (arith, supply-insert_by p c (sort_by level_less cs), supply-sort_by p cs)

sort_candidates-IsTallied :
    (ws : List WarehouseSnapshot) → All IsTallied ws → All IsTallied (sort_candidates ws)
unfolding sort_candidates
sort_candidates-IsTallied [] t = tt
sort_candidates-IsTallied (w ∷ ws) t = (
  record {
    one_each =
        Apart-sort_by level_less OtherProduct (λ c d h e. h (sym e)) w.candidates (t.0).one_each;
    stocked = All-sort_by level_less Stocked w.candidates (t.0).stocked;
    tally = λ p. rw supply-sort_by ((t.0).tally p);
  },
  sort_candidates-IsTallied ws t.1,
)

AllNew-nil : (cs : List InventoryCandidate) → AllNew cs []
AllNew-nil [] = tt
AllNew-nil (c ∷ cs) = (tt, AllNew-nil cs)

-- The snapshots of candidates with a unique key are in order.
pub group_warehouses-IsTallied :
    (cs : List InventoryCandidate)
    → UniqueStock cs
    → Int64Stock cs
    → All IsTallied (group_warehouses cs)
unfolding group_warehouses
group_warehouses-IsTallied cs unique ints =
    All-sort_by warehouse_less IsTallied (sort_candidates (collect cs [])) (
      sort_candidates-IsTallied (collect cs [])
        (collect-IsTallied cs [] unique ints (AllNew-nil cs) tt))
