-- ===== src/Inventory/Replenishing.antt =====
-- What a recommendation promises.
use mathlib.Core.Path.{subst}
use flowcart.Prelude.{
  ℕ, zero, suc, ◌+◌, ◌-◌, ◌≤◌, ◌<◌, ◌≡◌, refl, sym, ap, ◌∙◌, inl, inr, ◌⊎◌, true, false, some, List,
  [], ◌∷◌, ◌++◌, ℤ, pos, negsuc, pos_part, ltb_ℤ, leb_ℤ, eqb_ℤ, add64, sub64, sub64-eq, +ℤ_parts,
  -ℤ_parts, ◌<ℤ◌, ◌≤ℤ◌, ◌+ℤ◌, ◌-ℤ◌, max_int64, ltb, if◌then◌else◌, select, length, take, All,
  All-sort_by, Bool-cases, arith,
}
use flowcart.Inventory.Recommend.{
  DonorAllocation, DonorCandidate, LowStockItem, replenishment_donor_limit, donor_less, gives_to,
  candidates_of, give, draw, recommend,
}

-- The units of some allocations.
abbrev pub units : List DonorAllocation → ℕ
units [] = 0
units (a ∷ rest) = pos_part a.quantity + units rest

-- The allocations draw on the first of the candidates, in their order: at least a unit from each,
-- and no more than it has.
abbrev pub Draws : List DonorCandidate → List DonorAllocation → Type 0
Draws ds [] = Unit
Draws [] (a ∷ rest) = ⊥
Draws (d ∷ ds) (a ∷ rest) =
    (a.source_warehouse_id ≡ d.warehouse_id)
    × (a.source_inventory_level_id ≡ d.inventory_level_id)
    × (pos 0 <ℤ a.quantity)
    × (a.quantity ≤ℤ d.effective_available)
    × Draws ds rest

-- The units that candidates have together.
abbrev pub supply : List DonorCandidate → ℕ
supply [] = 0
supply (d ∷ ds) = pos_part d.effective_available + supply ds

abbrev HasStock : DonorCandidate → Type 0
HasStock d = pos 0 <ℤ d.effective_available

-- What drawing on candidates leaves of an item that still needs some units.
pub record IsDrawn (need : ℕ) (ds : List DonorCandidate) (before after : LowStockItem)
    : Type 0 where
  pub drawn : List DonorAllocation
  pub allocations : after.donor_allocations ≡ before.donor_allocations ++ drawn
  pub draws : Draws ds drawn
  pub unfulfilled : ℕ
  pub is_unfulfilled : after.unfulfilled_quantity ≡ pos unfulfilled
  pub complete : units drawn + unfulfilled ≡ need
  pub exhausts : (unfulfilled ≡ 0) ⊎ (units drawn ≡ supply ds)
  pub recommended :
      after.recommended_quantity ≡ pos (pos_part before.recommended_quantity + units drawn)

nothing-IsDrawn :
    (need : ℕ) (ds : List DonorCandidate) (item : LowStockItem) (s : ℕ)
    → item.recommended_quantity ≡ pos s
    → (need ≡ 0) ⊎ (0 ≡ supply ds)
    → IsDrawn need ds item (record item { unfulfilled_quantity = pos need })
nothing-IsDrawn need ds item s e ends = record {
  drawn = [];
  allocations = sym (append_nil item.donor_allocations);
  draws = tt;
  unfulfilled = need;
  is_unfulfilled = refl;
  complete = omega arith;
  exhausts = ends;
  recommended = ground (arith, e);
}
  where
    append_nil : (xs : List DonorAllocation) → xs ++ [] ≡ xs
    append_nil [] = refl
    append_nil (x ∷ xs) = rw (append_nil xs) refl

add_pos : (s q : ℕ) → s + q ≤ max_int64 → add64 (pos s) (pos q) ≡ pos (s + q)
unfolding add64
add_pos s q fits = ground (arith, +ℤ_parts (pos s) (pos q))

sub_pos : (n q : ℕ) → q ≤ n → n ≤ max_int64 → sub64 (pos n) (pos q) ≡ pos (n - q)
unfolding sub64
sub_pos n q less fits = ground (arith, -ℤ_parts (pos n) (pos q))

module _ (need q : ℕ) (d : DonorCandidate) (ds : List DonorCandidate) (item : LowStockItem) (s : ℕ)
    (e : item.recommended_quantity ≡ pos s) (some_units : 0 < q)
    (within : pos q ≤ℤ d.effective_available) (enough : q ≤ need)
    (whole : (q ≡ need) ⊎ (d.effective_available ≡ pos q)) (fits : s + need ≤ max_int64) where
  given : (give d (pos q) item).recommended_quantity ≡ pos (s + q)
  given = rw e (add_pos s q (omega arith))

  draw-more :
      (after : LowStockItem)
      → IsDrawn (need - q) ds (give d (pos q) item) after
      → IsDrawn need (d ∷ ds) item after
  draw-more after r = record {
    drawn =
        record {
          source_warehouse_id = d.warehouse_id;
          source_inventory_level_id = d.inventory_level_id;
          quantity = pos q;
        }
        ∷ r.drawn;
    allocations = r.allocations ∙ append_more item.donor_allocations _ r.drawn;
    draws = (refl, refl, omega arith, within, r.draws);
    unfulfilled = r.unfulfilled;
    is_unfulfilled = r.is_unfulfilled;
    complete = omega (arith, r.complete);
    exhausts = elim whole [
      | inl all ↦ inl (omega (arith, all, r.complete))
      | inr gone ↦ elim r.exhausts [
        | inl full ↦ inl full
        | inr dry ↦ inr (rw gone (ap (λ n. q + n) dry))
      ]
    ];
    recommended = r.recommended ∙ ap pos (ap (λ z. pos_part z + units r.drawn) given ∙ sum);
  }
    where
      append_more :
          (xs : List DonorAllocation) (y : DonorAllocation) (zs : List DonorAllocation)
          → (xs ++ y ∷ []) ++ zs ≡ xs ++ y ∷ zs
      append_more [] y zs = refl
      append_more (x ∷ xs) y zs = rw (append_more xs y zs) refl

      sum : s + q + units r.drawn ≡ pos_part item.recommended_quantity + (q + units r.drawn)
      sum = rw e (omega arith)

-- One round of the loop, after its quantity and what it leaves.
abbrev round :
    DonorCandidate → List DonorCandidate → LowStockItem → (quantity left : ℤ) → LowStockItem
round d ds item quantity left = elim (eqb_ℤ left (pos 0)) [
  | true ↦ record (give d quantity item) { unfulfilled_quantity = left }
  | false ↦ draw left ds (give d quantity item)
]

-- The smaller of what is needed and what the candidate has.
smaller :
    (need : ℕ) (available : ℤ)
    → 0 < need
    → pos 0 <ℤ available
    → (q : ℕ) × ((if ltb_ℤ (pos need) available then pos need else available) ≡ pos q)
      × (0 < q)
      × (pos q ≤ℤ available)
      × (q ≤ need)
      × ((q ≡ need) ⊎ (available ≡ pos q))
smaller need (negsuc n) some_need stock = absurd (omega arith)
smaller need (pos a) some_need stock = elim (Bool-cases (ltb need a)) [
  | inl e ↦ (need, ground (arith, e), some_need, ground (arith, e), omega arith, inl refl)
  | inr e ↦ (a, ground (arith, e), ground arith, omega arith, ground (arith, e), inr refl)
]

draw-IsDrawn :
    (need : ℕ) (ds : List DonorCandidate) (item : LowStockItem) (s : ℕ)
    → item.recommended_quantity ≡ pos s
    → 0 < need
    → s + need ≤ max_int64
    → All HasStock ds
    → IsDrawn need ds item (draw (pos need) ds item)
unfolding draw
draw-IsDrawn need [] item s e some_need fits stock = nothing-IsDrawn need [] item s e (inr refl)
draw-IsDrawn need (d ∷ ds) item s e some_need fits stock =
    let (q, is_q, some_units, within, enough, whole) =
      smaller need d.effective_available some_need stock.0 in
    let path =
      ap (λ z. round d ds item z (sub64 (pos need) z)) is_q
      ∙ ap (round d ds item (pos q)) (sub_pos need q enough (omega arith)) in
    let more = draw-more need q d ds item s e some_units within enough whole fits in
    subst (IsDrawn need (d ∷ ds) item) (sym path)
      (elim (Bool-cases (eqb_ℤ (pos (need - q)) (pos 0))) [
        | inl z ↦
            rw (z, round)
              (more _ (
                nothing-IsDrawn (need - q) ds (give d (pos q) item) (s + q)
                  (given need q d ds item s e some_units within enough whole fits)
                  (inl (ground (arith, z)))))
        | inr z ↦
            rw (z, round)
              (more _ (
                draw-IsDrawn (need - q) ds (give d (pos q) item) (s + q)
                  (given need q d ds item s e some_units within enough whole fits)
                  (ground (arith, z)) (omega arith) stock.1))
      ])

stock_of_candidates :
    (item : LowStockItem) (ds : List DonorCandidate) → All HasStock (select (gives_to item) ds)
stock_of_candidates item [] = tt
stock_of_candidates item (d ∷ ds) = elim (Bool-cases (gives_to item d)) [
  | inl e ↦ rw e (ground (arith, e), stock_of_candidates item ds)
  | inr e ↦ rw e (stock_of_candidates item ds)
]

All-take : (n : ℕ) (ds : List DonorCandidate) → All HasStock ds → All HasStock (take n ds)
All-take zero ds h = tt
All-take (suc n) [] h = tt
All-take (suc n) (d ∷ ds) h = (h.0, All-take n ds h.1)

length-Draws :
    (n : ℕ) (ds : List DonorCandidate) (drawn : List DonorAllocation)
    → Draws (take n ds) drawn
    → length drawn ≤ n
length-Draws n ds [] h = omega arith
length-Draws zero ds (a ∷ drawn) h = absurd h
length-Draws (suc n) [] (a ∷ drawn) h = absurd h
length-Draws (suc n) (d ∷ ds) (a ∷ drawn) h = omega (arith, length-Draws n ds drawn h.4)

sum_of : (u n need : ℕ) {a b : ℤ} → a ≡ pos u → b ≡ pos (0 + n) → n + u ≡ need → a +ℤ b ≡ pos need
unfolding ◌+ℤ◌
sum_of u n need e f h = rw (e, f) (ground (arith, h))

-- An item that is short of its target by some units is recommended at most six allocations. They
-- draw on the first candidates in the order of the sort, at least a unit from each and no more
-- than it has; together with what stays unfulfilled they make up what it is short of. Units stay
-- unfulfilled only when the first six candidates have given all that they have.
pub recommend_complete :
    (donors : List DonorCandidate) (item : LowStockItem) (target : ℤ) (need : ℕ)
    → item.target_stock_level ≡ some target
    → item.recommended_quantity ≡ pos 0
    → item.donor_allocations ≡ []
    → target -ℤ item.available_quantity ≡ pos need
    → 0 < need
    → need ≤ max_int64
    → (after : LowStockItem) × (recommend donors item ≡ some after)
      × Draws (take replenishment_donor_limit (candidates_of item donors)) after.donor_allocations
      × (length after.donor_allocations ≤ replenishment_donor_limit)
      × (after.recommended_quantity ≡ pos (units after.donor_allocations))
      × (after.unfulfilled_quantity +ℤ after.recommended_quantity ≡ pos need)
      × ((after.unfulfilled_quantity ≡ pos 0)
          ⊎ (units after.donor_allocations
              ≡ supply (take replenishment_donor_limit (candidates_of item donors))))
unfolding recommend
recommend_complete donors item target need t r a n some_need fits =
    let ds = take replenishment_donor_limit (candidates_of item donors) in
    let start = record item {
      donors_truncated = ltb replenishment_donor_limit (length (candidates_of item donors));
    } in
    let short : leb_ℤ (pos need) (pos 0) ≡ false = ground arith in
    let needs = sub64-eq target item.available_quantity (rw n (ground arith)) ∙ n in
    let after = draw (pos need) ds start in
    let d = draw-IsDrawn need ds start 0 r some_need (omega arith) (
      All-take replenishment_donor_limit (candidates_of item donors) (
        unfold candidates_of in
        All-sort_by donor_less HasStock (select (gives_to item) donors)
          (stock_of_candidates item donors))) in
    let allocations = d.allocations ∙ ap (λ xs. xs ++ d.drawn) a in
    let draws = subst (Draws ds) (sym allocations) d.draws in
    let recommended = d.recommended ∙ ap (λ z. pos (pos_part z + units d.drawn)) r in
    let zero_first : 0 + units d.drawn ≡ units d.drawn = omega arith in
    (
      after,
      ground (arith, t, needs, short),
      draws,
      length-Draws replenishment_donor_limit (candidates_of item donors) after.donor_allocations
          draws,
      recommended ∙ ap pos zero_first ∙ ap (λ xs. pos (units xs)) (sym allocations),
      sum_of d.unfulfilled (units d.drawn) need d.is_unfulfilled recommended d.complete,
      elim d.exhausts [
        | inl full ↦ inl (d.is_unfulfilled ∙ ap pos full)
        | inr dry ↦ inr (ap units allocations ∙ dry)
      ],
    )
