-- ===== src/Transfer/Checks.antt =====
-- What the checks of the service let through.
use flowcart.Prelude.{
  ℕ, ◌≤◌, ◌<◌, ◌≡◌, ◌≢◌, ◌↔◌, refl, sym, inl, inr, true, List, [], ◌∷◌, arith, ltb, pos, ◌<ℤ◌, All,
  Apart, sort_by, insert_by, All-insert_by, All-sort_by, Apart-sort_by, All-sort_by_back,
  Apart-sort_by_back, Bool-cases,
}
use flowcart.Transfer.Creating.{TransferItemInput}
use flowcart.Transfer.Service.{follow, check_items, product_less}

-- An item names a product and asks for at least one unit of it.
abbrev pub Asks : TransferItemInput → Type 0
Asks i = (i.product_id ≢ 0) × (pos 0 <ℤ i.quantity)

abbrev pub OtherProduct : TransferItemInput → TransferItemInput → Type 0
OtherProduct a b = a.product_id ≢ b.product_id

abbrev Sorted : List TransferItemInput → Type 0
Sorted = Apart (λ a b. a.product_id ≤ b.product_id)

follow_complete :
    (b : TransferItemInput) (xs : List TransferItemInput)
    → All Asks xs
    → All (OtherProduct b) xs
    → Apart OtherProduct xs
    → follow b xs ≡ true
unfolding follow
follow_complete b [] asks other apart = refl
follow_complete b (x ∷ xs) asks other apart =
    ground (arith, asks.0, other.0, follow_complete x xs asks.1 apart.0 apart.1)

check_items_complete :
    (xs : List TransferItemInput) → All Asks xs → Apart OtherProduct xs → check_items xs ≡ true
unfolding check_items
check_items_complete [] asks apart = refl
check_items_complete (x ∷ xs) asks apart =
    ground (arith, asks.0, follow_complete x xs asks.1 apart.0 apart.1)

above :
    (b x : ℕ) (ys : List TransferItemInput)
    → b < x
    → All (λ y. x < y.product_id) ys
    → All (λ y. b < y.product_id) ys
above b x [] h all = tt
above b x (y ∷ ys) h all = (omega (arith, all.0), above b x ys h all.1)

above-OtherProduct :
    (x : TransferItemInput) (ys : List TransferItemInput)
    → All (λ y. x.product_id < y.product_id) ys
    → All (OtherProduct x) ys
above-OtherProduct x [] all = tt
above-OtherProduct x (y ∷ ys) all = (ground (arith, all.0), above-OtherProduct x ys all.1)

follow_sound :
    (b : TransferItemInput) (xs : List TransferItemInput)
    → follow b xs ≡ true
    → All (λ y. b.product_id ≤ y.product_id) xs
    → Sorted xs
    → All Asks xs × All (λ y. b.product_id < y.product_id) xs × Apart OtherProduct xs
unfolding follow
follow_sound b [] h least sorted = (tt, tt, tt)
follow_sound b (x ∷ xs) h least sorted =
    let (asks, more, apart) = follow_sound x xs (ground (arith, h)) sorted.0 sorted.1 in
    let next : b.product_id < x.product_id = ground (arith, h, least.0) in
    (
      (ground (arith, h), asks),
      (next, above b.product_id x.product_id xs next more),
      (above-OtherProduct x xs more, apart),
    )

check_items_sound :
    (xs : List TransferItemInput)
    → check_items xs ≡ true
    → Sorted xs
    → All Asks xs × Apart OtherProduct xs
unfolding check_items
check_items_sound [] h sorted = (tt, tt)
check_items_sound (x ∷ xs) h sorted =
    let (asks, more, apart) = follow_sound x xs (ground (arith, h)) sorted.0 sorted.1 in
    ((ground (arith, h), asks), (above-OtherProduct x xs more, apart))

least_rest :
    (x y : ℕ) (ys : List TransferItemInput)
    → x ≤ y
    → All (λ z. y ≤ z.product_id) ys
    → All (λ z. x ≤ z.product_id) ys
least_rest x y [] h all = tt
least_rest x y (z ∷ ys) h all = (omega (arith, all.0), least_rest x y ys h all.1)

insert_by-Sorted :
    (x : TransferItemInput) (ys : List TransferItemInput)
    → Sorted ys
    → Sorted (insert_by product_less x ys)
unfolding insert_by
insert_by-Sorted x [] h = (tt, tt)
insert_by-Sorted x (y ∷ ys) h = elim (Bool-cases (ltb y.product_id x.product_id)) [
  | inl e ↦ rw e (
    All-insert_by product_less (λ z. y.product_id ≤ z.product_id) x ys (ground (arith, e)) h.0,
    insert_by-Sorted x ys h.1,
  )
  | inr e ↦
      let less : x.product_id ≤ y.product_id = ground (arith, e) in
      rw e ((less, least_rest x.product_id y.product_id ys less h.0), h)
]

sort_by-Sorted : (xs : List TransferItemInput) → Sorted (sort_by product_less xs)
unfolding sort_by
sort_by-Sorted [] = tt
sort_by-Sorted (x ∷ xs) = insert_by-Sorted x (sort_by product_less xs) (sort_by-Sorted xs)

-- The check of the sorted items passes exactly when every item names a product and asks for at
-- least one unit of it, and no product is named twice, in whatever order they come.
pub check_items_iff :
    (items : List TransferItemInput)
    → (check_items (sort_by product_less items) ≡ true)
      ↔ (All Asks items × Apart OtherProduct items)
check_items_iff items =
    let sorted = sort_by product_less items in
    (
      λ h.
          let (asks, apart) = check_items_sound sorted h (sort_by-Sorted items) in
          (
            All-sort_by_back product_less Asks items asks,
            Apart-sort_by_back product_less OtherProduct (λ a b n e. n (sym e)) items apart,
          ),
      λ (asks, apart).
          check_items_complete sorted (All-sort_by product_less Asks items asks)
            (Apart-sort_by product_less OtherProduct (λ a b n e. n (sym e)) items apart),
    )
