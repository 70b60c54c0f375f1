-- ===== src/Database/Stock/Moves.antt =====
-- A change of the stock of one level: what it leaves as it was, and what it adds up to.
use mathlib.Core.Path.{subst}
use flowcart.Prelude.{
  ℕ, ◌+◌, ◌≤◌, ◌≡◌, refl, inl, inr, true, false, ◌&&◌, some, List, [], ◌∷◌, arith, ◌==◌,
  if◌then◌else◌, first, All, Bool-cases, Option-cases, ℤ, pos, negsuc, pos_part, neg_part,
}
use flowcart.Database.Tables.{InventoryLevel, Reservation}
use flowcart.Database.Stock.{is_level, reserved_on, moved, change_levels}
use flowcart.Database.Stock.Laws.{OtherLevel, is_level_eq}
use flowcart.Database.Stock.Coverage.{Covered, UniqueLevels, unmatched_rest}

abbrev pub Unmatched : ℕ → ℕ → List InventoryLevel → Type 0
Unmatched o i = All (λ m. is_level o i m ≡ false)

-- The second list is the first with the stock of level `i` of organization `o` moved by `delta`,
-- if it is there.
pub data Moves (o i : ℕ) (delta : ℤ) : List InventoryLevel → List InventoryLevel → Type 0 where
  nowhere : Moves o i delta [] []
  hit :
      (l : InventoryLevel) (ls : List InventoryLevel) (h : ℕ)
      → is_level o i l ≡ true
      → moved l.on_hand_quantity delta ≡ some h
      → Unmatched o i ls
      → Moves o i delta (l ∷ ls) (record l { on_hand_quantity = h } ∷ ls)
  skip :
      (l : InventoryLevel) {ls ls' : List InventoryLevel}
      → is_level o i l ≡ false
      → Moves o i delta ls ls'
      → Moves o i delta (l ∷ ls) (l ∷ ls')

module _ (o i : ℕ) (delta : ℤ) where
  change_levels-Unmatched :
      (ls : List InventoryLevel) → Unmatched o i ls → change_levels o i delta ls ≡ some ls
  unfolding change_levels
  change_levels-Unmatched [] u = refl
  change_levels-Unmatched (l ∷ ls) u = rw (u.0, change_levels-Unmatched ls u.1)

  pub change_levels-Moves :
      (ls ls' : List InventoryLevel)
      → UniqueLevels ls
      → change_levels o i delta ls ≡ some ls'
      → Moves o i delta ls ls'
  unfolding change_levels
  change_levels-Moves [] [] unique e = nowhere
  change_levels-Moves [] (l ∷ ls') unique e = cc
  change_levels-Moves (l ∷ ls) ls' unique e = elim (Bool-cases (is_level o i l)) [
    | inl m ↦
        let u = unmatched_rest o i l ls m unique.0 in
        elim (Option-cases (moved l.on_hand_quantity delta)) [
          | inl f ↦ absurd (ground (arith, m, f, e))
          | inr (h, f) ↦
              let q : (record l { on_hand_quantity = h } ∷ ls) ≡ ls' =
                ground (arith, m, f, e, change_levels-Unmatched ls u) in
              subst (Moves o i delta (l ∷ ls)) q (hit l ls h m f u)
        ]
    | inr m ↦ elim (Option-cases (change_levels o i delta ls)) [
      | inl f ↦ absurd (ground (arith, m, f, e))
      | inr (rest, f) ↦
          let q : (l ∷ rest) ≡ ls' = ground (arith, m, f, e) in
          subst (Moves o i delta (l ∷ ls)) q (skip l m (change_levels-Moves ls rest unique.1 f))
    ]
  ]

-- The stock of a product in an organization, over all its warehouses.
abbrev pub stock_of : ℕ → ℕ → List InventoryLevel → ℕ
stock_of organization product [] = 0
stock_of organization product (l ∷ ls) =
    (if l.organization_id == organization && l.product_id == product then l.on_hand_quantity else 0)
    + stock_of organization product ls

pub moved_eq :
    (on_hand : ℕ) (delta : ℤ) (h : ℕ)
    → moved on_hand delta ≡ some h
    → h + neg_part delta ≡ on_hand + pos_part delta
moved_eq on_hand (pos n) h e = ground arith
moved_eq on_hand (negsuc n) h e = ground arith

module _ {o i : ℕ} {delta : ℤ} where
  -- The keys stay apart.
  others-Moves :
      (m : InventoryLevel) {ls ls' : List InventoryLevel}
      → Moves o i delta ls ls'
      → All (OtherLevel m) ls
      → All (OtherLevel m) ls'
  others-Moves m nowhere h = tt
  others-Moves m (hit l ls n e f u) h = (h.0, h.1)
  others-Moves m (skip l e rest) h = (h.0, others-Moves m rest h.1)

  pub UniqueLevels-Moves :
      {ls ls' : List InventoryLevel} → Moves o i delta ls ls' → UniqueLevels ls → UniqueLevels ls'
  UniqueLevels-Moves nowhere u = tt
  UniqueLevels-Moves (hit l ls n e f m) u = u
  UniqueLevels-Moves (skip l e rest) u = (others-Moves l rest u.0, UniqueLevels-Moves rest u.1)

  -- Stock that is moved to no less than what is reserved stays covered.
  pub Covered-Moves :
      (time : ℕ) (rs : List Reservation) (found : InventoryLevel) {ls ls' : List InventoryLevel}
      → Moves o i delta ls ls'
      → first (is_level o i) ls ≡ some found
      → reserved_on time o i rs + neg_part delta ≤ found.on_hand_quantity + pos_part delta
      → Covered time ls rs
      → Covered time ls' rs
  Covered-Moves time rs found nowhere f room c = tt
  Covered-Moves time rs found (hit l ls n e g u) f room c =
      let same = is_level_eq o i l e in
      let sum = moved_eq l.on_hand_quantity delta n g in
      (ground (arith, same, e, f, room, sum), c.1)
  Covered-Moves time rs found (skip l e rest) f room c =
      (c.0, Covered-Moves time rs found rest (ground (arith, e, f)) room c.1)

  -- The stock of the level's product moves by `delta`, and that of every other product stays.
  pub stock_of-Moves :
      (q p : ℕ) (found : InventoryLevel) {ls ls' : List InventoryLevel}
      → Moves o i delta ls ls'
      → first (is_level o i) ls ≡ some found
      → stock_of q p ls' + (if o == q && found.product_id == p then neg_part delta else 0)
        ≡ stock_of q p ls + (if o == q && found.product_id == p then pos_part delta else 0)
  stock_of-Moves q p found nowhere f = cc
  stock_of-Moves q p found (hit l ls n e g u) f =
      let same = is_level_eq o i l e in
      let sum = moved_eq l.on_hand_quantity delta n g in ground (arith, same, e, f, sum)
  stock_of-Moves q p found (skip l e rest) f =
      ground (arith, stock_of-Moves q p found rest (ground (arith, e, f)))

  -- A level that a key finds keeps its row but for the stock; another key finds what it found.
  pub find-Moves_other :
      (q j : ℕ) {ls ls' : List InventoryLevel}
      → Moves o i delta ls ls'
      → (o == q && i == j) ≡ false
      → first (is_level q j) ls' ≡ first (is_level q j) ls
  find-Moves_other q j nowhere d = refl
  find-Moves_other q j (hit l ls n e g u) d = ground (arith, is_level_eq o i l e)
  find-Moves_other q j (skip l e rest) d = ground (arith, find-Moves_other q j rest d)

  pub find-Moves_self :
      (found : InventoryLevel) {ls ls' : List InventoryLevel}
      → Moves o i delta ls ls'
      → first (is_level o i) ls ≡ some found
      → (h : ℕ) × (moved found.on_hand_quantity delta ≡ some h)
        × (first (is_level o i) ls' ≡ some (record found { on_hand_quantity = h }))
  find-Moves_self found nowhere f = absurd (cc)
  find-Moves_self found (hit l ls n e g u) f = (n, ground (arith, e, f, g), ground (arith, e, f, g))
  find-Moves_self found (skip l e rest) f =
      let (h, a, b) = find-Moves_self found rest (ground (arith, e, f)) in
      (h, a, ground (arith, e, b))
