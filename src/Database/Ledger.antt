-- ===== src/Database/Ledger.antt =====
-- The movements of a level account for its stock.
use flowcart.Prelude.{
  ℕ, ◌+◌, ◌≡◌, Bool, ◌&&◌, List, [], ◌∷◌, ◌++◌, arith, ◌==◌, if◌then◌else◌, All, pos_part, neg_part,
}
use flowcart.Database.Tables.{InventoryLevel, InventoryMovement, Db}
use flowcart.Database.Stock.Laws.{is_level_eq}
use flowcart.Database.Stock.Moves.{Moves, nowhere, hit, skip, Unmatched, moved_eq}

abbrev is_movement_of : ℕ → ℕ → InventoryMovement → Bool
is_movement_of organization level m =
    m.organization_id == organization && m.inventory_level_id == level

-- What the movements of a level bring in, and what they take out.
unfoldable pub brought_in : ℕ → ℕ → List InventoryMovement → ℕ
brought_in organization level [] = 0
brought_in organization level (m ∷ ms) =
    (if is_movement_of organization level m then pos_part m.quantity_delta else 0)
    + brought_in organization level ms

unfoldable pub taken_out : ℕ → ℕ → List InventoryMovement → ℕ
taken_out organization level [] = 0
taken_out organization level (m ∷ ms) =
    (if is_movement_of organization level m then neg_part m.quantity_delta else 0)
    + taken_out organization level ms

-- Every level has what it opened with, and what its movements have added up to since.
abbrev pub Balanced : (ℕ → ℕ → ℕ) → List InventoryLevel → List InventoryMovement → Type 0
Balanced opening ls ms =
    All
      (λ l.
        l.on_hand_quantity + taken_out l.organization_id l.id ms
        ≡ opening l.organization_id l.id + brought_in l.organization_id l.id ms)
      ls

abbrev pub IsBalanced : (ℕ → ℕ → ℕ) → Db → Type 0
IsBalanced opening db = Balanced opening db.levels db.movements

module _ (o i : ℕ) where
  pub brought_in-append :
      (ms : List InventoryMovement) (m : InventoryMovement)
      → brought_in o i (ms ++ m ∷ []) ≡ brought_in o i ms + brought_in o i (m ∷ [])
  unfolding brought_in
  brought_in-append [] m = omega arith
  brought_in-append (n ∷ ms) m = omega (arith, brought_in-append ms m)

  pub taken_out-append :
      (ms : List InventoryMovement) (m : InventoryMovement)
      → taken_out o i (ms ++ m ∷ []) ≡ taken_out o i ms + taken_out o i (m ∷ [])
  unfolding taken_out
  taken_out-append [] m = omega arith
  taken_out-append (n ∷ ms) m = omega (arith, taken_out-append ms m)

module _ (opening : ℕ → ℕ → ℕ) (m : InventoryMovement) (ms : List InventoryMovement) where
  Balanced-Unmatched :
      (ls : List InventoryLevel)
      → Unmatched m.organization_id m.inventory_level_id ls
      → Balanced opening ls ms
      → Balanced opening ls (ms ++ m ∷ [])
  unfolding brought_in taken_out
  Balanced-Unmatched [] u b = tt
  Balanced-Unmatched (l ∷ ls) u b = (
    ground (
      arith,
      u.0,
      b.0,
      brought_in-append l.organization_id l.id ms m,
      taken_out-append l.organization_id l.id ms m,
    ),
    Balanced-Unmatched ls u.1 b.1,
  )

  -- A change of the stock of a level that is recorded with its amount keeps the books balanced.
  pub Balanced-Moves :
      {ls ls' : List InventoryLevel}
      → Moves m.organization_id m.inventory_level_id m.quantity_delta ls ls'
      → Balanced opening ls ms
      → Balanced opening ls' (ms ++ m ∷ [])
  unfolding brought_in taken_out
  Balanced-Moves nowhere b = tt
  Balanced-Moves (hit l ls h e g u) b =
      let same = is_level_eq m.organization_id m.inventory_level_id l e in
      let sum = moved_eq l.on_hand_quantity m.quantity_delta h g in
      (
        ground (
          arith,
          same,
          sum,
          b.0,
          brought_in-append l.organization_id l.id ms m,
          taken_out-append l.organization_id l.id ms m,
        ),
        Balanced-Unmatched ls u b.1,
      )
  Balanced-Moves (skip l e rest) b = (
    ground (
      arith,
      e,
      b.0,
      brought_in-append l.organization_id l.id ms m,
      taken_out-append l.organization_id l.id ms m,
    ),
    Balanced-Moves rest b.1,
  )
