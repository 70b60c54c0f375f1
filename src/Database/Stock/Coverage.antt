-- ===== src/Database/Stock/Coverage.antt =====
-- The stock of every level covers what is reserved of it, and how the statements keep that.
use flowcart.Prelude.{
  ℕ, ◌+◌, ◌≤◌, ◌≡◌, inl, inr, true, false, ◌&&◌, some, List, [], ◌∷◌, arith, ◌==◌, if◌then◌else◌,
  first, All, Apart, Bool-cases,
}
use flowcart.Database.Tables.{InventoryLevel, Reservation, Db}
use flowcart.Database.Stock.{is_level, reserved_on}
use flowcart.Database.Stock.Laws.{OtherLevel}

-- No level has more reserved at a time than it has on hand.
abbrev pub Covered : ℕ → List InventoryLevel → List Reservation → Type 0
Covered time ls rs = All (λ l. reserved_on time l.organization_id l.id rs ≤ l.on_hand_quantity) ls

abbrev pub IsCovered : ℕ → Db → Type 0
IsCovered time db = Covered time db.levels db.reservations

-- No key of a level stands twice.
abbrev pub UniqueLevels : List InventoryLevel → Type 0
UniqueLevels = Apart OtherLevel

pub Covered-fewer :
    (time : ℕ) (ls : List InventoryLevel) (rs ss : List Reservation)
    → ((o i : ℕ) → reserved_on time o i ss ≤ reserved_on time o i rs)
    → Covered time ls rs
    → Covered time ls ss
Covered-fewer time [] rs ss fewer c = tt
Covered-fewer time (l ∷ ls) rs ss fewer c =
    (omega (arith, fewer l.organization_id l.id, c.0), Covered-fewer time ls rs ss fewer c.1)

module _ (o i : ℕ) where
  pub unmatched_rest :
      (l : InventoryLevel) (ls : List InventoryLevel)
      → is_level o i l ≡ true
      → All (OtherLevel l) ls
      → All (λ m. is_level o i m ≡ false) ls
  unmatched_rest l [] e other = tt
  unmatched_rest l (m ∷ ms) e other = (ground (arith, other.0), unmatched_rest l ms e other.1)

  -- Another level's sum is not touched by rows of this one.
  module _ (time q : ℕ) (rs ss : List Reservation)
      (more : (p j : ℕ)
        → reserved_on time p j ss
          ≤ reserved_on time p j rs + (if o == p && i == j then q else 0)) where
    Covered-unmatched :
        (ls : List InventoryLevel)
        → All (λ m. is_level o i m ≡ false) ls
        → Covered time ls rs
        → Covered time ls ss
    Covered-unmatched [] u c = tt
    Covered-unmatched (l ∷ ls) u c =
        (ground (arith, more l.organization_id l.id, u.0, c.0), Covered-unmatched ls u.1 c.1)

    -- Rows that take `q` more of one level keep all covered if that level has room for them.
    pub Covered-more :
        (ls : List InventoryLevel) (found : InventoryLevel)
        → UniqueLevels ls
        → first (is_level o i) ls ≡ some found
        → reserved_on time o i rs + q ≤ found.on_hand_quantity
        → Covered time ls rs
        → Covered time ls ss
    Covered-more [] found unique f room c = tt
    Covered-more (l ∷ ls) found unique f room c = elim (Bool-cases (is_level o i l)) [
      | inl e ↦ (
        ground (arith, more l.organization_id l.id, e, f, room),
        Covered-unmatched ls (unmatched_rest l ls e unique.0) c.1,
      )
      | inr e ↦ (
        ground (arith, more l.organization_id l.id, e, c.0),
        Covered-more ls found unique.1 (ground (arith, e, f)) room c.1,
      )
    ]
