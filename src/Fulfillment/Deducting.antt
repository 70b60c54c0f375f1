-- ===== src/Fulfillment/Deducting.antt =====
-- The loop of `Complete` that takes the quantities out of the levels.
use flowcart.Prelude.{
  ℕ, ==_refl, ◌+◌, ◌≡◌, refl, inl, inr, false, some, List, [], ◌∷◌, arith, ◌==◌, if◌then◌else◌,
  Option-cases, Bool-cases, Map, ok, ltb,
}
use mathlib.Core.Path.{subst}
use flowcart.Database.{Db, InventoryLevel}
use flowcart.Database.Stock.{is_level, find_level, change_levels, change_stock}
use flowcart.Database.Stock.Coverage.{UniqueLevels}
use flowcart.Database.Stock.Moves.{change_levels-Moves, UniqueLevels-Moves}
use flowcart.Database.Stock.Slack.{AllStock, AllStock-Moves, AllStock-step}
use flowcart.Transfer.Shipping.{minus}
use flowcart.Transfer.Moving.{minus_part}
use flowcart.Fulfillment.Completing.{quantity_of, deduct}
use flowcart.Fulfillment.Quantities.{taken}

-- What the walk over some levels of an organization takes of each level.
abbrev pub taken_from : ℕ → Map ℕ → List ℕ → ℕ → ℕ → ℕ
taken_from o m ids p j = if o == p then taken j (quantity_of j m) ids else 0

module _ (o : ℕ) (m : Map ℕ) (F : ℕ → ℕ → ℕ → Type 0) where
  record IsTaken (id : ℕ) (db after : Db) : Type 0 where
    moves : change_levels o id (minus (quantity_of id m)) db.levels ≡ some after.levels
    tables : after ≡ record db { levels = after.levels }

  -- One round, and the run of the rest.
  deduct-IsTaken :
      (id : ℕ) (ids : List ℕ) (db after : Db)
      → deduct o m (id ∷ ids) db ≡ ok (tt, after)
      → (mid : Db) × IsTaken id db mid × (deduct o m ids mid ≡ ok (tt, after))
  unfolding deduct change_stock
  deduct-IsTaken id ids db after h = elim (Option-cases (find_level o id db)) [
    | inl e ↦ absurd (ground (arith, e, h))
    | inr (level, e) ↦ elim (Bool-cases (ltb level.on_hand_quantity (quantity_of id m))) [
      | inl f ↦ absurd (ground (arith, e, f, h))
      | inr f ↦ elim (Option-cases (change_levels o id (minus (quantity_of id m)) db.levels)) [
        | inl g ↦ absurd (ground (arith, e, f, g, h))
        | inr (levels, g) ↦ (
          record db { levels = levels },
          record { moves = g; tables = refl },
          ground (arith, e, f, g, h),
        )
      ]
    ]
  ]

  pub record IsDeducted (ids : List ℕ) (db after : Db) : Type 0 where
    pub tables : after ≡ record db { levels = after.levels }
    pub unique : UniqueLevels after.levels
    pub stated :
        (s : ℕ → ℕ → ℕ)
        → AllStock F s db.levels
        → AllStock F (λ p j. s p j + taken_from o m ids p j) after.levels

  taken-step :
      (id : ℕ) (s : ℕ → ℕ → ℕ) (l : InventoryLevel)
      → is_level o id l ≡ false
      → s l.organization_id l.id + taken_from o m (id ∷ []) l.organization_id l.id
        ≡ s l.organization_id l.id
  taken-step id s l e = ground (arith, e)

  none_taken : (p j h k : ℕ) → h + k ≡ h + (k + taken_from o m [] p j)
  none_taken p j h k = ground arith

  both_taken :
      (id : ℕ) (ids : List ℕ) (p j h k : ℕ)
      → h + (k + taken_from o m (id ∷ []) p j + taken_from o m ids p j)
        ≡ h + (k + taken_from o m (id ∷ ids) p j)
  both_taken id ids p j h k = ground arith

  pub deduct-IsDeducted :
      (ids : List ℕ) (db after : Db)
      → UniqueLevels db.levels
      → deduct o m ids db ≡ ok (tt, after)
      → IsDeducted ids db after
  unfolding deduct
  deduct-IsDeducted [] db after unique h =
      let same : db ≡ after = ground (arith, h) in
      record {
        tables = rw same refl;
        unique = subst (λ d. UniqueLevels d.levels) same unique;
        stated = λ s h.
            subst (λ d. AllStock F (λ p j. s p j + taken_from o m [] p j) d.levels) same
              (AllStock-step F F s (λ p j. s p j + taken_from o m [] p j)
                (λ p j k x. subst (F p j) (none_taken p j k (s p j)) x) db.levels h);
      }
  deduct-IsDeducted (id ∷ ids) db after unique h =
      let (mid, t, rest) = deduct-IsTaken id ids db after h in
      let q = quantity_of id m in
      let moves = change_levels-Moves o id (minus q) db.levels mid.levels unique t.moves in
      let others = deduct-IsDeducted ids mid after (UniqueLevels-Moves moves unique) rest in
      record {
        tables = rw (others.tables, t.tables) refl;
        unique = others.unique;
        stated = λ s h.
            let t = λ (p j : ℕ). s p j + taken_from o m (id ∷ []) p j in
            let here =
              AllStock-Moves F o id (minus q) s t (λ l e. taken-step id s l e)
                (ground (arith, minus_part q, ==_refl o, ==_refl id)) moves h in
            AllStock-step F F (λ p j. t p j + taken_from o m ids p j)
              (λ p j. s p j + taken_from o m (id ∷ ids) p j)
              (λ p j k x. subst (F p j) (both_taken id ids p j k (s p j)) x) after.levels
              (others.stated t here);
      }

pub deduct_keeps_tables :
    (o : ℕ) (m : Map ℕ) (ids : List ℕ) (db after : Db)
    → deduct o m ids db ≡ ok (tt, after)
    → after ≡ record db { levels = after.levels }
unfolding deduct
deduct_keeps_tables o m [] db after h = let same : db ≡ after = ground (arith, h) in rw same refl
deduct_keeps_tables o m (id ∷ ids) db after h =
    let (mid, t, rest) = deduct-IsTaken o m (λ p j k. Unit) id ids db after h in
    rw (deduct_keeps_tables o m ids mid after rest, t.tables) refl
