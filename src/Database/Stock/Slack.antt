-- ===== src/Database/Stock/Slack.antt =====
-- Statements about the stock of every level, with what is missing of it for a while added.
use mathlib.Core.Path.{subst}
use flowcart.Prelude.{ℕ, ◌+◌, ◌≡◌, sym, false, List, [], ◌∷◌, arith, All, ℤ, pos_part, neg_part}
use flowcart.Database.Tables.{InventoryLevel}
use flowcart.Database.Stock.{is_level}
use flowcart.Database.Stock.Laws.{is_level_eq}
use flowcart.Database.Stock.Moves.{Moves, nowhere, hit, skip, Unmatched, moved_eq}

-- The statement holds of every level and of its stock with the slack.
abbrev pub AllStock : (ℕ → ℕ → ℕ → Type 0) → (ℕ → ℕ → ℕ) → List InventoryLevel → Type 0
AllStock F slack =
    All (λ l. F l.organization_id l.id (l.on_hand_quantity + slack l.organization_id l.id))

module _ (F : ℕ → ℕ → ℕ → Type 0) where
  pub AllStock-step :
      (G : ℕ → ℕ → ℕ → Type 0) (s t : ℕ → ℕ → ℕ)
      → ((p j h : ℕ) → F p j (h + s p j) → G p j (h + t p j))
      → (ls : List InventoryLevel) → AllStock F s ls
      → AllStock G t ls
  AllStock-step G s t step [] h = tt
  AllStock-step G s t step (l ∷ ls) h =
      (step l.organization_id l.id l.on_hand_quantity h.0, AllStock-step G s t step ls h.1)

  module _ (o i : ℕ) (delta : ℤ) (s t : ℕ → ℕ → ℕ)
      (other : (l : InventoryLevel)
        → is_level o i l ≡ false
        → t l.organization_id l.id ≡ s l.organization_id l.id) where
    AllStock-Unmatched :
        (ls : List InventoryLevel) → Unmatched o i ls → AllStock F s ls → AllStock F t ls
    AllStock-Unmatched [] u h = tt
    AllStock-Unmatched (l ∷ ls) u h = (
      subst (λ k. F l.organization_id l.id (l.on_hand_quantity + k)) (sym (other l u.0)) h.0,
      AllStock-Unmatched ls u.1 h.1,
    )

    -- Slack that makes up for a change of stock keeps every statement.
    pub AllStock-Moves :
        (neg_part delta + s o i ≡ pos_part delta + t o i)
        → {ls ls' : List InventoryLevel} → Moves o i delta ls ls'
        → AllStock F s ls
        → AllStock F t ls'
    AllStock-Moves even nowhere h = tt
    AllStock-Moves even (hit l ls n e g u) h =
        let (org, id) = is_level_eq o i l e in
        let sum : l.on_hand_quantity + s l.organization_id l.id ≡ n + t l.organization_id l.id =
          rw (org, id) (omega (arith, moved_eq l.on_hand_quantity delta n g, even)) in
        (subst (F l.organization_id l.id) sum h.0, AllStock-Unmatched ls u h.1)
    AllStock-Moves even (skip l e rest) h = (
      subst (λ k. F l.organization_id l.id (l.on_hand_quantity + k)) (sym (other l e)) h.0,
      AllStock-Moves even rest h.1,
    )
