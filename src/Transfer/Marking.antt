-- ===== src/Transfer/Marking.antt =====
-- The `UPDATE` of a transfer's row, and what it makes of the stock on the road.
use mathlib.Core.Option
use flowcart.Prelude.{
  ℕ, ◌+◌, ◌≡◌, refl, inl, inr, Bool, true, false, some, List, [], ◌∷◌, arith, if◌then◌else◌, first,
  select, update, Bool-cases, Option-cases,
}
use flowcart.Database.{Transfer, TransferItem, TransferStatus}
use flowcart.Database.Stock.Laws.{first_holds}
use flowcart.Transfer.Reading.{is_transfer, is_item_of}
use flowcart.Transfer.Shipping.{is_in_transit, is_open}
use flowcart.Transfer.Amounts.{is_moving, carried, amount_of}

module _ (at : TransferStatus → Bool) (o id : ℕ) (f : Transfer → Transfer)
    (same_organization : (t : Transfer) → (f t).organization_id ≡ t.organization_id)
    (same_id : (t : Transfer) → (f t).id ≡ t.id) where
  -- A key finds the row that it found, marked if it is the one.
  pub find-mark :
      (a b : ℕ) (ts : List Transfer)
      → first (is_transfer a b) (update (is_open at o id) f ts)
        ≡ Option.map (λ t. if is_open at o id t then f t else t) (first (is_transfer a b) ts)
  find-mark a b [] = refl
  find-mark a b (t ∷ ts) = ground (arith, find-mark a b ts, same_organization t, same_id t)

  module _ (ts : List Transfer) (t : Transfer) (found : first (is_transfer o id) ts ≡ some t) where
    moving_other :
        (i : TransferItem)
        → is_item_of o id i ≡ false
        → is_moving (update (is_open at o id) f ts) i ≡ is_moving ts i
    moving_other i e =
        let a = i.organization_id in
        let b = i.transfer_id in
        let marking = find-mark a b ts in
        elim (Option-cases (first (is_transfer a b) ts)) [
          | inl g ↦ ground (arith, marking, g)
          | inr (x, g) ↦ ground (arith, marking, g, e, first_holds (is_transfer a b) ts g)
        ]

    moving_self :
        (i : TransferItem)
        → is_item_of o id i ≡ true
        → at t.status ≡ true
        → (is_moving ts i ≡ is_in_transit t.status)
          × (is_moving (update (is_open at o id) f ts) i ≡ is_in_transit (f t).status)
    moving_self i e h =
        let marking = find-mark o id ts in
        let self = first_holds (is_transfer o id) ts found in
        (ground (arith, found, e), ground (arith, found, e, marking, self, h))

    -- What the mark makes of the stock on the road, if it starts or ends a journey.
    pub carried-mark :
        (q p : ℕ) (is : List TransferItem)
        → at t.status ≡ true
        → let this = amount_of q p (select (is_item_of o id) is) in
          carried q p (update (is_open at o id) f ts) is
            + (if is_in_transit t.status then this else 0)
          ≡ carried q p ts is + (if is_in_transit (f t).status then this else 0)
    unfolding carried amount_of
    carried-mark q p [] h = ground arith
    carried-mark q p (i ∷ is) h = elim (Bool-cases (is_item_of o id i)) [
      | inl e ↦
          let (was, now) = moving_self i e h in ground (arith, e, was, now, carried-mark q p is h)
      | inr e ↦ ground (arith, e, moving_other i e, carried-mark q p is h)
    ]
