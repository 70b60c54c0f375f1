-- ===== src/Fulfillment/Quantities.antt =====
-- What a fulfillment takes of each level: the sums of its records.
use flowcart.Prelude.{
  ℕ, ◌+◌, ◌≡◌, refl, ◌∙◌, inl, inr, Bool, true, false, ◌||◌, List, [], ◌∷◌, arith, ◌==◌, ltb,
  if◌then◌else◌, All, Bool-cases, Map, insert, lookup-insert, sort_by, sum_of, sum_of-sort_by, ok,
}
use flowcart.Database.{Db}
use flowcart.Order.Creating.{contains}
use flowcart.Fulfillment.Model.{ReservationRecord}
use flowcart.Fulfillment.Completing.{quantity_of, add_quantities, inventory_ids, is_committed}

-- What the records take of a level.
abbrev pub asked : ℕ → ReservationRecord → ℕ
asked level r = if r.inventory_level_id == level then r.quantity else 0

abbrev pub pending : ℕ → List ReservationRecord → ℕ
pending level rs = sum_of (asked level) rs

-- What is taken of a level in the walk over some levels, when each gives what the map has for it.
abbrev pub taken : ℕ → ℕ → List ℕ → ℕ
taken level q ids = sum_of (λ id. if id == level then q else 0) ids

quantity_of-insert :
    (k l v : ℕ) (m : Map ℕ) → quantity_of l (insert k v m) ≡ (if k == l then v else quantity_of l m)
quantity_of-insert k l v m = ground (arith, lookup-insert k l v m)

-- What a loop over the locked records that succeeds tells.
pub record AreAdded (rs : List ReservationRecord) (before after : Map ℕ) (db left : Db)
    : Type 0 where
  pub same : left ≡ db
  pub sums : (l : ℕ) → quantity_of l after ≡ quantity_of l before + pending l rs
  pub commits : All (λ r. is_committed r.status ≡ true) rs

pub add_quantities-AreAdded :
    (order warehouse : ℕ) (rs : List ReservationRecord) (before after : Map ℕ) (db left : Db)
    → add_quantities order warehouse rs before db ≡ ok (after, left)
    → AreAdded rs before after db left
unfolding add_quantities
add_quantities-AreAdded order warehouse [] before after db left h = record {
  same = ground (arith, h);
  sums = λ l. ground (arith, h);
  commits = tt;
}
add_quantities-AreAdded order warehouse (r ∷ rs) before after db left h =
    let level = r.inventory_level_id in
    let rest =
      add_quantities-AreAdded order warehouse rs
        (insert level (quantity_of level before + r.quantity) before) after db left
        (ground (arith, h)) in
    record {
      same = rest.same;
      sums = λ l. ground (
        arith,
        rest.sums l,
        quantity_of-insert level l (quantity_of level before + r.quantity) before,
      );
      commits = (ground (arith, h), rest.commits);
    }

abbrev meets : ℕ → List ReservationRecord → Bool
meets level [] = false
meets level (r ∷ rs) = r.inventory_level_id == level || meets level rs

unmet-pending :
    (level : ℕ) (rs : List ReservationRecord) → meets level rs ≡ false → pending level rs ≡ 0
unmet-pending level [] h = refl
unmet-pending level (r ∷ rs) h = ground (arith, h, unmet-pending level rs (ground (arith, h)))

taken-inventory_ids :
    (level q : ℕ) (seen : List ℕ) (rs : List ReservationRecord)
    → taken level q (inventory_ids seen rs)
      ≡ (if contains level seen then 0 else if meets level rs then q else 0)
unfolding inventory_ids
taken-inventory_ids level q seen [] = ground arith
taken-inventory_ids level q seen (r ∷ rs) =
    let id = r.inventory_level_id in
    elim (Bool-cases (contains id seen)) [
      | inl e ↦ rw e (ground (arith, e, taken-inventory_ids level q seen rs))
      | inr e ↦ rw e (ground (arith, e, taken-inventory_ids level q (id ∷ seen) rs))
    ]

-- Walking over the distinct levels of the records takes of each what all of the records do.
pub taken_all :
    (level : ℕ) (rs : List ReservationRecord)
    → taken level (pending level rs) (sort_by ltb (inventory_ids [] rs)) ≡ pending level rs
taken_all level rs =
    sum_of-sort_by ltb _ (inventory_ids [] rs)
    ∙ taken-inventory_ids level (pending level rs) [] rs
    ∙ ground (arith, unmet-pending level rs)
