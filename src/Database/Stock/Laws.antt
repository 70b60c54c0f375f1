-- ===== src/Database/Stock/Laws.antt =====
-- The sums of reservations under the statements that write them, and the levels that a key finds.
use flowcart.Prelude.{
  ℕ, ◌+◌, ◌≤◌, ◌≡◌, inl, inr, Bool, true, ◌&&◌, some, List, [], ◌∷◌, ◌++◌, arith, if◌then◌else◌,
  first, update, Bool-cases,
}
use flowcart.Database.Tables.{InventoryLevel, Reservation, ReservationStatus}
use flowcart.Database.Stock.{
  is_level, is_on_level, counts, status_counts, reserved_on, is_overdue, expire,
}

-- What a reservation takes of a level at a time.
abbrev pub weight : ℕ → ℕ → ℕ → Reservation → ℕ
weight time organization level r =
    if is_on_level organization level r && counts time r then r.quantity else 0

module _ (time organization level : ℕ) where
  pub reserved_on-append :
      (rs ss : List Reservation)
      → reserved_on time organization level (rs ++ ss)
        ≡ reserved_on time organization level rs + reserved_on time organization level ss
  unfolding reserved_on
  reserved_on-append [] ss = omega arith
  reserved_on-append (r ∷ rs) ss = omega (arith, reserved_on-append rs ss)

  -- An update that makes no row weigh more makes no sum greater.
  pub reserved_on-update_le :
      (p : Reservation → Bool) (f : Reservation → Reservation)
      → ((r : Reservation)
          → p r ≡ true
          → weight time organization level (f r) ≤ weight time organization level r)
      → (rs : List Reservation)
      → reserved_on time organization level (update p f rs) ≤ reserved_on time organization level rs
  unfolding reserved_on
  reserved_on-update_le p f lighter [] = omega arith
  reserved_on-update_le p f lighter (r ∷ rs) = elim (Bool-cases (p r)) [
    | inl e ↦ rw e (omega (arith, lighter r e, reserved_on-update_le p f lighter rs))
    | inr e ↦ rw e (omega (arith, reserved_on-update_le p f lighter rs))
  ]

  -- What has expired counts for nothing.
  pub reserved_on-expire_le :
      (now o l : ℕ) (rs : List Reservation)
      → reserved_on time organization level (update (is_overdue now o l) (expire now) rs)
        ≤ reserved_on time organization level rs
  reserved_on-expire_le now o l =
      reserved_on-update_le (is_overdue now o l) (expire now) (λ r e. ground arith)

-- As time goes on no more is reserved.
pub status_counts_later :
    (s : ReservationStatus) (expires_at early late : ℕ)
    → early ≤ late
    → status_counts s expires_at late ≡ true
    → status_counts s expires_at early ≡ true
status_counts_later s expires_at early late h e = ground arith

pub reserved_on_later :
    (early late organization level : ℕ) (rs : List Reservation)
    → early ≤ late
    → reserved_on late organization level rs ≤ reserved_on early organization level rs
unfolding reserved_on
reserved_on_later early late o l [] h = omega arith
reserved_on_later early late o l (r ∷ rs) h = ground (
  arith,
  reserved_on_later early late o l rs h,
  status_counts_later r.status r.expires_at early late h,
)

-- Two levels differ in their key `(organization_id, id)`.
abbrev pub OtherLevel : InventoryLevel → InventoryLevel → Type 0
OtherLevel l m = ¬ ((l.organization_id ≡ m.organization_id) × (l.id ≡ m.id))

pub is_level_eq :
    (o i : ℕ) (l : InventoryLevel) → is_level o i l ≡ true → (l.organization_id ≡ o) × (l.id ≡ i)
is_level_eq o i l e = ground arith

pub first_holds {ℓ} :
    {A : Type ℓ} (p : A → Bool) (xs : List A) {x : A} → first p xs ≡ some x → p x ≡ true
first_holds p [] e = cc
first_holds p (y ∷ ys) e = elim (Bool-cases (p y)) [
  | inl h ↦ ground (arith, h, e)
  | inr h ↦ first_holds p ys (ground (arith, h, e))
]
