-- ===== src/Prelude/Sort.antt =====
-- `sort.Slice` with a comparison: the order in which a sorted slice is walked.
use Prim.Native.Nat.{ℕ, ◌+◌}
use mathlib.Core.Path.{◌≡◌, refl}
use native.Mathlib.Omega.{arith}
use mathlib.Core.Logic.{inl, inr}
use mathlib.Core.Bool.{Bool}
use mathlib.Core.List.{List, [], ◌∷◌}
use flowcart.Prelude.Tests.{if◌then◌else◌, Bool-cases}
use flowcart.Prelude.Lists.{All, sum_of}

-- Every two elements, the earlier one first, are related.
abbrev pub Apart {ℓ κ} : {A : Type ℓ} → (A → A → Type κ) → List A → Type κ
Apart R [] = Unit
Apart R (x ∷ xs) = All (R x) xs × Apart R xs

module _ {ℓ} {A : Type ℓ} (less : A → A → Bool) where
  unfoldable pub insert_by : A → List A → List A
  insert_by x [] = x ∷ []
  insert_by x (y ∷ ys) = if less y x then y ∷ insert_by x ys else x ∷ y ∷ ys

  unfoldable pub sort_by : List A → List A
  unfolding insert_by
  sort_by [] = []
  sort_by (x ∷ xs) = insert_by x (sort_by xs)

  pub All-insert_by {κ} :
      (P : A → Type κ) (x : A) (ys : List A) → P x → All P ys → All P (insert_by x ys)
  unfolding insert_by
  All-insert_by P x [] h hs = (h, tt)
  All-insert_by P x (y ∷ ys) h hs = elim (Bool-cases (less y x)) [
    | inl e ↦ rw e (hs.0, All-insert_by P x ys h hs.1)
    | inr e ↦ rw e (h, hs)
  ]

  pub All-sort_by {κ} : (P : A → Type κ) (xs : List A) → All P xs → All P (sort_by xs)
  unfolding sort_by
  All-sort_by P [] h = tt
  All-sort_by P (x ∷ xs) h = All-insert_by P x (sort_by xs) h.0 (All-sort_by P xs h.1)

  sum_of-insert_by :
      (f : A → ℕ) (x : A) (ys : List A) → sum_of f (insert_by x ys) ≡ f x + sum_of f ys
  unfolding insert_by
  sum_of-insert_by f x [] = refl
  sum_of-insert_by f x (y ∷ ys) = elim (Bool-cases (less y x)) [
    | inl e ↦ rw e (omega (arith, sum_of-insert_by f x ys))
    | inr e ↦ rw e refl
  ]

  pub sum_of-sort_by : (f : A → ℕ) (xs : List A) → sum_of f (sort_by xs) ≡ sum_of f xs
  unfolding sort_by
  sum_of-sort_by f [] = refl
  sum_of-sort_by f (x ∷ xs) = omega (arith, sum_of-insert_by f x (sort_by xs), sum_of-sort_by f xs)

  pub All-insert_by_back {κ} :
      (P : A → Type κ) (x : A) (ys : List A) → All P (insert_by x ys) → P x × All P ys
  unfolding insert_by
  All-insert_by_back P x [] h = (h.0, tt)
  All-insert_by_back P x (y ∷ ys) h = elim (Bool-cases (less y x)) [
    | inl e ↦
        let (py, rest) = rw e at h in
        let (px, pys) = All-insert_by_back P x ys rest in (px, (py, pys))
    | inr e ↦ let (px, rest) = rw e at h in (px, rest)
  ]

  pub All-sort_by_back {κ} : (P : A → Type κ) (xs : List A) → All P (sort_by xs) → All P xs
  unfolding sort_by
  All-sort_by_back P [] h = tt
  All-sort_by_back P (x ∷ xs) h =
      let (px, rest) = All-insert_by_back P x (sort_by xs) h in (px, All-sort_by_back P xs rest)

  module _ {κ} (R : A → A → Type κ) (flip : (x y : A) → R x y → R y x) where
    Apart-insert_by : (x : A) (ys : List A) → All (R x) ys → Apart R ys → Apart R (insert_by x ys)
    unfolding insert_by
    Apart-insert_by x [] h hs = (tt, tt)
    Apart-insert_by x (y ∷ ys) h hs = elim (Bool-cases (less y x)) [
      | inl e ↦ rw e (All-insert_by (R y) x ys (flip x y h.0) hs.0, Apart-insert_by x ys h.1 hs.1)
      | inr e ↦ rw e (h, hs)
    ]

    pub Apart-sort_by : (xs : List A) → Apart R xs → Apart R (sort_by xs)
    unfolding sort_by
    Apart-sort_by [] h = tt
    Apart-sort_by (x ∷ xs) h =
        Apart-insert_by x (sort_by xs) (All-sort_by (R x) xs h.0) (Apart-sort_by xs h.1)

    -- Conversely, what holds of the sorted list holds of the list.
    pub Apart-insert_by_back :
        (x : A) (ys : List A) → Apart R (insert_by x ys) → All (R x) ys × Apart R ys
    unfolding insert_by
    Apart-insert_by_back x [] h = (tt, tt)
    Apart-insert_by_back x (y ∷ ys) h = elim (Bool-cases (less y x)) [
      | inl e ↦
          let (first, rest) = rw e at h in
          let (px, pys) = All-insert_by_back (R y) x ys first in
          let (all, apart) = Apart-insert_by_back x ys rest in ((flip y x px, all), (pys, apart))
      | inr e ↦ let (all, apart) = rw e at h in (all, apart)
    ]

    pub Apart-sort_by_back : (xs : List A) → Apart R (sort_by xs) → Apart R xs
    unfolding sort_by
    Apart-sort_by_back [] h = tt
    Apart-sort_by_back (x ∷ xs) h =
        let (all, apart) = Apart-insert_by_back x (sort_by xs) h in
        (All-sort_by_back (R x) xs all, Apart-sort_by_back xs apart)
