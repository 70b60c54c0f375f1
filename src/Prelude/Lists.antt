-- ===== src/Prelude/Lists.antt =====
-- Lists over the native numbers, and the maps keyed by identifiers.
use Prim.Native.Nat.{ℕ, zero, suc, ◌+◌}
use mathlib.Core.Path.{◌≡◌, ◌∙◌, refl, subst, ap}
use mathlib.Core.Bool.{Bool, true, ◌&&◌}
use mathlib.Core.List.{List, [], ◌∷◌, ◌++◌}
use mathlib.Core.Option.{Option, none, some}
use native.Mathlib.Omega.{arith}
use mathlib.Core.Logic.{◌⊎◌, inl, inr}
use flowcart.Prelude.Tests.{Bool-cases, ◌==◌, if◌then◌else◌}

module _ {ℓ} {A : Type ℓ} where
  abbrev pub length : List A → ℕ
  length [] = 0
  length (x ∷ xs) = suc (length xs)

  abbrev pub take : ℕ → List A → List A
  take zero xs = []
  take (suc n) [] = []
  take (suc n) (x ∷ xs) = x ∷ take n xs

  -- A predicate that holds of every element, and the test that decides one.
  abbrev pub All {κ} : (A → Type κ) → List A → Type κ
  All P [] = Unit
  All P (x ∷ xs) = P x × All P xs

  pub All-map {κ μ} :
      (P : A → Type κ) (Q : A → Type μ) (xs : List A) → ((x : A) → P x → Q x) → All P xs → All Q xs
  All-map P Q [] f h = tt
  All-map P Q (x ∷ xs) f h = (f x h.0, All-map P Q xs f h.1)

  abbrev pub sum_of : (A → ℕ) → List A → ℕ
  sum_of f [] = 0
  sum_of f (x ∷ xs) = f x + sum_of f xs

  abbrev pub all : (A → Bool) → List A → Bool
  all p [] = true
  all p (x ∷ xs) = p x && all p xs

  -- Two lists of one length whose elements are related in order.
  abbrev pub Pairs : (A → A → Type 0) → List A → List A → Type 0
  Pairs R [] [] = Unit
  Pairs R (x ∷ xs) (y ∷ ys) = R x y × Pairs R xs ys
  Pairs R _ _ = ⊥

  -- The rows that pass a test, in order.
  abbrev pub select : (A → Bool) → List A → List A
  select p [] = []
  select p (x ∷ xs) = let rest = select p xs in if p x then x ∷ rest else rest

  abbrev pub first : (A → Bool) → List A → Option A
  first p [] = none
  first p (x ∷ xs) = if p x then some x else first p xs

  -- The rows with those that pass a test changed: an `UPDATE … WHERE`.
  abbrev pub update : (A → Bool) → (A → A) → List A → List A
  update p f [] = []
  update p f (x ∷ xs) = (if p x then f x else x) ∷ update p f xs

  pub All-append {κ} :
      (P : A → Type κ) (front back : List A) → All P front → All P back → All P (front ++ back)
  All-append P [] back f b = b
  All-append P (x ∷ front) back f b = (f.0, All-append P front back f.1 b)

  pub All-append_back {κ} :
      (P : A → Type κ) (front back : List A) → All P (front ++ back) → All P front × All P back
  All-append_back P [] back h = (tt, h)
  All-append_back P (x ∷ front) back h =
      let (f, b) = All-append_back P front back h.1 in ((h.0, f), b)

  pub Pairs-update :
      (R : A → A → Type 0) (p : A → Bool) (f : A → A)
      → ((x : A) → R x x)
      → ((x : A) → p x ≡ true → R x (f x))
      → (xs : List A) → Pairs R xs (update p f xs)
  Pairs-update R p f same step [] = tt
  Pairs-update R p f same step (x ∷ xs) = elim (Bool-cases (p x)) [
    | inl e ↦ rw e (step x e, Pairs-update R p f same step xs)
    | inr e ↦ rw e (same x, Pairs-update R p f same step xs)
  ]

  pub All-update {κ} :
      (P : A → Type κ) (p : A → Bool) (f : A → A)
      → ((x : A) → p x ≡ true → P x → P (f x))
      → (xs : List A) → All P xs
      → All P (update p f xs)
  All-update P p f step [] h = tt
  All-update P p f step (x ∷ xs) h = elim (Bool-cases (p x)) [
    | inl e ↦ rw e (step x e h.0, All-update P p f step xs h.1)
    | inr e ↦ rw e (h.0, All-update P p f step xs h.1)
  ]

  pub first-append :
      (p : A → Bool) (xs : List A) (y : A)
      → first p xs ≡ none
      → p y ≡ true
      → first p (xs ++ y ∷ []) ≡ some y
  first-append p [] y e h = rw h refl
  first-append p (x ∷ xs) y e h = elim (Bool-cases (p x)) [
    | inl k ↦ absurd (ground (arith, k, e))
    | inr k ↦ rw k (first-append p xs y (ground (arith, k, e)) h)
  ]

  pub first-update :
      (p : A → Bool) (f : A → A)
      → ((x : A) → p x ≡ true → p (f x) ≡ true)
      → (xs : List A) {x : A} → first p xs ≡ some x
      → first p (update p f xs) ≡ some (f x)
  first-update p f stays [] e = absurd (ground (arith, e))
  first-update p f stays (y ∷ ys) {x} e = elim (Bool-cases (p y)) [
    | inl k ↦
        let same : y ≡ x = ground (arith, k, e) in rw (k, stays y k) (ap (λ z. some (f z)) same)
    | inr k ↦ rw (k, k) (first-update p f stays ys (ground (arith, k, e)))
  ]

  pub first-update_other :
      (p q : A → Bool) (f : A → A)
      → ((x : A) → q x ≡ true → p (f x) ≡ p x)
      → (xs : List A) {x : A} → first p xs ≡ some x
      → first p (update q f xs) ≡ some (if q x then f x else x)
  first-update_other p q f same [] e = absurd (ground (arith, e))
  first-update_other p q f same (y ∷ ys) {x} e = elim (Bool-cases (p y)) [
    | inl k ↦
        let it : y ≡ x = ground (arith, k, e) in
        let fst : first p (update q f (y ∷ ys)) ≡ some (if q y then f y else y) =
          elim (Bool-cases (q y)) [
            | inl m ↦ ground (arith, k, m, same y m)
            | inr m ↦ ground (arith, k, m)
          ] in
        fst ∙ ap (λ z. some (if q z then f z else z)) it
    | inr k ↦
        let rest : first p ys ≡ some x = ground (arith, k, e) in
        let later = first-update_other p q f same ys rest in
        elim (Bool-cases (q y)) [
          | inl m ↦ ground (arith, k, m, same y m, later)
          | inr m ↦ ground (arith, k, m, later)
        ]
  ]

  pub length-append : (xs ys : List A) → length (xs ++ ys) ≡ length xs + length ys
  length-append [] ys = omega arith
  length-append (x ∷ xs) ys = omega (arith, length-append xs ys)

-- A Go map keyed by an identifier, as the list of its entries in one order of iteration.
abbrev pub Map {ℓ} : Type ℓ → Type ℓ
Map V = List (ℕ × V)

module _ {ℓ} {V : Type ℓ} where
  abbrev pub lookup : ℕ → Map V → Option V
  lookup k [] = none
  lookup k ((j, v) ∷ m) = if j == k then some v else lookup k m

  abbrev pub insert : ℕ → V → Map V → Map V
  insert key new [] = (key, new) ∷ []
  insert key new ((k, old) ∷ rest) =
      if k == key then (key, new) ∷ rest else (k, old) ∷ insert key new rest

  pub lookup-insert :
      (k j : ℕ) (v : V) (m : Map V)
      → lookup j (insert k v m) ≡ (if k == j then some v else lookup j m)
  lookup-insert k j v [] = refl
  lookup-insert k j v ((i, w) ∷ m) = ground (arith, lookup-insert k j v m)

module _ {A : Type 0} where
  -- An element of a list.
  abbrev pub Has : A → List A → Type 0
  Has x [] = ⊥
  Has x (y ∷ ys) = (y ≡ x) ⊎ Has x ys

  pub All-Has {κ} : (P : A → Type κ) (x : A) (ys : List A) → All P ys → Has x ys → P x
  All-Has P x [] h has = absurd has
  All-Has P x (y ∷ ys) h (inl e) = subst P e h.0
  All-Has P x (y ∷ ys) h (inr rest) = All-Has P x ys h.1 rest

  pub Has-self : (xs : List A) → All (λ x. Has x xs) xs
  Has-self [] = tt
  Has-self (x ∷ xs) =
      (inl refl, All-map (λ y. Has y xs) (λ y. Has y (x ∷ xs)) xs (λ y h. inr h) (Has-self xs))
