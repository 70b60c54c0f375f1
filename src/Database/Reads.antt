-- ===== src/Database/Reads.antt =====
-- Parts of a transaction that only read.
use flowcart.Prelude.{
  ◌≡◌, refl, inl, inr, ◌⊎◌, Bool, true, false, Option, none, some, arith, Option-cases, ok, err,
}
use flowcart.Database.{Db, Tx, ◌>>=◌, ◌>>◌, or_throw, throw_if}

-- A part that only reads fails, or succeeds and leaves the tables.
abbrev pub Reads : {E A : Type 0} → Tx E A → Type 0
Reads {E} {A} m = (db : Db) → ((e : E) × (m db ≡ err e)) ⊎ ((a : A) × (m db ≡ ok (a, db)))

pub Reads-bind :
    {E A B : Type 0} (m : Tx E A) (f : A → Tx E B)
    → Reads m
    → ((a : A) → Reads (f a))
    → Reads (m >>= f)
Reads-bind m f rm rf db = elim (rm db) [
  | inl (e, h) ↦ inl (e, ground (arith, h))
  | inr (a, h) ↦ elim (rf a db) [
    | inl (e, k) ↦ inl (e, ground (arith, h, k))
    | inr (b, k) ↦ inr (b, ground (arith, h, k))
  ]
]

pub Reads-throw_if : {E : Type 0} (c : Bool) (e : E) → Reads (throw_if c e)
Reads-throw_if true e db = inl (e, refl)
Reads-throw_if false e db = inr (tt, refl)

pub Reads-or_throw : {E A : Type 0} (g : Db → Option A) (e : E) → Reads (λ db. or_throw (g db) e db)
Reads-or_throw g e db = elim (Option-cases (g db)) [
  | inl h ↦ inl (e, ground (arith, h))
  | inr (a, h) ↦ inr (a, ground (arith, h))
]

-- What a chain that begins with a part that only reads, and that succeeded, did.
pub after_read :
    {E A B : Type 0} (m : Tx E A) (f : A → Tx E B) (db : Db) {r : B × Db}
    → Reads m
    → (m >>= f) db ≡ ok r
    → (a : A) × (m db ≡ ok (a, db)) × (f a db ≡ ok r)
after_read m f db reads h = elim (reads db) [
  | inl (e, x) ↦ absurd (ground (arith, x, h))
  | inr (a, x) ↦ (a, x, ground (arith, x, h))
]

pub after_check :
    {E B : Type 0} (c : Bool) (e : E) (k : Tx E B) (db : Db) {r : B × Db}
    → (throw_if c e >> k) db ≡ ok r
    → (c ≡ false) × (k db ≡ ok r)
after_check true e k db h = absurd (ground (arith, h))
after_check false e k db h = (refl, h)

pub after_found :
    {E A B : Type 0} (o : Option A) (e : E) (f : A → Tx E B) (db : Db) {r : B × Db}
    → ((λ d. or_throw o e d) >>= f) db ≡ ok r
    → (a : A) × (o ≡ some a) × (f a db ≡ ok r)
after_found none e f db h = absurd (ground (arith, h))
after_found (some a) e f db h = (a, refl, h)
