-- ===== src/Database.antt =====
-- The PostgreSQL tables, and transactions over them. The statements of the source are functions on
-- the rows. A transaction runs alone: the row locks that it takes keep others off its rows.
mod Tables
pub mod Sales
pub mod Stock
pub mod Audit
pub mod Ledger
pub mod Samples
pub mod Reads
pub use Tables.*
use flowcart.Prelude.{
  ◌≡◌, refl, Bool, true, false, Option, none, some, Result, ok, err, Result-cases, inl, inr, arith,
}

-- Part of a transaction: it returns a value and the tables that it leaves, or an error.
abbrev pub Tx : Type 0 → Type 0 → Type 0
Tx E A = Db → Result E (A × Db)

infixl 5 ◌>>=◌ ◌>>◌
abbrev pub ◌>>=◌ : {E A B : Type 0} → Tx E A → (A → Tx E B) → Tx E B
◌>>=◌ m f db = elim (m db) [ err e ↦ err e | ok (a, db') ↦ f a db' ]

abbrev pub ◌>>◌ : {E A B : Type 0} → Tx E A → Tx E B → Tx E B
m >> k = m >>= λ _. k

module _ {E A : Type 0} where
  abbrev pub pure : A → Tx E A
  pure a db = ok (a, db)

  abbrev pub throw : E → Tx E A
  throw e db = err e

  abbrev pub gets : (Db → A) → Tx E A
  gets f db = ok (f db, db)

  -- `pgx.ErrNoRows` becomes an error of the caller's.
  abbrev pub or_throw : Option A → E → Tx E A
  or_throw none e = throw e
  or_throw (some a) e = pure a

abbrev pub modify : {E : Type 0} → (Db → Db) → Tx E (Unit {0})
modify f db = ok (tt, f db)

abbrev pub throw_if : {E : Type 0} → Bool → E → Tx E (Unit {0})
throw_if true e = throw e
throw_if false e = pure tt

-- A commit keeps what the body wrote; the deferred `Rollback` drops what a failed body wrote.
abbrev pub finish : {E A : Type 0} → Db → Result E (A × Db) → Result E A × Db
finish db (ok (a, db')) = (ok a, db')
finish db (err e) = (err e, db)

-- `Begin`, the body, and the end of the transaction
abbrev pub transact : {E A : Type 0} → Tx E A → Db → Result E A × Db
transact body db = finish db (body db)

-- What a chain that succeeded did: each part of it succeeded.
pub after_first :
    {E A B : Type 0} (m : Tx E A) (f : A → Tx E B) (db : Db) {b : B} {after : Db}
    → (m >>= f) db ≡ ok (b, after)
    → (a : A) × (mid : Db) × (m db ≡ ok (a, mid)) × (f a mid ≡ ok (b, after))
after_first m f db h = elim (Result-cases (m db)) [
  | inl (e, x) ↦ absurd (ground (arith, x, h))
  | inr ((a, mid), x) ↦ (a, mid, x, ground (arith, x, h))
]

-- What holds of the tables before holds after, if every commit keeps it.
pub transact-keeps :
    {E A : Type 0} (P : Db → Type 0) (body : Tx E A) (db : Db)
    → P db
    → ((a : A) (after : Db) → body db ≡ ok (a, after) → P after)
    → P (transact body db).1
transact-keeps {E} {A} P body db before commits = go (body db) refl
  where
    go : (r : Result E (A × Db)) → body db ≡ r → P (finish db r).1
    go (ok (a, after)) e = commits a after e
    go (err e) h = before
