-- ===== src/Database/Stock/Lighter.antt =====
-- Parts of a transaction that leave the stock as it is and reserve no more of it.
use flowcart.Prelude.{
  ℕ, ◌≤◌, ◌≡◌, sym, ap, ◌∙◌, inl, inr, Bool, true, false, arith, if◌then◌else◌, ok,
}
use flowcart.Database.{Db, Tx, AuditEvent, transact, transact-keeps, ◌>>=◌, after_first, modify}
use flowcart.Database.Audit.{append_event}
use flowcart.Database.Reads.{Reads}
use flowcart.Database.Stock.{reserved_on}
use flowcart.Database.Stock.Coverage.{IsCovered, Covered-fewer}

module _ (time : ℕ) where
  -- The second tables have the stock of the first, and no more of it reserved at the time.
  abbrev pub Lighter : Db → Db → Type 0
  Lighter db after =
      (after.levels ≡ db.levels)
      × ((p j : ℕ) → reserved_on time p j after.reservations ≤ reserved_on time p j db.reservations)

  abbrev pub IsLight : {E A : Type 0} → Tx E A → Type 0
  IsLight {E} {A} m = (db after : Db) (a : A) → m db ≡ ok (a, after) → Lighter db after

  pub IsLight-bind :
      {E A B : Type 0} (m : Tx E A) (f : A → Tx E B)
      → IsLight m
      → ((a : A) → IsLight (f a))
      → IsLight (m >>= f)
  IsLight-bind m f first next db after b h =
      let (a, mid, made, rest) = after_first m f db h in
      let (levels, fewer) = first db mid a made in
      let (levels', fewer') = next a mid after b rest in
      (levels' ∙ levels, λ p j. omega (arith, fewer p j, fewer' p j))

  pub IsLight-if :
      {E A : Type 0} (c : Bool) (m n : Tx E A)
      → IsLight m
      → IsLight n
      → IsLight (if c then m else n)
  IsLight-if true m n first second = first
  IsLight-if false m n first second = second

  pub Reads-IsLight : {E A : Type 0} (m : Tx E A) → Reads m → IsLight m
  Reads-IsLight m reads db after a h = elim (reads db) [
    | inl (e, r) ↦ absurd (ground (arith, h, r))
    | inr (b, r) ↦
        let same : db ≡ after = ground (arith, h, r) in
        (ap (λ d. d.levels) (sym same), λ p j. rw (sym same) (omega arith))
  ]

  -- A change of other tables.
  pub modify-IsLight :
      {E : Type 0} (f : Db → Db) → ((db : Db) → Lighter db (f db)) → IsLight (modify {E = E} f)
  modify-IsLight f light db after a h =
      let same : f db ≡ after = ground (arith, h) in
      let (levels, fewer) = light db in
      (ap (λ d. d.levels) (sym same) ∙ levels, λ p j. rw (sym same) (fewer p j))

  pub same-Lighter :
      (db after : Db)
      → after.levels ≡ db.levels
      → after.reservations ≡ db.reservations
      → Lighter db after
  same-Lighter db after levels reservations = (levels, λ p j. rw reservations (omega arith))

  pub append_event-IsLight :
      {E : Type 0} (failure : E) (e : AuditEvent) → IsLight (append_event failure e)
  unfolding append_event
  append_event-IsLight failure e db after a h =
      same-Lighter db after (ground (arith, h)) (ground (arith, h))

  -- What is light keeps every level covered, committed or not.
  pub IsLight-IsCovered :
      {E A : Type 0} (m : Tx E A)
      → IsLight m
      → (db : Db) → IsCovered time db
      → IsCovered time (transact m db).1
  IsLight-IsCovered m light db covered = transact-keeps (IsCovered time) m db covered (λ a after h.
      let (levels, fewer) = light db after a h in
      rw levels (Covered-fewer time db.levels db.reservations after.reservations fewer covered))
