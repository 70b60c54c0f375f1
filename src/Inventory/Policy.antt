-- ===== src/Inventory/Policy.antt =====
-- The audit events of the changes of a replenishment policy.
use flowcart.Prelude.{ℕ, ◌≡◌, refl, inl, inr, true, Option, List, [], ◌∷◌, arith, Bool-cases, ℤ, ok}
use flowcart.Database.{Db, Clock, AuditEvent}
use flowcart.Database.Audit.{same_key, insert_event, append_event}
use flowcart.Inventory.Repository.{LevelView}
use flowcart.Inventory.Adjust.{policy_event, update_replenishment_policy}

insert_event_again :
    (e : AuditEvent) (fs : List AuditEvent)
    → same_key e e ≡ true
    → insert_event e (insert_event e fs) ≡ insert_event e fs
unfolding insert_event
insert_event_again e [] self = rw self refl
insert_event_again e (f ∷ fs) self = elim (Bool-cases (same_key e f)) [
  | inl h ↦ rw (h, h) refl
  | inr h ↦ rw (h, h, insert_event_again e fs self) refl
]

policy_recorded :
    (clock : Clock) (o id : ℕ) (reorder_point target : Option ℤ) (db : Db) (view : LevelView)
    (after : Db)
    → update_replenishment_policy clock o id reorder_point target db ≡ ok (view, after)
    → after.audit_events ≡ insert_event (policy_event o id) db.audit_events
unfolding update_replenishment_policy append_event
policy_recorded clock o id reorder_point target db view after h = ground (arith, h)

same_policy_event : (o id : ℕ) → same_key (policy_event o id) (policy_event o id) ≡ true
unfolding same_key
same_policy_event o id = ground arith

-- Only the first change of the replenishment policy of a level reaches the audit log: after one
-- that committed, any other that commits leaves the log as it is.
pub policy_recorded_once :
    (clock late : Clock) (o id : ℕ) (reorder_point target reorder_point' target' : Option ℤ)
    (db : Db) (view view' : LevelView) (after after' : Db)
    → update_replenishment_policy clock o id reorder_point target db ≡ ok (view, after)
    → update_replenishment_policy late o id reorder_point' target' after ≡ ok (view', after')
    → after'.audit_events ≡ after.audit_events
policy_recorded_once clock late o id r t r' t' db view view' after after' h k =
    let first_time = policy_recorded clock o id r t db view after h in
    let again = policy_recorded late o id r' t' after view' after' k in
    rw (again, first_time)
      (insert_event_again (policy_event o id) db.audit_events (same_policy_event o id))
