-- ===== src/Database/Audit.antt =====
-- `Writer.AppendEvent` of apps/api/internal/audit/audit.go. The metadata of an event is left out.
use text.Mathlib.Text.{◌==◌ as text_eq}
use flowcart.Prelude.{
  ℕ, Bool, true, false, not, ◌&&◌, ◌||◌, Option, none, some, List, [], ◌∷◌, Result, ok, err, ◌==◌,
  if◌then◌else◌,
}
use flowcart.Database.Tables.{Db, AuditEvent}

-- The key `(organization_id,source_type,source_id,event_type)` of two events is the same.
unfoldable pub same_key : AuditEvent → AuditEvent → Bool
same_key a b =
    a.organization_id == b.organization_id
    && text_eq a.source_type b.source_type
    && a.source_id == b.source_id
    && text_eq a.event_type b.event_type

-- `ON CONFLICT … DO NOTHING`
unfoldable pub insert_event : AuditEvent → List AuditEvent → List AuditEvent
unfolding same_key
insert_event e [] = e ∷ []
insert_event e (f ∷ fs) = if same_key e f then f ∷ fs else f ∷ insert_event e fs

abbrev pub has_actor : Option ℕ → Bool
has_actor none = false
has_actor (some id) = not (id == 0)

-- the checks before the statement
unfoldable pub rejects_event : AuditEvent → Bool
rejects_event e =
    (text_eq e.actor_type "user" && not (has_actor e.actor_user_id))
    || (not (text_eq e.actor_type "user") && has_actor e.actor_user_id)
    || text_eq e.event_type ""
    || text_eq e.resource_type ""
    || e.resource_id == 0
    || text_eq e.source_type ""
    || e.source_id == 0
    || text_eq e.actor_type ""

-- `AppendEvent`; the caller wraps its error
unfoldable pub append_event : {E : Type 0} → E → AuditEvent → Db → Result E (Unit {0} × Db)
unfolding insert_event rejects_event
append_event failure e db = elim (rejects_event e) [
  | true ↦ err failure
  | false ↦ ok (tt, record db { audit_events = insert_event e db.audit_events })
]
