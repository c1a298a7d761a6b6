-- ===== src/Crud/Trail.antt =====
-- The audit trail and the outreach events: rows that are only ever appended.
use payment_recovery_opportu.Base.{
  ℕ, suc, String, Bool, ◌&&◌, Option, none, some, List, [], ◌∷◌, text_eq, ltb, leb, if◌then◌else◌,
}
use payment_recovery_opportu.Base.Table.{length, append}
use payment_recovery_opportu.Models.{AuditLog, CustomerOutreachEvent, RecoveryAction, Database}
use payment_recovery_opportu.Session.{M, Done, pure, ◌>>=◌, update, clock, database}

abbrev pub with_audit : AuditLog → Database → Database
with_audit a db = record db { audit_logs = append db.audit_logs a }

unfoldable pub append_audit_log : String → String → Option ℕ → M Done
append_audit_log event_type action payment_record_id = do
  db ← database
  t ← clock
  let log : AuditLog = record {
    id = suc (length db.audit_logs);
    payment_record_id = payment_record_id;
    event_type = event_type;
    action = action;
    created_at = t;
  }
  update (with_audit log)

abbrev pub with_outreach : CustomerOutreachEvent → Database → Database
with_outreach o db = record db { outreach_events = append db.outreach_events o }

unfoldable pub create_customer_outreach_event : String → ℕ → ℕ → RecoveryAction → String → M Done
create_customer_outreach_event customer payment_record_id recovery_decision_id action channel = do
  db ← database
  t ← clock
  let event : CustomerOutreachEvent = record {
    id = suc (length db.outreach_events);
    customer_identifier = customer;
    payment_record_id = payment_record_id;
    recovery_decision_id = recovery_decision_id;
    action = action;
    channel = channel;
    outreach_at = t;
  }
  update (with_outreach event)

-- The conditions of the query: this customer, at or after `since`.
abbrev pub is_recent : String → ℕ → CustomerOutreachEvent → Bool
is_recent customer since o = text_eq o.customer_identifier customer && leb since o.outreach_at

-- `order_by(outreach_at.desc()).first()`: the later of two, and of two at one time the first row.
abbrev later_of : CustomerOutreachEvent → Option CustomerOutreachEvent → CustomerOutreachEvent
later_of o none = o
later_of o (some p) = if ltb o.outreach_at p.outreach_at then p else o

unfoldable pub latest_recent :
    String → ℕ → List CustomerOutreachEvent → Option CustomerOutreachEvent
latest_recent customer since [] = none
latest_recent customer since (o ∷ os) =
    let rest = latest_recent customer since os in
    if is_recent customer since o then some (later_of o rest) else rest

unfoldable pub get_recent_outreach_for_customer : String → ℕ → M (Option CustomerOutreachEvent)
unfolding latest_recent
get_recent_outreach_for_customer customer since = do
  db ← database
  pure (latest_recent customer since db.outreach_events)
