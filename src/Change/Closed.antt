-- ===== src/Change/Closed.antt =====
-- The writes of app/crud.py are changes: each keeps what every change keeps.
use payment_recovery_opportu.Base.{ℕ, inl, inr, refl, String, Bool, Option, Option-cases}
use payment_recovery_opportu.Base.Table.{find_first}
use payment_recovery_opportu.Models.{
  Database, WebhookEvent, WebhookProcessingStatus, RecoveryAction,
}
use payment_recovery_opportu.Session.{Session, ◌>>=◌, Error, integrity}
use payment_recovery_opportu.Session.Keeps.{Holds, Keeps, keeps_rules}
use payment_recovery_opportu.Crud.{
  has_event_id, has_event_row, existing_event, insert_event, create_webhook_event,
  update_webhook_status, append_audit_log, create_customer_outreach_event,
}
use payment_recovery_opportu.Change.{
  Change, IsClosed, add_event, set_event_status, add_audit, add_outreach,
}

module _ {P : Database → Type 0} (closed : IsClosed P) where
  -- A write by one change keeps `P` at the session where it is made.
  pub Holds-Change :
      (s : Session) (db' : Database)
      → Change s.current db'
      → Holds P s
      → Holds P (record s { current = db' })
  Holds-Change s db' c h = record {
    in_committed = h.in_committed;
    in_current = closed.keep s.current db' c h.in_current;
  }

  pub append_audit_log-Keeps :
      (event_type kind : String) (id : Option ℕ) → Keeps P (append_audit_log event_type kind id)
  unfolding append_audit_log ◌>>=◌
  append_audit_log-Keeps event_type kind id = record {
    at = λ s h. Holds-Change s _ (add_audit _ refl) h;
  }

  pub create_customer_outreach_event-Keeps :
      (customer : String) (payment decision : ℕ) (kind : RecoveryAction) (channel : String)
      → Keeps P (create_customer_outreach_event customer payment decision kind channel)
  unfolding create_customer_outreach_event ◌>>=◌
  create_customer_outreach_event-Keeps customer payment decision kind channel = record {
    at = λ s h. Holds-Change s _ (add_outreach _ refl) h;
  }

  pub insert_event-Keeps : (w : WebhookEvent) → Keeps P (insert_event w)
  unfolding insert_event ◌>>=◌
  insert_event-Keeps w = record {
    at = λ s h.
        elim (Option-cases (find_first (has_event_id w.event_id) s.current.webhook_events)) [
          | inl free ↦ rw free (Holds-Change s _ (add_event w free refl) h)
          | inr (x, taken) ↦ rw taken h
        ];
  }

  existing_event-Keeps : (event_id : String) (e : Error) → Keeps P (existing_event event_id e)
  existing_event-Keeps event_id integrity = search keeps_rules
  existing_event-Keeps event_id _ = search keeps_rules

  pub create_webhook_event-Keeps :
      (event_id event_type raw_payload : String) (signature_verified : Bool)
      → Keeps P (create_webhook_event event_id event_type raw_payload signature_verified)
  unfolding create_webhook_event
  create_webhook_event-Keeps event_id event_type raw_payload signature_verified =
      search (keeps_rules, insert_event-Keeps, existing_event-Keeps) depth 8

  pub update_webhook_status-Keeps :
      (id : ℕ) (status : WebhookProcessingStatus) → Keeps P (update_webhook_status id status)
  unfolding update_webhook_status ◌>>=◌
  update_webhook_status-Keeps id status = record {
    at = λ s h. elim (Option-cases (find_first (has_event_row id) s.current.webhook_events)) [
      | inl missing ↦ rw (missing, update_webhook_status) h
      | inr (w, e) ↦
          rw (e, update_webhook_status)
            (Holds-Change s _ (set_event_status (has_event_row id) w status e refl) h)
    ];
  }
