-- ===== src/Crud/Events.antt =====
-- Webhook events: insertion under the UNIQUE constraint on `event_id`, and the status.
use payment_recovery_opportu.Base.{
  ℕ, suc, String, Bool, true, false, Option, some, text_eq, ◌==◌, if◌then◌else◌,
}
use payment_recovery_opportu.Base.Table.{length, append, find_first, replace}
use payment_recovery_opportu.Models.{
  WebhookEvent, WebhookProcessingStatus, received, signature_invalid, Database,
}
use payment_recovery_opportu.Session.{
  M, Done, Error, integrity, pure, raise, or_raise, if_none, ◌>>=◌, ◌>>◌, try_except, update, clock,
  database, other,
}

abbrev pub has_event_id : String → WebhookEvent → Bool
has_event_id e w = text_eq w.event_id e

abbrev pub with_event : WebhookEvent → Database → Database
with_event w db = record db { webhook_events = append db.webhook_events w }

-- `db.add(event); db.flush()` within a savepoint: a taken `event_id` raises, and writes nothing.
unfoldable pub insert_event : WebhookEvent → M Done
insert_event w = do
  db ← database
  if_none (find_first (has_event_id w.event_id) db.webhook_events) (update (with_event w))
      (λ _. raise integrity)

-- `except IntegrityError`: the row that owns the event id.
abbrev pub existing_event : String → Error → M (Option WebhookEvent × Bool)
existing_event event_id integrity = do
  db ← database
  pure (find_first (has_event_id event_id) db.webhook_events, true)
existing_event event_id e = raise e

unfoldable pub create_webhook_event :
    String → String → String → Bool → M (Option WebhookEvent × Bool)
unfolding insert_event
create_webhook_event event_id event_type raw_payload signature_verified = do
  db ← database
  t ← clock
  let event : WebhookEvent = record {
    id = suc (length db.webhook_events);
    event_id = event_id;
    event_type = event_type;
    received_at = t;
    signature_verified = signature_verified;
    raw_payload = raw_payload;
    processing_status = if signature_verified then received else signature_invalid;
  }
  try_except (insert_event event >> pure (some event, false)) (existing_event event_id)

abbrev pub has_event_row : ℕ → WebhookEvent → Bool
has_event_row id w = w.id == id

unfoldable pub update_webhook_status : ℕ → WebhookProcessingStatus → M Done
update_webhook_status id status = do
  db ← database
  w ← or_raise (find_first (has_event_row id) db.webhook_events) (other "ObjectDeletedError")
  update λ d. record d {
    webhook_events =
        replace (has_event_row id) (record w { processing_status = status }) d.webhook_events;
  }
