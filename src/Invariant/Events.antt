-- ===== src/Invariant/Events.antt =====
-- An event id that was stored stays stored, and is stored once.
use payment_recovery_opportu.Base.{◌≡◌, inl, inr, refl, String, some}
use payment_recovery_opportu.Base.Table.{
  find_first, find_first-append_old, find_first-replace_cases,
}
use payment_recovery_opportu.Base.Unique.{IsUnique, IsUnique-append, IsUnique-replace}
use payment_recovery_opportu.Models.{Database, WebhookEvent}
use payment_recovery_opportu.Crud.{has_event_id}
use payment_recovery_opportu.Change.{
  Change, add_event, set_event_status, add_payment, advance_payment, add_decision, move_decision,
  add_audit, add_outreach, IsClosed,
}

abbrev pub HasEvent : String → Database → Type 0
HasEvent event_id db =
    (w : WebhookEvent) × (find_first (has_event_id event_id) db.webhook_events ≡ some w)

Change-HasEvent : (i : String) (db db' : Database) → Change db db' → HasEvent i db → HasEvent i db'
Change-HasEvent i db db' (add_event w free e) (x, hit) =
    rw e (x, find_first-append_old (has_event_id i) db.webhook_events x w hit)
Change-HasEvent i db db' (set_event_status found w status at e) (x, hit) =
    rw e
      (elim (find_first-replace_cases found (has_event_id i)
        (record w { processing_status = status }) db.webhook_events w x at hit refl) [
          | inl stays ↦ (x, stays)
          | inr (now, _) ↦ (_, now)
        ])
Change-HasEvent i db db' (add_payment r free e) v = rw e v
Change-HasEvent i db db' (advance_payment found r r' at same le e) v = rw e v
Change-HasEvent i db db' (add_decision d fresh id e) v = rw e v
Change-HasEvent i db db' (move_decision found d d' at t e) v = rw e v
Change-HasEvent i db db' (add_audit a e) v = rw e v
Change-HasEvent i db db' (add_outreach o e) v = rw e v

pub HasEvent-closed : (i : String) → IsClosed (HasEvent i)
HasEvent-closed i = record { keep = Change-HasEvent i }

abbrev pub event_key : WebhookEvent → String
event_key w = w.event_id

abbrev pub EventsUnique : Database → Type 0
EventsUnique db = IsUnique event_key db.webhook_events

Change-EventsUnique : (db db' : Database) → Change db db' → EventsUnique db → EventsUnique db'
Change-EventsUnique db db' (add_event w free e) v =
    rw e (IsUnique-append event_key db.webhook_events w v free)
Change-EventsUnique db db' (set_event_status found w status at e) v =
    rw e (IsUnique-replace event_key found _ db.webhook_events w v at refl)
Change-EventsUnique db db' (add_payment r free e) v = rw e v
Change-EventsUnique db db' (advance_payment found r r' at same le e) v = rw e v
Change-EventsUnique db db' (add_decision d fresh id e) v = rw e v
Change-EventsUnique db db' (move_decision found d d' at t e) v = rw e v
Change-EventsUnique db db' (add_audit a e) v = rw e v
Change-EventsUnique db db' (add_outreach o e) v = rw e v

pub EventsUnique-closed : IsClosed EventsUnique
EventsUnique-closed = record { keep = Change-EventsUnique }
