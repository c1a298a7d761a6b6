-- ===== src/Invariant/Recorded.antt =====
-- What was recorded of an event when it came in stays as it is: its type, the time, and whether its
-- signature was verified.
use payment_recovery_opportu.Base.{◌≡◌, ◌∙◌, ℕ, String, Bool, some, inl, inr, ap, refl, sym}
use payment_recovery_opportu.Base.Table.{
  find_first, find_first-append_old, find_first-replace_cases,
}
use payment_recovery_opportu.Models.{Database, WebhookEvent}
use payment_recovery_opportu.Crud.{has_event_id}
use payment_recovery_opportu.Change.{
  Change, add_event, set_event_status, add_payment, advance_payment, add_decision, move_decision,
  add_audit, add_outreach, IsClosed,
}

-- The columns that no write changes.
pub record IsRecord (event_type : String) (received_at : ℕ) (verified : Bool) (w : WebhookEvent)
    : Type 0 where
  pub same_type : w.event_type ≡ event_type
  pub same_time : w.received_at ≡ received_at
  pub same_verified : w.signature_verified ≡ verified

module _ (event_id event_type : String) (received_at : ℕ) (verified : Bool) where
  abbrev pub IsRecorded : Database → Type 0
  IsRecorded db =
      (w : WebhookEvent) × (find_first (has_event_id event_id) db.webhook_events ≡ some w)
      × IsRecord event_type received_at verified w

  Change-IsRecorded : (db db' : Database) → Change db db' → IsRecorded db → IsRecorded db'
  Change-IsRecorded db db' (add_event w free e) (x, hit, r) =
      rw e (x, find_first-append_old (has_event_id event_id) db.webhook_events x w hit, r)
  Change-IsRecorded db db' (set_event_status found w status at e) (x, hit, r) =
      rw e
        (elim (find_first-replace_cases found (has_event_id event_id)
          (record w { processing_status = status }) db.webhook_events w x at hit refl) [
            | inl stays ↦ (x, stays, r)
            | inr (now, same) ↦ (
              _,
              now,
              record {
                same_type = ap (λ y. y.event_type) (sym same) ∙ r.same_type;
                same_time = ap (λ y. y.received_at) (sym same) ∙ r.same_time;
                same_verified = ap (λ y. y.signature_verified) (sym same) ∙ r.same_verified;
              },
            )
          ])
  Change-IsRecorded db db' (add_payment r free e) v = rw e v
  Change-IsRecorded db db' (advance_payment found r r' at same le e) v = rw e v
  Change-IsRecorded db db' (add_decision d fresh id e) v = rw e v
  Change-IsRecorded db db' (move_decision found d d' at t e) v = rw e v
  Change-IsRecorded db db' (add_audit a e) v = rw e v
  Change-IsRecorded db db' (add_outreach o e) v = rw e v

  pub IsRecorded-closed : IsClosed IsRecorded
  IsRecorded-closed = record { keep = Change-IsRecorded }
