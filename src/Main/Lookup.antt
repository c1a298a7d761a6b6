-- ===== src/Main/Lookup.antt =====
-- The lookup of an event that was delivered.
use payment_recovery_opportu.Base.{
  ◌≡◌, refl, ℕ, String, true, Option, none, some, List, ◌∷◌, text_eq_iff,
}
use payment_recovery_opportu.Base.Table.{find_first, find_first-append_new, find_first-holds}
use payment_recovery_opportu.Schemas.{RazorpayWebhookPayload}
use payment_recovery_opportu.Session.{Session, ok, ◌>>=◌, commit, rollback}
use payment_recovery_opportu.Session.Keeps.{Holds}
use payment_recovery_opportu.Crud.{has_event_id, create_webhook_event, append_audit_log}
use payment_recovery_opportu.App.{App}
use payment_recovery_opportu.Invariant.Recorded.{IsRecord, IsRecorded, IsRecorded-closed}
use payment_recovery_opportu.Worker.{in_session}
use payment_recovery_opportu.Webhooks.{Endpoint, receive_payload}
use payment_recovery_opportu.Webhooks.Closed.{process_event-Keeps}
use payment_recovery_opportu.System.{Call, deliver, step, respond, run}
use payment_recovery_opportu.System.History.{run-Holds}
use payment_recovery_opportu.System.Delivery.{Accepted, receive-accepted}
use payment_recovery_opportu.Main.{EventDetail, detail_of, get_event}

receive_payload-IsRecorded :
    (app : App) (raw_body : String) (p : RazorpayWebhookPayload) (s : Session)
    → find_first (has_event_id p.id) s.current.webhook_events ≡ none
    → Holds (IsRecorded p.id p.event s.now true) (receive_payload app raw_body p s).1
unfolding receive_payload create_webhook_event commit append_audit_log ◌>>=◌
receive_payload-IsRecorded app raw_body p s free =
    let hit =
      find_first-append_new (has_event_id p.id) s.current.webhook_events _ free
        ((text_eq_iff p.id p.id).1 refl) in
    let is_record : IsRecord p.event s.now true _ = record {
      same_type = refl;
      same_time = refl;
      same_verified = refl;
    } in
    rw free (
      (process_event-Keeps (IsRecorded-closed p.id p.event s.now true) app p _).at _
        (record { in_committed = (_, hit, is_record); in_current = (_, hit, is_record) }))

-- What the look-up says of an event: its id, its type, the time it came in at, and that it was
-- signed.
pub record IsAnswer (p : RazorpayWebhookPayload) (now : ℕ) (d : EventDetail) : Type 0 where
  pub same_id : d.event_id ≡ p.id
  pub same_type : d.event_type ≡ p.event
  pub same_time : d.received_at ≡ now
  pub same_verified : d.signature_verified ≡ true

module _ (p : RazorpayWebhookPayload) where
  get_event-IsAnswer :
      (now : ℕ) (s : Session)
      → IsRecorded p.id p.event now true s.committed
      → (d : EventDetail) × ((in_session (get_event p.id) s).0 ≡ ok (some d)) × IsAnswer p now d
  unfolding get_event in_session rollback ◌>>=◌
  get_event-IsAnswer now s (w, hit, r) = (
    detail_of w,
    rw hit refl,
    record {
      same_id =
          (text_eq_iff w.event_id p.id).0
            (find_first-holds (has_event_id p.id) s.committed.webhook_events w hit);
      same_type = r.same_type;
      same_time = r.same_time;
      same_verified = r.same_verified;
    },
  )

  deliver-IsRecorded :
      (e : Endpoint) (raw_body : String) (header : Option String)
      → Accepted e raw_body header p
      → (s : Session) → find_first (has_event_id p.id) s.committed.webhook_events ≡ none
      → Holds (IsRecorded p.id p.event s.now true) (step e s (deliver raw_body header))
  unfolding step respond in_session rollback ◌>>=◌
  deliver-IsRecorded e raw_body header accepted s free =
      let h =
        receive_payload-IsRecorded e.app raw_body p (record s { current = s.committed }) free in
      rw (receive-accepted e raw_body header p accepted (record s { current = s.committed }))
        (record { in_committed = h.in_committed; in_current = h.in_committed })

-- An event that was not known and whose delivery passes its checks is found by GET
-- /events/{event_id}, after whatever history follows: with its id, its type, the time it came in
-- at, and as one whose signature was verified.
pub deliver-get_event :
    (e : Endpoint) (raw_body : String) (header : Option String) (p : RazorpayWebhookPayload)
    → Accepted e raw_body header p
    → (s : Session) → find_first (has_event_id p.id) s.committed.webhook_events ≡ none
    → (history : List Call)
    → (d : EventDetail) × ((in_session
          (get_event p.id)
          (run e s (deliver raw_body header ∷ history))).0
        ≡ ok (some d))
      × IsAnswer p s.now d
unfolding run
deliver-get_event e raw_body header p accepted s free history =
    get_event-IsAnswer p s.now (run e (step e s (deliver raw_body header)) history)
      (run-Holds (IsRecorded-closed p.id p.event s.now true) e history _
        (deliver-IsRecorded p e raw_body header accepted s free)).in_committed
