-- ===== src/System/Delivery.antt =====
-- A delivery that passes its checks: its event id is stored, and another delivery of the same event
-- is acknowledged and changes nothing.
use payment_recovery_opportu.Base.{
  ◌≡◌, refl, String, true, false, Option, text_eq, text_eq_iff, inl, inr, Option-cases, List, ◌∷◌,
  subst,
}
use payment_recovery_opportu.Base.Table.{find_first, find_first-append_new}
use payment_recovery_opportu.Schemas.{RazorpayWebhookPayload}
use payment_recovery_opportu.Session.{Session, ok, ◌>>=◌, commit, rollback}
use payment_recovery_opportu.Session.Keeps.{Holds}
use payment_recovery_opportu.Crud.{has_event_id, create_webhook_event, append_audit_log}
use payment_recovery_opportu.App.{App}
use payment_recovery_opportu.Invariant.Events.{HasEvent, HasEvent-closed}
use payment_recovery_opportu.Webhooks.{
  Endpoint, payload, is_valid, is_signed, duplicate, receive_parsed, receive_payload,
  receive_razorpay_webhook,
}
use payment_recovery_opportu.Webhooks.Closed.{process_event-Keeps}
use payment_recovery_opportu.Worker.{in_session}
use payment_recovery_opportu.System.{Call, deliver, respond, step, run}
use payment_recovery_opportu.System.History.{run-HasEvent}

-- The checks of steps 1 to 3: the body is signed, and decodes to the payload, whose payment and
-- order validate.
pub record Accepted (e : Endpoint) (raw_body : String) (header : Option String)
    (p : RazorpayWebhookPayload) : Type 0 where
  pub nonempty : text_eq raw_body "" ≡ false
  pub signed : is_signed e raw_body header ≡ true
  pub decoded : e.parse raw_body ≡ payload p
  pub payment_valid : is_valid p.payment ≡ true
  pub order_valid : is_valid p.order ≡ true

module _ (app : App) (raw_body : String) (p : RazorpayWebhookPayload) where
  receive_payload_known :
      (s : Session)
      → HasEvent p.id s.current
      → receive_payload app raw_body p s ≡ (ok (duplicate p.id), record s { committed = s.current })
  unfolding receive_payload create_webhook_event commit ◌>>=◌
  receive_payload_known s (w, e) = rw e refl

  receive_payload_new : (s : Session) → Holds (HasEvent p.id) (receive_payload app raw_body p s).1
  unfolding receive_payload create_webhook_event commit append_audit_log ◌>>=◌
  receive_payload_new s =
      elim (Option-cases (find_first (has_event_id p.id) s.current.webhook_events)) [
        | inl free ↦
            let hit =
              find_first-append_new (has_event_id p.id) s.current.webhook_events _ free
                ((text_eq_iff p.id p.id).1 refl) in
            rw free (
              (process_event-Keeps (HasEvent-closed p.id) app p _).at _
                (record { in_committed = (_, hit); in_current = (_, hit) }))
        | inr (w, e) ↦ rw e (record { in_committed = (w, e); in_current = (w, e) })
      ]

module _ (e : Endpoint) (raw_body : String) (header : Option String) (p : RazorpayWebhookPayload)
    (accepted : Accepted e raw_body header p) where
  pub receive-accepted :
      (s : Session)
      → receive_razorpay_webhook e raw_body header s ≡ receive_payload e.app raw_body p s
  unfolding receive_razorpay_webhook receive_parsed
  receive-accepted s = rw accepted.nonempty (
      rw accepted.signed
        (rw accepted.decoded (rw accepted.payment_valid (rw accepted.order_valid refl))))

  deliver-HasEvent : (s : Session) → Holds (HasEvent p.id) (step e s (deliver raw_body header))
  unfolding step respond in_session rollback ◌>>=◌
  deliver-HasEvent s =
      let h = receive_payload_new e.app raw_body p (record s { current = s.committed }) in
      rw (receive-accepted (record s { current = s.committed }))
        (record { in_committed = h.in_committed; in_current = h.in_committed })

  pub respond-known :
      (s : Session)
      → HasEvent p.id s.committed
      → respond e raw_body header s ≡ (ok (duplicate p.id), record s { current = s.committed })
  unfolding respond in_session rollback ◌>>=◌
  respond-known s h =
      rw (receive-accepted (record s { current = s.committed }))
        (rw (receive_payload_known e.app raw_body p (record s { current = s.committed }) h) refl)

-- A delivery that passes its checks is processed once: after it, whatever it came to and whatever
-- history follows, another delivery of the event is answered as a duplicate and changes nothing.
-- It may be another body under another signature, as long as it passes the checks of the endpoint
-- and has the same event id.
pub redelivery-duplicate :
    (e : Endpoint) (body again : String) (header header_again : Option String)
    (p q : RazorpayWebhookPayload)
    → Accepted e body header p
    → Accepted e again header_again q
    → p.id ≡ q.id
    → (s : Session) (history : List Call)
    → respond e again header_again (run e s (deliver body header ∷ history)) ≡ (
      ok (duplicate q.id),
      (let s' = run e s (deliver body header ∷ history) in record s' { current = s'.committed }),
    )
unfolding run
redelivery-duplicate e body again header header_again p q first second same s history =
    respond-known e again header_again q second _
      (run-HasEvent e history _ q.id (
        subst (λ i. Holds (HasEvent i) (step e s (deliver body header))) same
          (deliver-HasEvent e body header p first s))).in_committed
