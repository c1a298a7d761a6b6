-- ===== src/Webhooks/Closed.antt =====
-- The endpoint makes only changes that the specification knows.
use payment_recovery_opportu.Base.{String, ℕ, Bool, true, false, Option, none, some}
use payment_recovery_opportu.Models.{Database, WebhookEvent}
use payment_recovery_opportu.Schemas.{RazorpayWebhookPayload}
use payment_recovery_opportu.Session.Keeps.{
  Keeps, Keeps-bind, Keeps-pure, Keeps-raise, Keeps-if, keeps_rules,
}
use payment_recovery_opportu.Change.{IsClosed}
use payment_recovery_opportu.Change.Closed.{append_audit_log-Keeps, create_webhook_event-Keeps}
use payment_recovery_opportu.App.{App}
use payment_recovery_opportu.Processor.Closed.{process_webhook_event-Keeps}
use payment_recovery_opportu.Webhooks.{
  Endpoint, Parsed, undecodable, invalid_json, invalid_schema, payload, persist_rejected_webhook,
  id_of, process_event, receive_new, receive_stored, receive_parsed, receive_razorpay_webhook,
}

module _ {P : Database → Type 0} (closed : IsClosed P) where
  persist_rejected_webhook-Keeps :
      (e : Endpoint) (raw_body : String) → Keeps P (persist_rejected_webhook e raw_body)
  unfolding persist_rejected_webhook
  persist_rejected_webhook-Keeps e raw_body =
      search (keeps_rules, create_webhook_event-Keeps closed, append_audit_log-Keeps closed) depth 8

  id_of-Keeps : (w : Option WebhookEvent) → Keeps P (id_of w)
  id_of-Keeps none = Keeps-raise _
  id_of-Keeps (some w) = Keeps-pure w.id

  pub process_event-Keeps :
      (app : App) (p : RazorpayWebhookPayload) (event : ℕ) → Keeps P (process_event app p event)
  unfolding process_event
  process_event-Keeps app p event = search (keeps_rules, process_webhook_event-Keeps closed) depth 8

  pub receive_new-Keeps :
      (app : App) (p : RazorpayWebhookPayload) (w : Option WebhookEvent)
      → Keeps P (receive_new app p w)
  unfolding receive_new
  receive_new-Keeps app p w =
      search (keeps_rules, append_audit_log-Keeps closed, id_of-Keeps, process_event-Keeps) depth 8

  receive_stored-Keeps :
      (app : App) (p : RazorpayWebhookPayload) (stored : Option WebhookEvent × Bool)
      → Keeps P (receive_stored app p stored)
  unfolding receive_stored
  receive_stored-Keeps app p (w, true) = search keeps_rules
  receive_stored-Keeps app p (w, false) = receive_new-Keeps app p w

  receive_parsed-Keeps :
      (app : App) (raw_body : String) (parsed : Parsed)
      → Keeps P (receive_parsed app raw_body parsed)
  unfolding receive_parsed
  receive_parsed-Keeps app raw_body undecodable = Keeps-raise _
  receive_parsed-Keeps app raw_body invalid_json = Keeps-pure _
  receive_parsed-Keeps app raw_body invalid_schema = Keeps-pure _
  receive_parsed-Keeps app raw_body (payload p) =
      search (keeps_rules, create_webhook_event-Keeps closed, receive_stored-Keeps) depth 8

  pub receive_razorpay_webhook-Keeps :
      (e : Endpoint) (raw_body : String) (header : Option String)
      → Keeps P (receive_razorpay_webhook e raw_body header)
  unfolding receive_razorpay_webhook
  receive_razorpay_webhook-Keeps e raw_body header = Keeps-if _ _ _ (Keeps-pure _) (
      Keeps-if _ _ _ (receive_parsed-Keeps e.app raw_body (e.parse raw_body))
        (Keeps-bind _ _ (persist_rejected_webhook-Keeps e raw_body) (λ _. Keeps-pure _)))
