-- ===== src/Processor/Closed.antt =====
-- The handlers make only changes that the specification knows.
use payment_recovery_opportu.Base.{ℕ, String, none, some}
use payment_recovery_opportu.Models.{Database, RecoveryDecision}
use payment_recovery_opportu.Schemas.{
  RazorpayPaymentLinkEntity, RazorpayWebhookPayload, Extracted, absent, invalid, entity,
}
use payment_recovery_opportu.Session.{Error}
use payment_recovery_opportu.Session.Keeps.{Keeps, Keeps-pure, Keeps-raise, Keeps-if, keeps_rules}
use payment_recovery_opportu.Change.{IsClosed}
use payment_recovery_opportu.Change.Closed.{append_audit_log-Keeps, update_webhook_status-Keeps}
use payment_recovery_opportu.Change.PaymentClosed.{
  upsert_payment_record_from_captured-Keeps, upsert_payment_record_from_order_paid-Keeps,
}
use payment_recovery_opportu.Change.DecisionClosed.{update_recovery_decision_outcome-Keeps}
use payment_recovery_opportu.App.{App}
use payment_recovery_opportu.Processor.FailedClosed.{handle_failed_payment-Keeps}
use payment_recovery_opportu.Processor.{
  extract, handle_payment_failed, handle_payment_captured, handle_order_paid, observe_outcome,
  observe_reference, observe_link, handle_payment_link_paid, dispatch, process, persist_failure,
  on_processing_error, process_webhook_event,
}

module _ {P : Database → Type 0} (closed : IsClosed P) where
  extract-Keeps : {A : Type 0} (e : Extracted A) → Keeps P (extract e)
  unfolding extract
  extract-Keeps absent = Keeps-pure none
  extract-Keeps invalid = Keeps-raise _
  extract-Keeps (entity a) = Keeps-pure (some a)

  handle_payment_failed-Keeps :
      (app : App) (event : ℕ) (payload : RazorpayWebhookPayload)
      → Keeps P (handle_payment_failed app event payload)
  unfolding handle_payment_failed
  handle_payment_failed-Keeps app event payload = search (
    keeps_rules,
    extract-Keeps,
    append_audit_log-Keeps closed,
    handle_failed_payment-Keeps closed,
  )

  handle_payment_captured-Keeps :
      (event : ℕ) (payload : RazorpayWebhookPayload)
      → Keeps P (handle_payment_captured event payload)
  unfolding handle_payment_captured
  handle_payment_captured-Keeps event payload = search (
    keeps_rules,
    extract-Keeps,
    append_audit_log-Keeps closed,
    upsert_payment_record_from_captured-Keeps closed,
  )

  handle_order_paid-Keeps :
      (event : ℕ) (payload : RazorpayWebhookPayload) → Keeps P (handle_order_paid event payload)
  unfolding handle_order_paid
  handle_order_paid-Keeps event payload =
      search
        (
          keeps_rules,
          extract-Keeps,
          append_audit_log-Keeps closed,
          upsert_payment_record_from_order_paid-Keeps closed,
        )
        depth 7

  observe_outcome-Keeps : (ref : String) (d : RecoveryDecision) → Keeps P (observe_outcome ref d)
  unfolding observe_outcome
  observe_outcome-Keeps ref d =
      search
        (keeps_rules, update_recovery_decision_outcome-Keeps closed, append_audit_log-Keeps closed)

  observe_reference-Keeps : (ref : String) → Keeps P (observe_reference ref)
  unfolding observe_reference
  observe_reference-Keeps ref =
      search (keeps_rules, append_audit_log-Keeps closed, observe_outcome-Keeps)

  observe_link-Keeps : (link : RazorpayPaymentLinkEntity) → Keeps P (observe_link link)
  unfolding observe_link
  observe_link-Keeps link =
      search (keeps_rules, append_audit_log-Keeps closed, observe_reference-Keeps)

  handle_payment_link_paid-Keeps :
      (payload : RazorpayWebhookPayload) → Keeps P (handle_payment_link_paid payload)
  unfolding handle_payment_link_paid
  handle_payment_link_paid-Keeps payload =
      search (keeps_rules, extract-Keeps, append_audit_log-Keeps closed, observe_link-Keeps)

  dispatch-Keeps :
      (app : App) (event : ℕ) (payload : RazorpayWebhookPayload)
      → Keeps P (dispatch app event payload)
  unfolding dispatch
  dispatch-Keeps app event payload =
      Keeps-if _ _ _ (handle_payment_failed-Keeps app event payload) (
        Keeps-if _ _ _ (handle_payment_captured-Keeps event payload) (
          Keeps-if _ _ _ (handle_order_paid-Keeps event payload) (
            Keeps-if _ _ _ (handle_payment_link_paid-Keeps payload)
              (append_audit_log-Keeps closed _ _ _))))

  persist_failure-Keeps : (event : ℕ) → Keeps P (persist_failure event)
  unfolding persist_failure
  persist_failure-Keeps event =
      search (keeps_rules, update_webhook_status-Keeps closed, append_audit_log-Keeps closed)

  process-Keeps :
      (app : App) (event : ℕ) (payload : RazorpayWebhookPayload)
      → Keeps P (process app event payload)
  unfolding process
  process-Keeps app event payload =
      search (keeps_rules, update_webhook_status-Keeps closed, dispatch-Keeps)

  on_processing_error-Keeps : (event : ℕ) (e : Error) → Keeps P (on_processing_error event e)
  unfolding on_processing_error
  on_processing_error-Keeps event e = search (keeps_rules, persist_failure-Keeps) depth 7

  pub process_webhook_event-Keeps :
      (app : App) (event : ℕ) (payload : RazorpayWebhookPayload)
      → Keeps P (process_webhook_event app event payload)
  unfolding process_webhook_event
  process_webhook_event-Keeps app event payload =
      search (keeps_rules, process-Keeps, on_processing_error-Keeps)
