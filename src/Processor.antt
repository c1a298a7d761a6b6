-- ===== src/Processor.antt =====
-- app/event_processor.py: the handler of each event type, and the transaction around it. The
-- latency histogram of the prediction is left out.
pub mod Closed
pub mod FailedClosed
pub mod Paid
pub mod PaymentFailed
use payment_recovery_opportu.Base.{
  String, Option, none, some, List, [], ◌∷◌, ℕ, text_eq, if◌then◌else◌,
}
use payment_recovery_opportu.Base.Table.{find_first}
use payment_recovery_opportu.Base.Text.{truthy}
use payment_recovery_opportu.Models.{WebhookProcessingStatus, RecoveryDecision, PaymentRecord}
use payment_recovery_opportu.Schemas.{
  RazorpayPaymentEntity, RazorpayOrderEntity, RazorpayPaymentLinkEntity, RazorpayWebhookPayload,
  Extracted, absent, invalid, entity,
}
use payment_recovery_opportu.Session.{
  M, Done, Error, other, webhooks_received, outcomes_observed, pure, raise, ◌>>=◌, ◌>>◌, try_except,
  if_none, inc, commit, rollback, database,
}
use payment_recovery_opportu.Crud.{
  append_audit_log, update_webhook_status, upsert_payment_record_from_captured,
  upsert_payment_record_from_order_paid, has_reference, update_recovery_decision_outcome,
}
use payment_recovery_opportu.App.{App}
use PaymentFailed.{handle_failed_payment, created_or_updated}

-- An `extract_..._entity` call that may raise pydantic's ValidationError.
unfoldable pub extract : {A : Type 0} → Extracted A → M (Option A)
extract absent = pure none
extract invalid = raise (other "ValidationError")
extract (entity a) = pure (some a)

unfoldable pub handle_payment_failed : App → ℕ → RazorpayWebhookPayload → M Done
unfolding extract
handle_payment_failed app event payload = extract payload.payment >>= λ payment.
    if_none payment (append_audit_log "PAYMENT_FAILED" "SKIP_MISSING_PAYMENT_ENTITY" none)
      (handle_failed_payment app event)

unfoldable pub handle_payment_captured : ℕ → RazorpayWebhookPayload → M Done
unfolding extract
handle_payment_captured event payload = extract payload.payment >>= λ payment.
    if_none payment (append_audit_log "PAYMENT_CAPTURED" "SKIP_MISSING_PAYMENT_ENTITY" none) λ p. do
      (r, created) ← upsert_payment_record_from_captured event p
      append_audit_log "PAYMENT_CAPTURED" (created_or_updated created) (some r.id)

abbrev order_id_of : Option RazorpayOrderEntity → Option String
order_id_of none = none
order_id_of (some o) = some o.id

unfoldable pub handle_order_paid : ℕ → RazorpayWebhookPayload → M Done
unfolding extract
handle_order_paid event payload = do
  payment ← extract payload.payment
  order ← extract payload.order
  found ← upsert_payment_record_from_order_paid event payment (order_id_of order)
  if_none found (append_audit_log "ORDER_PAID" "SKIP_UNMATCHED" none)
      λ r. append_audit_log "ORDER_PAID" "UPDATE_PAYMENT_RECORD" (some r.id)

unfoldable pub handle_unknown_event : M Done
handle_unknown_event = append_audit_log "UNSUPPORTED_EVENT" "SKIP_UNSUPPORTED" none

-- `notes.get(key)`
unfoldable pub note : String → List (String × String) → Option String
note key [] = none
note key ((k, v) ∷ notes) = if text_eq k key then some v else note key notes

-- The decision that a reference belongs to is closed.
unfoldable pub observe_outcome : String → RecoveryDecision → M Done
observe_outcome ref d = do
  update_recovery_decision_outcome (has_reference ref)
  inc (outcomes_observed d.experiment_variant)
  append_audit_log "PAYMENT_LINK_PAID" "OUTCOME_OBSERVED" (some d.payment_record_id)

unfoldable pub observe_reference : String → M Done
unfolding observe_outcome
observe_reference ref = do
  db ← database
  if_none (find_first (has_reference ref) db.recovery_decisions)
      (append_audit_log "PAYMENT_LINK_PAID" "SKIP_UNMATCHED_REFERENCE" none) (observe_outcome ref)

-- A payment link must name its reference: a missing or empty one is not guessed.
unfoldable pub observe_link : RazorpayPaymentLinkEntity → M Done
unfolding observe_reference note
observe_link link =
    let ref = note "execution_reference_id" link.notes in
    if truthy ref
    then if_none ref (pure tt) observe_reference
    else append_audit_log "PAYMENT_LINK_PAID" "SKIP_MISSING_REFERENCE" none

unfoldable pub handle_payment_link_paid : RazorpayWebhookPayload → M Done
unfolding extract observe_link
handle_payment_link_paid payload = extract payload.payment_link >>= λ link.
    if_none link (append_audit_log "PAYMENT_LINK_PAID" "SKIP_MISSING_ENTITY" none) observe_link

unfoldable pub dispatch : App → ℕ → RazorpayWebhookPayload → M Done
unfolding handle_payment_failed handle_payment_captured handle_order_paid handle_payment_link_paid
    handle_unknown_event
dispatch app event payload =
    if text_eq payload.event "payment.failed"
    then handle_payment_failed app event payload
    else if text_eq payload.event "payment.captured"
    then handle_payment_captured event payload
    else if text_eq payload.event "order.paid"
    then handle_order_paid event payload
    else if text_eq payload.event "payment_link.paid"
    then handle_payment_link_paid payload
    else handle_unknown_event

-- The `try` block.
unfoldable pub process : App → ℕ → RazorpayWebhookPayload → M Done
unfolding dispatch
process app event payload = do
  update_webhook_status event WebhookProcessingStatus.processing
  dispatch app event payload
  update_webhook_status event WebhookProcessingStatus.processed

-- What the failure of an event leaves behind: its status and an audit row.
unfoldable pub persist_failure : ℕ → M Done
persist_failure event = do
  update_webhook_status event WebhookProcessingStatus.failed
  append_audit_log "PROCESSING_ERROR" "UNHANDLED_EXCEPTION" none
  commit

-- `except Exception`: the attempt is rolled back, its failure is committed, and it is raised again.
unfoldable pub on_processing_error : ℕ → Error → M Done
unfolding persist_failure
on_processing_error event e = do
  rollback
  try_except (persist_failure event) (λ _. rollback)
  raise e

unfoldable pub process_webhook_event : App → ℕ → RazorpayWebhookPayload → M Done
unfolding process on_processing_error
process_webhook_event app event payload = do
  inc (webhooks_received payload.event)
  try_except (process app event payload) (on_processing_error event)
