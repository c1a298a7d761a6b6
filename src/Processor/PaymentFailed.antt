-- ===== src/Processor/PaymentFailed.antt =====
-- The handler of payment.failed, once the payment entity is extracted: the record, the features, the
-- variant, the prediction, the guardrails, the decision, and its execution.
use payment_recovery_opportu.Base.{
  ℕ, String, Bool, true, false, not, Option, none, some, if◌then◌else◌,
}
use payment_recovery_opportu.Base.Text.{or_else, truthy}
use payment_recovery_opportu.Models.{
  PaymentRecord, RecoveryAction, DecisionStatus, Variant, control, treatment, is_no_action,
}
use payment_recovery_opportu.Schemas.{RazorpayPaymentEntity}
use payment_recovery_opportu.Session.{
  M, Done, Result, ok, err, other, GuardrailRule, cooldown, duplicate, model_fallback,
  guardrail_overrides, decisions, pure, raise, or_raise, ◌>>=◌, ◌>>◌, when, if_none, inc, commit,
  clock, database,
}
use payment_recovery_opportu.Crud.{
  Reasoning, text, control_group, model_unavailable, duplicate_prevented, cooldown_active,
  PolicyPrediction, upsert_payment_record_from_failed, append_audit_log, create_recovery_decision,
  claim_decision_for_execution, get_decision,
}
use payment_recovery_opportu.Features.{PaymentFeatures, extract_features, customer_identifier_of}
use payment_recovery_opportu.App.{App}
use payment_recovery_opportu.Experiment.{experiment_engine, assign_variant}
use payment_recovery_opportu.Guardrails.{evaluate}
use payment_recovery_opportu.Execution.{execute_recovery_decision}

abbrev pub created_or_updated : Bool → String
created_or_updated true = "CREATE_PAYMENT_RECORD"
created_or_updated false = "UPDATE_PAYMENT_RECORD"

abbrev text_of : Option String → String → String
text_of none t = t
text_of (some u) t = u

-- `email or contact or razorpay_payment_id`, the email in lower case.
unfoldable pub assignment_id : (String → String) → PaymentRecord → String
assignment_id lower r =
    let id =
      text_of (or_else (customer_identifier_of r) (some r.razorpay_payment_id))
        r.razorpay_payment_id in
    if truthy r.customer_email then lower id else id

unfoldable pub variant_of : App → PaymentRecord → Variant
unfolding assignment_id
variant_of app r =
    assign_variant app.sha256_int (experiment_engine app.experiment_name app.control_percentage)
      (assignment_id app.lower r)

unfoldable pub control_prediction : PolicyPrediction
control_prediction = record {
  decision_status = DecisionStatus.decided;
  selected_action = RecoveryAction.no_action;
  model_version = "control_baseline";
  reasoning = control_group;
  predicted_p0 = none;
  predicted_p1 = none;
  predicted_uplift = none;
  expected_incremental_net_paise = none;
}

abbrev pub lift : {A : Type 0} → Result A → M A
lift (ok a) = pure a
lift (err e) = raise e

-- The control group is never sent through the model.
unfoldable pub predict_for : App → Variant → PaymentFeatures → M (Option PolicyPrediction)
unfolding control_prediction
predict_for app control features = pure (some control_prediction)
predict_for app treatment features = lift (app.predictor.predict features)

abbrev same_action : RecoveryAction → RecoveryAction → Bool
same_action RecoveryAction.no_action RecoveryAction.no_action = true
same_action RecoveryAction.send_payment_link RecoveryAction.send_payment_link = true
same_action RecoveryAction.send_payment_link_with_discount
      RecoveryAction.send_payment_link_with_discount =
    true
same_action _ _ = false

-- Which rule fired, by the words "cooldown", "duplicate", "unavailable" in the reasoning. The text
-- of a predictor stands there only if no rule fired.
abbrev fired_rule : Reasoning → Option GuardrailRule
fired_rule (cooldown_active _ _) = some cooldown
fired_rule (duplicate_prevented _) = some duplicate
fired_rule model_unavailable = some model_fallback
fired_rule (text _) = none
fired_rule control_group = none

unfoldable pub track_override : RecoveryAction → PolicyPrediction → M Done
track_override original safe =
    when (not (same_action safe.selected_action original))
      (if_none (fired_rule safe.reasoning) (pure tt) (λ rule. inc (guardrail_overrides rule)))

-- The tail of the execution, after the claim has been tried.
unfoldable pub execute_if_claimed : App → ℕ → PaymentRecord → Bool → M Done
execute_if_claimed app id r true = do
  commit
  _ ← get_decision id
  execute_recovery_decision app id r
execute_if_claimed app id r false = do
  append_audit_log "ACTION_EXECUTION_SKIPPED" "CLAIM_FAILED" (some r.id)
  commit

-- The intent is committed, then claimed, then executed.
unfoldable pub claim_and_execute : App → ℕ → PaymentRecord → M Done
unfolding execute_if_claimed
claim_and_execute app id r = do
  commit
  claimed ← claim_decision_for_execution id
  execute_if_claimed app id r claimed

-- From the safe prediction on.
unfoldable pub decide : App → PaymentRecord → Variant → PolicyPrediction → M Done
unfolding claim_and_execute
decide app r variant safe = do
  inc (decisions safe.selected_action variant)
  d ← create_recovery_decision r.id safe app.experiment_name (some variant)
  append_audit_log "POLICY_DECISION" "PLACEHOLDER_DECISION" (some r.id)
  when (not (is_no_action safe.selected_action)) (claim_and_execute app d.id r)

-- The guardrails. `prediction.selected_action` is read first: a missing prediction raises there.
unfoldable pub guard : App → PaymentRecord → Option PolicyPrediction → M PolicyPrediction
unfolding track_override
guard app r prediction = do
  original ← or_raise prediction (other "AttributeError")
  db ← database
  t ← clock
  let safe = evaluate app.lower app.cooldown_hours t db r (some original)
  track_override original.selected_action safe
  pure safe

unfoldable pub recover_payment : App → PaymentRecord → M Done
unfolding variant_of predict_for guard decide
recover_payment app r = do
  db ← database
  let features = extract_features r db
  append_audit_log "FEATURE_EXTRACTION" "EXTRACT_FEATURES" (some r.id)
  prediction ← predict_for app (variant_of app r) features
  safe ← guard app r prediction
  decide app r (variant_of app r) safe

unfoldable pub handle_failed_payment : App → ℕ → RazorpayPaymentEntity → M Done
unfolding recover_payment
handle_failed_payment app event payment = do
  (r, created) ← upsert_payment_record_from_failed event payment
  append_audit_log "PAYMENT_FAILED" (created_or_updated created) (some r.id)
  recover_payment app r
