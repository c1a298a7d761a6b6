-- ===== src/Guardrails.antt =====
-- app/guardrails.py: the safety rules between a prediction and its execution. The method reads the
-- database and changes only the prediction, so it is a function of the two and of the time.
pub mod Rules
use payment_recovery_opportu.Base.{
  ℕ, ◌-◌, ◌*◌, String, Bool, true, false, not, ◌&&◌, Option, none, some, ◌==◌, if◌then◌else◌,
}
use payment_recovery_opportu.Base.Table.{find_first}
use payment_recovery_opportu.Base.Text.{truthy}
use payment_recovery_opportu.Models.{
  Database, PaymentRecord, RecoveryDecision, DecisionStatus, RecoveryAction, is_no_action,
  CustomerOutreachEvent,
}
use payment_recovery_opportu.Crud.{
  PolicyPrediction, Reasoning, model_unavailable, duplicate_prevented, cooldown_active,
  latest_recent,
}
use payment_recovery_opportu.Features.{customer_identifier_of}

-- Rule 1: the prediction in place of a missing one.
unfoldable pub fallback_prediction : PolicyPrediction
fallback_prediction = record {
  decision_status = DecisionStatus.decided;
  selected_action = RecoveryAction.no_action;
  model_version = "fallback-v0";
  reasoning = model_unavailable;
  predicted_p0 = none;
  predicted_p1 = none;
  predicted_uplift = none;
  expected_incremental_net_paise = none;
}

-- The prediction with its action set to NO_ACTION, and why.
abbrev pub overridden : Reasoning → PolicyPrediction → PolicyPrediction
overridden why p = record p { selected_action = RecoveryAction.no_action; reasoning = why }

-- `decision_status.in_([DECIDED, EXECUTED, OUTCOME_OBSERVED])`
abbrev pub counts_as_taken : DecisionStatus → Bool
counts_as_taken DecisionStatus.decided = true
counts_as_taken DecisionStatus.executed = true
counts_as_taken DecisionStatus.outcome_observed = true
counts_as_taken _ = false

-- Rule 2: the decisions that stand against another one for the payment.
abbrev pub blocks : ℕ → RecoveryDecision → Bool
blocks payment_record_id d =
    d.payment_record_id == payment_record_id
    && counts_as_taken d.decision_status
    && not (is_no_action d.selected_action)

-- The normalized identifier of a customer: an email in lower case, or the contact as it is.
unfoldable pub normalized_identifier : (String → String) → PaymentRecord → Option String
normalized_identifier lower r = elim (customer_identifier_of r) [
  | none ↦ none
  | some c ↦ some (if truthy r.customer_email then lower c else c)
]

-- The window of Rule 3, in microseconds.
abbrev pub cooldown_since : ℕ → ℕ → ℕ
cooldown_since cooldown_hours now = now - cooldown_hours * 3600000000

abbrev pub recent_outreach : ℕ → ℕ → Option String → Database → Option CustomerOutreachEvent
recent_outreach cooldown_hours now none db = none
recent_outreach cooldown_hours now (some c) db =
    latest_recent c (cooldown_since cooldown_hours now) db.outreach_events

-- Rule 3. With no identifier the outreach is let through.
abbrev pub apply_cooldown : ℕ → Option CustomerOutreachEvent → PolicyPrediction → PolicyPrediction
apply_cooldown cooldown_hours none p = p
apply_cooldown cooldown_hours (some o) p =
    overridden (cooldown_active o.outreach_at cooldown_hours) p

-- Rule 2, and then Rule 3 on what it lets through.
abbrev pub apply_duplicate :
    Option RecoveryDecision → PolicyPrediction → PolicyPrediction → PolicyPrediction
apply_duplicate none p rest = rest
apply_duplicate (some d) p rest = overridden (duplicate_prevented d.selected_action) p

unfoldable pub evaluate_rules :
    (String → String) → ℕ → ℕ → Database → PaymentRecord → PolicyPrediction → PolicyPrediction
unfolding normalized_identifier
evaluate_rules lower cooldown_hours now db payment p =
    if is_no_action p.selected_action
    then p
    else apply_duplicate (find_first (blocks payment.id) db.recovery_decisions) p (
        apply_cooldown cooldown_hours
          (recent_outreach cooldown_hours now (normalized_identifier lower payment) db) p)

-- `GuardrailsEngine.evaluate`
unfoldable pub evaluate :
    (String → String)
    → ℕ
    → ℕ
    → Database
    → PaymentRecord
    → Option PolicyPrediction
    → PolicyPrediction
unfolding fallback_prediction evaluate_rules
evaluate lower cooldown_hours now db payment none = fallback_prediction
evaluate lower cooldown_hours now db payment (some p) =
    evaluate_rules lower cooldown_hours now db payment p
