-- ===== src/Examples.antt =====
-- One service and one database on which the theorems are applied.
mod Histories
mod Deliveries
mod Methods
mod Remote
mod Parts
mod Simulation
use payment_recovery_opportu.Base.{
  ℕ, suc, ◌+◌, ◌-◌, ◌/◌, ◌==◌, ◌*◌, ◌^◌, ◌%◌, ◌≡◌, refl, inl, inr, String, Bool, true, false,
  Option, none, some, List, [], ◌∷◌, ltb, if◌then◌else◌, arith,
}
use payment_recovery_opportu.Base.Table.{All, count_if}
use payment_recovery_opportu.Models.{
  Database, WebhookEvent, WebhookProcessingStatus, PaymentRecord, PaymentStatus, RecoveryDecision,
  DecisionStatus, RecoveryAction, Float, bits, ℤ, negsuc, is_no_action, pos, control, treatment,
  empty_database,
}
use payment_recovery_opportu.Schemas.{RazorpayPaymentEntity, RazorpayWebhookPayload, absent, entity}
use payment_recovery_opportu.Session.{
  Session, Result, ok, err, other, permanent, transient, duplicate_reference,
}
use payment_recovery_opportu.Crud.{
  PolicyPrediction, text, is_recent, claim_decision_for_execution, has_id, update_where,
}
use payment_recovery_opportu.Change.{Changes}
use payment_recovery_opportu.Retry.{draws, base_delay, calculate_retry}
use payment_recovery_opportu.Retry.Bounds.{
  Scheduled, calculate_retry_schedule, calculate_retry_final,
}
use payment_recovery_opportu.Features.{extract_features}
use payment_recovery_opportu.Executor.{mock_payment_link_provider}
use payment_recovery_opportu.Floats.{FloatOps}
use payment_recovery_opportu.App.{App, PolicyPredictor}
use payment_recovery_opportu.Experiment.{
  experiment_engine, clamp_percentage, hash_input, assign_variant,
}
use payment_recovery_opportu.Experiment.Share.{assign_variant_lem}
use payment_recovery_opportu.Guardrails.{blocks, evaluate}
use payment_recovery_opportu.Guardrails.Rules.{IsCooledDown, evaluate-allows, evaluate-executing}
use payment_recovery_opportu.Execution.{execute_recovery_decision}
use payment_recovery_opportu.Execution.Outcome.{
  IsSettled, executed_to, create_reply, reconcile_reply, execute_recovery_decision-IsSettled,
}
use payment_recovery_opportu.Processor.PaymentFailed.{recover_payment, variant_of}
use payment_recovery_opportu.Security.{verify_webhook_signature}
use payment_recovery_opportu.Webhooks.{Endpoint, payload, duplicate, invalid_signature}
use payment_recovery_opportu.Worker.Claim.{claim-once}
use payment_recovery_opportu.Invariant.Decisions.{DecisionsValid}
use payment_recovery_opportu.Invariant.Payments.{HasReached, PaymentsUnique}
use payment_recovery_opportu.Invariant.Events.{EventsUnique}
use payment_recovery_opportu.Invariant.Audit.{TrailExtends}
use payment_recovery_opportu.System.{Call, deliver, cycle, pass, respond, step, run, session_at}
use payment_recovery_opportu.System.History.{
  run-Changes, run-DecisionsValid, run-HasReached, run_unique, run-TrailExtends,
}
use payment_recovery_opportu.System.Delivery.{Accepted, redelivery-duplicate}
use payment_recovery_opportu.System.Rejection.{
  Rejected, SameRecovery, rejection-SameRecovery, rejection-takes_id,
}

abbrev send_link : PolicyPrediction
send_link = record {
  decision_status = DecisionStatus.decided;
  selected_action = RecoveryAction.send_payment_link;
  model_version = "placeholder-v0";
  reasoning = text "no model";
  predicted_p0 = none;
  predicted_p1 = none;
  predicted_uplift = none;
  expected_incremental_net_paise = none;
}

some-send_link : (p : PolicyPrediction) → ok (some send_link) ≡ ok (some p) → send_link ≡ p
some-send_link p e = cc

abbrev predictor : PolicyPredictor
predictor = record {
  predict = λ f. ok (some send_link);
  status_made = λ f p e. rw (← some-send_link p e) (inl refl);
}

none≢some-ok : (p : PolicyPrediction) → ok none ≡ ok (some p) → ⊥
none≢some-ok p e = cc

-- A predictor that never has an answer.
abbrev silent : PolicyPredictor
silent = record { predict = λ f. ok none; status_made = λ f p e. absurd (none≢some-ok p e) }

abbrev app_with : PolicyPredictor → App
app_with p = record {
  predictor = p;
  executor = mock_payment_link_provider (λ t. "0badcafe");
  lower = λ t. t;
  sha256_int = λ t. 42;
  random = λ k. 0;
  experiment_name = none;
  control_percentage = pos 50;
  cooldown_hours = 48;
  execution_stale_after_seconds = 900;
  worker_batch_size = 10;
}

abbrev failed_payment : RazorpayPaymentEntity
failed_payment = record {
  id = "pay_2";
  amount = 50000;
  currency = "INR";
  order_id = none;
  method = some "card";
  email = some "a@b.c";
  contact = none;
  error_code = some "BAD_REQUEST_ERROR";
  error_description = none;
  error_source = none;
  error_step = none;
  error_reason = none;
  created_at = none;
}

abbrev failed_event : RazorpayWebhookPayload
failed_event = record {
  id = "evt_2";
  event = "payment.failed";
  payment = entity failed_payment;
  order = absent;
  payment_link = absent;
}

abbrev endpoint : Endpoint
endpoint = record {
  app = app_with predictor;
  razorpay_webhook_secret = "secret";
  hmac_hex = λ secret body. some "digest";
  parse = λ body. payload failed_event;
  rejected_id = λ body. some "evt_2";
  rejected_event = λ body. none;
  uuid = λ k. "0";
}

abbrev old_event : WebhookEvent
old_event = record {
  id = 1;
  event_id = "evt_1";
  event_type = "payment.captured";
  received_at = 0;
  signature_verified = true;
  raw_payload = "{}";
  processing_status = WebhookProcessingStatus.processed;
}

abbrev old_payment : PaymentRecord
old_payment = record {
  id = 1;
  webhook_event_id = 1;
  razorpay_payment_id = "pay_1";
  razorpay_order_id = none;
  amount = 50000;
  currency = "INR";
  status = PaymentStatus.captured;
  method = none;
  error_code = none;
  error_description = none;
  error_source = none;
  error_step = none;
  error_reason = none;
  customer_email = none;
  customer_contact = some "+910000000000";
  payment_created_at = none;
  created_at = 0;
}

abbrev decision_in : DecisionStatus → ℕ → RecoveryDecision
decision_in status attempts = record {
  id = 1;
  payment_record_id = 1;
  decision_status = status;
  selected_action = RecoveryAction.send_payment_link;
  model_version = "placeholder-v0";
  experiment_name = none;
  experiment_variant = some treatment;
  predicted_p0 = none;
  predicted_p1 = none;
  predicted_uplift = none;
  expected_incremental_net_paise = none;
  execution_attempts = attempts;
  execution_started_at = some 0;
  last_error = none;
  last_error_type = none;
  next_retry_at = none;
  execution_reference_id = none;
  executed_at = none;
  outcome_observed_at = none;
  created_at = 0;
}

abbrev database_with : RecoveryDecision → Database
database_with d = record empty_database {
  webhook_events = old_event ∷ [];
  payment_records = old_payment ∷ [];
  recovery_decisions = d ∷ [];
}

-- A decision that was left in EXECUTING.
abbrev stored : Database
stored = database_with (decision_in DecisionStatus.executing 1)

abbrev calls : List Call
calls = deliver "{}" (some "digest") ∷ pass 1800000000 ∷ cycle 3 ∷ []

-- Numbers that count, as an instance of the operations on floats.
abbrev value : Float → ℕ
value (bits n) = n

abbrev clipped : ℤ → ℕ
clipped (pos n) = n
clipped (negsuc n) = 0

abbrev toy_floats : FloatOps
toy_floats = record {
  add = λ x y. bits (value x + value y);
  sub = λ x y. bits (value x - value y);
  mul = λ x y. bits (value x * value y);
  div = λ x y. bits (value x / value y);
  lt = λ x y. ltb (value x) (value y);
  of_int = λ z. bits (clipped z);
  ratio = λ m n. bits (clipped m / clipped n);
  eq_int = λ x z. value x == clipped z;
  trunc = λ x. some (pos (value x));
}
