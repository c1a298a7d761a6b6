-- ===== src/Examples/Parts.antt =====
-- The learner, the policy, the start, the look-up of an event, the dashboard, the stale loop.
use payment_recovery_opportu.Base.{
  zero, suc, ltb, ◌-◌, ◌*◌, text_eq, ℕ, ◌≤◌, ◌≡◌, refl, true, false, none, some, [], ◌∷◌, arith,
}
use payment_recovery_opportu.Base.Table.{replace, find_first, count_if}
use payment_recovery_opportu.Models.{
  Float, PaymentRecord, PaymentStatus, bits, pos, DecisionStatus, RecoveryAction, RecoveryDecision,
}
use payment_recovery_opportu.Session.{ok, err, transient}
use payment_recovery_opportu.Executor.{mock_payment_link_provider}
use payment_recovery_opportu.Crud.{text, PolicyPrediction, has_event_id, is_stale}
use payment_recovery_opportu.App.{App}
use payment_recovery_opportu.Features.History.{is_row, extract_features-own}
use payment_recovery_opportu.Features.{extract_features, PaymentFeatures}
use payment_recovery_opportu.Learner.{SLearner, predict_probabilities}
use payment_recovery_opportu.Policy.{EconomicPolicy, economic_predict}
use payment_recovery_opportu.Worker.Starvation.{IsStuck, recover_stale-never_ends}
use payment_recovery_opportu.Main.{EventDetail, get_event}
use payment_recovery_opportu.Policy.Economics.{
  HasSigns, economic_predict-uplift, IsVerdict, economic_predict-IsVerdict,
}
use native.Mathlib.Nat.{mul-zero}
use payment_recovery_opportu.Main.Lookup.{IsAnswer, deliver-get_event}
use payment_recovery_opportu.Dashboard.{
  get_live_summary, get_experiment_metrics, recovered_amount_paise,
}
use payment_recovery_opportu.Dashboard.Growth.{HasGrown, run-HasGrown}
use payment_recovery_opportu.Dashboard.Shares.{IsJoined, IsShare, get_experiment_metrics-IsShare}
use payment_recovery_opportu.Dashboard.Revenue.{
  revenue_by_payment, recovered_amount_paise-by_payment,
}
use payment_recovery_opportu.Security.{verify_webhook_signature}
use payment_recovery_opportu.System.{deliver, run, session_at}
use payment_recovery_opportu.System.Delivery.{Accepted}
use payment_recovery_opportu.Worker.{in_session, recover_stale}
use payment_recovery_opportu.Worker.Termination.{recover_stale-ends_in_time}
use payment_recovery_opportu.Examples.{
  value, decision_in, decision_in, old_payment, toy_floats, predictor, app_with, failed_event,
  endpoint, stored, calls,
}

-- The features of a payment that was made with nothing else on record.
abbrev some_features : PaymentFeatures
some_features = record {
  payment_id = "pay_2";
  amount_paise = 50000;
  currency = "INR";
  method = some "card";
  error_code = none;
  error_reason = none;
  error_source = none;
  error_step = none;
  prior_failure_count = none;
  prior_success_count = some 0;
  customer_identifier = none;
}

-- A learner that knows two probabilities.
abbrev learner : SLearner
learner = record { is_fitted = true; pipeline = some (λ rows. ok (bits 1 ∷ bits 3 ∷ [])) }

abbrev policy : EconomicPolicy
policy = record { model = learner; floats = toy_floats; describe = λ f x y. "" }

abbrev link_prediction : PolicyPrediction
link_prediction = record {
  decision_status = DecisionStatus.decided;
  selected_action = RecoveryAction.send_payment_link;
  model_version = "slearner-gbm-v1";
  reasoning = text "";
  predicted_p0 = some (bits 1);
  predicted_p1 = some (bits 3);
  predicted_uplift = some (bits 2);
  expected_incremental_net_paise = some (pos 99700);
}

predicted : economic_predict policy some_features ≡ ok link_prediction
unfolding economic_predict predict_probabilities
predicted = refl

economic_predict-IsVerdict_example : IsVerdict policy some_features (ok link_prediction)
unfolding economic_predict predict_probabilities
economic_predict-IsVerdict_example = economic_predict-IsVerdict policy some_features

false≢true : false ≡ true → ⊥
false≢true e = cc

toy_sub : (n m : ℕ) → ltb 0 (m - n) ≡ true → ltb n m ≡ true
toy_sub n m h = ground arith

toy_mul : (n m : ℕ) → ltb 0 (n * m) ≡ true → ltb 0 m ≡ true
toy_mul n zero h = absurd (false≢true (rw (mul-zero n) at h))
toy_mul n (suc m) h = ground arith

toy_less : (n m : ℕ) → ltb 0 (m - n) ≡ true → ltb 0 m ≡ true
toy_less n m h = ground arith

toy_signs : HasSigns toy_floats
toy_signs = record {
  positive_sub = λ x y. toy_sub (value y) (value x);
  positive_mul = λ n x. toy_mul n (value x);
  positive_less = λ n x. toy_less n (value x);
}

economic_predict-uplift_example :
    (p0 p1 : Float) × (predict_probabilities learner some_features ≡ ok (p0, p1))
    × (ltb (value p0) (value p1) ≡ true)
economic_predict-uplift_example =
    economic_predict-uplift policy some_features link_prediction toy_signs predicted refl

signed_delivery : Accepted endpoint "{}" (some "digest") failed_event
unfolding verify_webhook_signature text_eq
signed_delivery = record {
  nonempty = refl;
  signed = refl;
  decoded = refl;
  payment_valid = refl;
  order_valid = refl;
}

not_known : find_first (has_event_id "evt_2") stored.webhook_events ≡ none
unfolding find_first text_eq
not_known = refl

deliver-get_event_example :
    (d : EventDetail) × ((in_session
        (get_event "evt_2")
        (run endpoint (session_at stored 0) (deliver "{}" (some "digest") ∷ calls))).0
      ≡ ok (some d))
    × IsAnswer failed_event 0 d
deliver-get_event_example =
    deliver-get_event endpoint "{}" (some "digest") failed_event signed_delivery
      (session_at stored 0) not_known calls

run-HasGrown_example :
    HasGrown
      (get_live_summary toy_floats stored)
      (get_live_summary toy_floats (run endpoint (session_at stored 0) calls).committed)
run-HasGrown_example = run-HasGrown toy_floats endpoint calls stored 0

stored-IsJoined : IsJoined stored
unfolding count_if
stored-IsJoined = (refl, tt)

get_experiment_metrics-IsShare_example : IsShare stored (get_experiment_metrics toy_floats stored)
get_experiment_metrics-IsShare_example =
    get_experiment_metrics-IsShare toy_floats stored stored-IsJoined

recovered_amount_paise-by_payment_example :
    recovered_amount_paise stored
    ≡ revenue_by_payment stored.recovery_decisions stored.payment_records
recovered_amount_paise-by_payment_example = recovered_amount_paise-by_payment stored

one_stale : count_if (is_stale 7) stored.recovery_decisions ≤ 1
unfolding count_if
one_stale = omega arith

-- A provider that takes the whole threshold for a call.
abbrev slow_app : App
slow_app = record (app_with predictor) {
  executor = record (mock_payment_link_provider (λ t. "0badcafe")) { elapsed = λ k. 900000000 };
}

recover_stale-ends_in_time_example : (recover_stale 2 slow_app (session_at stored 7)).0 ≡ ok true
recover_stale-ends_in_time_example =
    recover_stale-ends_in_time slow_app 900000000 (λ k. omega arith) (session_at stored 7) 1
      one_stale (omega arith)

-- The payment as it is when it has failed.
abbrev lost_payment : PaymentRecord
lost_payment = record old_payment { status = PaymentStatus.failed }

extract_features-own_example :
    extract_features old_payment
      (record stored { payment_records = replace (is_row 1) lost_payment stored.payment_records })
    ≡ extract_features old_payment stored
extract_features-own_example = extract_features-own old_payment lost_payment stored refl

-- A provider that is down, and takes longer than the threshold to say so.
abbrev outage : App
outage = record (app_with predictor) {
  executor = record (mock_payment_link_provider (λ t. "0badcafe")) {
    reconcile_duplicate_reference = λ k d p ref. err (transient "timeout" "NETWORK_ERROR");
    elapsed = λ k. 900000001;
  };
}

recover_stale-never_ends_example :
    ((recover_stale 100 outage (session_at stored 1800000000)).0 ≡ ok false)
    × (u : ℕ) × (e : RecoveryDecision) × IsStuck u e
        (recover_stale 100 outage (session_at stored 1800000000)).1
recover_stale-never_ends_example =
    recover_stale-never_ends 100 outage "timeout" "NETWORK_ERROR" 0
      (decision_in DecisionStatus.executing 1) (session_at stored 1800000000) (λ k. omega arith)
      (λ k d p ref. refl) refl refl
