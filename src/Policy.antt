-- ===== src/Policy.antt =====
-- app/ml/predictor.py and app/ml/policy.py: the placeholder, and the economic policy over the
-- probabilities of a learner. The economics are on binary64 numbers, whose operations are given.
pub mod Economics
use payment_recovery_opportu.Base.{
  ℕ, ◌≡◌, ◌⊎◌, inl, inr, refl, sym, subst, String, Bool, true, false, Option, none, some,
  if◌then◌else◌,
}
use payment_recovery_opportu.Models.{RecoveryAction, DecisionStatus, Float, ℤ, pos}
use payment_recovery_opportu.Session.{Error, Result, ok, err, other}
use payment_recovery_opportu.Session.Yields.{ok-eq, err≢ok}
use payment_recovery_opportu.Crud.{PolicyPrediction, text}
use payment_recovery_opportu.Features.{PaymentFeatures}
use payment_recovery_opportu.App.{PolicyPredictor}
use payment_recovery_opportu.Floats.{FloatOps}
use payment_recovery_opportu.Learner.{SLearner, predict_probabilities}
use payment_recovery_opportu.Json.{◌>>=◌, bind-ok}

-- INTERVENTION_COSTS_PAISE of app/simulator/schemas.py
unfoldable pub intervention_cost : RecoveryAction → ℕ
intervention_cost RecoveryAction.no_action = 0
intervention_cost RecoveryAction.send_payment_link = 300
intervention_cost RecoveryAction.send_payment_link_with_discount = 300

-- The fitted learner, Python's floats, and the text that the program formats from the figures.
pub record EconomicPolicy : Type 0 where
  pub model : SLearner
  pub floats : FloatOps
  pub describe : PaymentFeatures → Float → Float → String

unfoldable pub placeholder_prediction : PolicyPrediction
placeholder_prediction = record {
  decision_status = DecisionStatus.pending_policy;
  selected_action = RecoveryAction.no_action;
  model_version = "placeholder-v0";
  reasoning =
      text
        "Phase 1 placeholder: no ML model or policy engine has been trained. This event has been ingested and features extracted. A real decision will be produced when the policy engine is implemented.";
  predicted_p0 = none;
  predicted_p1 = none;
  predicted_uplift = none;
  expected_incremental_net_paise = none;
}

-- amount * (P1 - P0) - cost
unfoldable pub expected_net : FloatOps → ℕ → Float → Float → Float
unfolding intervention_cost
expected_net fl amount p0 p1 =
    fl.sub (fl.mul (fl.of_int (pos amount)) (fl.sub p1 p0))
      (fl.of_int (pos (intervention_cost RecoveryAction.send_payment_link)))

-- `> 0`
abbrev pub is_positive : FloatOps → Float → Bool
is_positive fl x = fl.lt (fl.of_int (pos 0)) x

abbrev pub action_for : Bool → RecoveryAction
action_for true = RecoveryAction.send_payment_link
action_for false = RecoveryAction.no_action

-- `int(...)` of a NaN raises ValueError, of an infinity OverflowError.
abbrev to_int : Option ℤ → Result ℤ
to_int none = err (other "ValueError")
to_int (some z) = ok z

unfoldable pub economic_predict : EconomicPolicy → PaymentFeatures → Result PolicyPrediction
unfolding expected_net
economic_predict e f = do
  (p0, p1) ← predict_probabilities e.model f
  let net = expected_net e.floats f.amount_paise p0 p1
  paise ← to_int (e.floats.trunc net)
  ok (record {
    decision_status = DecisionStatus.decided;
    selected_action = action_for (is_positive e.floats net);
    model_version = "slearner-gbm-v1";
    reasoning = text (e.describe f p0 p1);
    predicted_p0 = some p0;
    predicted_p1 = some p1;
    predicted_uplift = some (e.floats.sub p1 p0);
    expected_incremental_net_paise = some paise;
  })

abbrev always : Result PolicyPrediction → Result (Option PolicyPrediction)
always (ok p) = ok (some p)
always (err e) = err e

pub always-ok :
    (r : Result PolicyPrediction) (p : PolicyPrediction) → always r ≡ ok (some p) → r ≡ ok p
always-ok (ok q) p h = cc
always-ok (err e) p h = absurd (err≢ok h)

-- What a prediction of the economic policy is, by the probabilities that the learner gave.
pub record IsEconomic (e : EconomicPolicy) (f : PaymentFeatures) (p : PolicyPrediction)
    : Type 0 where
  pub p0 : Float
  pub p1 : Float
  pub learnt : predict_probabilities e.model f ≡ ok (p0, p1)
  pub is_decided : p.decision_status ≡ DecisionStatus.decided
  pub maximizes :
      p.selected_action
      ≡ action_for (is_positive e.floats (expected_net e.floats f.amount_paise p0 p1))
  pub recorded_p0 : p.predicted_p0 ≡ some p0
  pub recorded_p1 : p.predicted_p1 ≡ some p1
  pub recorded_uplift : p.predicted_uplift ≡ some (e.floats.sub p1 p0)
  pub recorded_net :
      p.expected_incremental_net_paise ≡ e.floats.trunc (expected_net e.floats f.amount_paise p0 p1)

to_int-ok : (o : Option ℤ) (z : ℤ) → to_int o ≡ ok z → o ≡ some z
to_int-ok none z h = absurd (err≢ok h)
to_int-ok (some y) z h = cc

-- A prediction of the economic policy is DECIDED; it sends a payment link exactly if the amount
-- times the uplift, less the cost of 300 paise, is positive, and takes no action if not, never a
-- discount; and it records the learner's probabilities, their difference, and that net value
-- truncated to paise.
pub economic_predict-IsEconomic :
    (e : EconomicPolicy) (f : PaymentFeatures) (p : PolicyPrediction)
    → economic_predict e f ≡ ok p
    → IsEconomic e f p
unfolding economic_predict
economic_predict-IsEconomic e f p h =
    let ((p0, p1), learnt, rest) = bind-ok (predict_probabilities e.model f) _ p h in
    let (paise, whole, rest) =
      bind-ok (to_int (e.floats.trunc (expected_net e.floats f.amount_paise p0 p1))) _ p rest in
    subst (IsEconomic e f) (ok-eq rest) (record {
      p0 = p0;
      p1 = p1;
      learnt = learnt;
      is_decided = refl;
      maximizes = refl;
      recorded_p0 = refl;
      recorded_p1 = refl;
      recorded_uplift = refl;
      recorded_net = sym (to_int-ok _ paise whole);
    })

-- The two predictors, as app/main.py takes them.
unfoldable pub economic_policy_predictor : EconomicPolicy → PolicyPredictor
economic_policy_predictor e = record {
  predict = λ f. always (economic_predict e f);
  status_made = λ f p h. inl (economic_predict-IsEconomic e f p (always-ok _ p h)).is_decided;
}

pub some-placeholder :
    (p : PolicyPrediction)
    → ok (some placeholder_prediction) ≡ ok (some p)
    → p.decision_status ≡ DecisionStatus.pending_policy
unfolding placeholder_prediction
some-placeholder p h = cc

unfoldable pub placeholder_predictor : PolicyPredictor
unfolding placeholder_prediction
placeholder_predictor = record {
  predict = λ f. ok (some placeholder_prediction);
  status_made = λ f p h. inr (some-placeholder p h);
}
