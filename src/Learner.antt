-- ===== src/Learner.antt =====
-- app/ml/training.py and app/ml/models/s_learner.py: the rows that the learner is given, and its
-- probabilities for one payment. The fitted pipeline of scikit-learn is a parameter. The children are
-- the training and the diagnostics.
pub mod Training
pub mod Diagnostics
pub mod Agreement
use payment_recovery_opportu.Base.{
  ℕ, ◌≡◌, ap, String, Bool, true, Option, none, some, List, [], ◌∷◌, arith,
}
use payment_recovery_opportu.Models.{RecoveryAction, Float, ℤ, pos, negsuc}
use payment_recovery_opportu.Session.{Result, ok, err, other}
use payment_recovery_opportu.Features.{PaymentFeatures}
use payment_recovery_opportu.Json.{◌>>=◌}

pub record FeatureRow : Type 0 where
  pub amount_paise : ℕ
  pub method : Option String
  pub error_code : Option String
  pub error_reason : Option String
  pub error_source : Option String
  pub error_step : Option String
  pub prior_failure_count : ℤ
  pub prior_success_count : ℤ
  pub prior_failure_count_missing : ℕ
  pub prior_success_count_missing : ℕ
  pub action : ℕ

abbrev pub missing_sentinel : ℤ
missing_sentinel = negsuc 0

unfoldable pub action_encoding : RecoveryAction → ℕ
action_encoding RecoveryAction.no_action = 0
action_encoding RecoveryAction.send_payment_link = 1
action_encoding RecoveryAction.send_payment_link_with_discount = 2

-- `MISSING_SENTINEL if n is None else n`
abbrev count_or_sentinel : Option ℕ → ℤ
count_or_sentinel none = missing_sentinel
count_or_sentinel (some n) = pos n

-- `int(n is None)`
abbrev is_missing : Option ℕ → ℕ
is_missing none = 1
is_missing (some _) = 0

unfoldable pub features_to_row : PaymentFeatures → RecoveryAction → FeatureRow
unfolding action_encoding
features_to_row f kind = record {
  amount_paise = f.amount_paise;
  method = f.method;
  error_code = f.error_code;
  error_reason = f.error_reason;
  error_source = f.error_source;
  error_step = f.error_step;
  prior_failure_count = count_or_sentinel f.prior_failure_count;
  prior_success_count = count_or_sentinel f.prior_success_count;
  prior_failure_count_missing = is_missing f.prior_failure_count;
  prior_success_count_missing = is_missing f.prior_success_count;
  action = action_encoding kind;
}

-- `pipeline` is `predict_proba(...)[:, 1]` of a pipeline that has been fitted.
pub record SLearner : Type 0 where
  pub is_fitted : Bool
  pub pipeline : Option (List FeatureRow → Result (List Float))

abbrev pub fitted :
    Bool
    → Option (List FeatureRow → Result (List Float))
    → Result (List FeatureRow → Result (List Float))
fitted true (some p) = ok p
fitted _ _ = err (other "RuntimeError")

-- `probs[0]` and `probs[1]`
abbrev first_two : List Float → Result (Float × Float)
first_two (p0 ∷ p1 ∷ _) = ok (p0, p1)
first_two _ = err (other "IndexError")

unfoldable pub predict_probabilities : SLearner → PaymentFeatures → Result (Float × Float)
unfolding features_to_row
predict_probabilities s f = do
  p ← fitted s.is_fitted s.pipeline
  probs ← p (
      features_to_row f RecoveryAction.no_action
      ∷ features_to_row f RecoveryAction.send_payment_link
      ∷ [])
  first_two probs
