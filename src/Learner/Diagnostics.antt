-- ===== src/Learner/Diagnostics.antt =====
-- app/ml/models/s_learner.py: the probabilities of a batch, and the diagnostic of the uplift.
use payment_recovery_opportu.Base.{ℕ, Bool, List, [], ◌∷◌, map}
use payment_recovery_opportu.Base.Table.{length, count_if}
use payment_recovery_opportu.Models.{RecoveryAction, Float, pos, bits}
use payment_recovery_opportu.Session.{Result, ok, err, other}
use payment_recovery_opportu.Json.{◌>>=◌}
use payment_recovery_opportu.Floats.{FloatOps}
use payment_recovery_opportu.Numpy.{Numpy}
use payment_recovery_opportu.Learner.{FeatureRow, action_encoding, SLearner, fitted}

unfoldable pub predict_batch_probabilities : SLearner → List FeatureRow → Result (List Float)
predict_batch_probabilities s rows = do p ← fitted s.is_fitted s.pipeline; p rows

-- `df["action"] = ...`
unfoldable pub with_action : ℕ → FeatureRow → FeatureRow
with_action a r = record {
  amount_paise = r.amount_paise;
  method = r.method;
  error_code = r.error_code;
  error_reason = r.error_reason;
  error_source = r.error_source;
  error_step = r.error_step;
  prior_failure_count = r.prior_failure_count;
  prior_success_count = r.prior_success_count;
  prior_failure_count_missing = r.prior_failure_count_missing;
  prior_success_count_missing = r.prior_success_count_missing;
  action = a;
}

-- `p1_arr - p0_arr`, where both have an element for each row.
unfoldable pub differences : FloatOps → List Float → List Float → Result (List Float)
differences fl [] [] = ok []
differences fl (x ∷ xs) (y ∷ ys) = do rest ← differences fl xs ys; ok (fl.sub x y ∷ rest)
differences fl _ _ = err (other "ValueError")

pub record UpliftDiagnostic : Type 0 where
  pub n : ℕ
  pub mean_uplift : Float
  pub median_uplift : Float
  pub std_uplift : Float
  pub min_uplift : Float
  pub max_uplift : Float
  pub fraction_positive : Float
  pub fraction_negative : Float
  pub fraction_near_zero : Float
  pub collapsed : Bool

-- 0.02
abbrev pub near_zero_threshold : Float
near_zero_threshold = bits 4581421828931458171

module _ (np : Numpy) where
  abbrev zero_float : Float
  zero_float = np.floats.of_int (pos 0)

  abbrev fraction : (Float → Bool) → List Float → Float
  fraction test us = np.floats.ratio (pos (count_if test us)) (pos (length us))

  unfoldable pub uplift_diagnostic : List Float → Result UpliftDiagnostic
  uplift_diagnostic us = do
    low ← np.min us
    high ← np.max us
    ok (record {
      n = length us;
      mean_uplift = np.mean us;
      median_uplift = np.median us;
      std_uplift = np.std us;
      min_uplift = low;
      max_uplift = high;
      fraction_positive = fraction (λ u. np.floats.lt zero_float u) us;
      fraction_negative = fraction (λ u. np.floats.lt u zero_float) us;
      fraction_near_zero = fraction (λ u. np.floats.lt (np.abs u) near_zero_threshold) us;
      collapsed = np.floats.lt (np.std us) near_zero_threshold;
    })

  unfoldable pub predict_uplift_variance_diagnostic :
      SLearner → List FeatureRow → Result UpliftDiagnostic
  unfolding predict_batch_probabilities with_action differences uplift_diagnostic action_encoding
  predict_uplift_variance_diagnostic s df = do
    p0 ←
        predict_batch_probabilities s
          (map (with_action (action_encoding RecoveryAction.no_action)) df)
    p1 ←
        predict_batch_probabilities s
          (map (with_action (action_encoding RecoveryAction.send_payment_link)) df)
    us ← differences np.floats p1 p0
    uplift_diagnostic us
