-- ===== src/Scripts/Criteria.antt =====
-- scripts/evaluate_phase3.py, main: three policies evaluated on the same synthetic payments, and
-- the criteria that the learnt one is accepted by. The printing is left out.
use payment_recovery_opportu.Base.{
  ℕ, String, Bool, true, false, ◌&&◌, Option, none, some, List, [], ◌∷◌, text_eq, if◌then◌else◌,
}
use payment_recovery_opportu.Models.{Float, bits}
use payment_recovery_opportu.Session.{Result, ok, err, other}
use payment_recovery_opportu.Json.{◌>>=◌}
use payment_recovery_opportu.Numpy.{Numpy}
use payment_recovery_opportu.Features.{PaymentFeatures}
use payment_recovery_opportu.Learner.{SLearner}
use payment_recovery_opportu.Learner.Diagnostics.{near_zero_threshold}
use payment_recovery_opportu.Policy.{EconomicPolicy, economic_policy_predictor}
use payment_recovery_opportu.Simulator.Constants.{float_0_2, float_0_5}
use payment_recovery_opportu.Simulator.Random.{Randomness}
use payment_recovery_opportu.Simulator.Runner.{evaluate_policy}
use payment_recovery_opportu.Simulator.Evaluator.{Metrics, evaluate_metrics}
use payment_recovery_opportu.Scripts.EvaluatePhase3.{
  always_do_nothing, always_send_link, ActionRate, compute_quadrant_action_rates,
}
use payment_recovery_opportu.Scripts.Calibration.{
  CalibrationReport, compute_probability_diagnostics,
}

abbrev float_0_55 : Float
float_0_55 = bits 4603129179135383962

abbrev float_0_25 : Float
float_0_25 = bits 4598175219545276416

-- `q_rates.get(q, {}).get("action_rate", default)`, tested; `missing` is the test of the default.
abbrev rate_passes : (Float → Bool) → Bool → String → List (String × ActionRate) → Bool
rate_passes test missing q [] = missing
rate_passes test missing q ((k, r) ∷ rest) =
    if text_eq k q then test r.action_rate else rate_passes test missing q rest

-- The keys of an empty dictionary are missing.
abbrev or_key_error : Option Metrics → Result Metrics
or_key_error none = err (other "KeyError")
or_key_error (some m) = ok m

module _ (np : Numpy) where
  -- The seven criteria in their order.
  unfoldable pub criteria :
      CalibrationReport → Metrics → Metrics → Metrics → List (String × ActionRate) → List Bool
  criteria diag model nothing link rates =
      let lt = np.floats.lt in
      let net = λ (m : Metrics). m.analytical_incremental_net_inr in
      np.le near_zero_threshold diag.predicted_uplift_std
      ∷ lt float_0_2 diag.uplift_spearman_corr
      ∷ lt float_0_55 diag.uplift_sign_agreement
      ∷ lt (net nothing) (net model)
      ∷ lt (net link) (net model)
      ∷ rate_passes (λ r. lt float_0_5 r) false "Persuadable" rates
      ∷ rate_passes (λ r. lt r float_0_25) false "Sleeping Dog" rates
      ∷ []

  unfoldable pub all_pass : List Bool → Bool
  all_pass [] = true
  all_pass (passed ∷ rest) = passed && all_pass rest

  -- `EconomicPolicyPredictor(model)` raises for a model that is not fitted.
  unfoldable pub economic_predictor :
      (PaymentFeatures → Float → Float → String) → SLearner → Result EconomicPolicy
  economic_predictor describe s =
      if s.is_fitted
      then ok (record { model = s; floats = np.floats; describe = describe })
      else err (other "ValueError")

  unfoldable pub evaluate_model :
      {S : Type 0}
      → Randomness S
      → (PaymentFeatures → Float → Float → String)
      → SLearner
      → ℕ
      → ℕ
      → Result (List Bool)
  unfolding criteria economic_predictor
  evaluate_model rng describe s n seed = do
    e ← economic_predictor describe s
    records_nothing ← evaluate_policy rng always_do_nothing n seed
    _ ← or_key_error (evaluate_metrics np.floats records_nothing)
    records_link ← evaluate_policy rng always_send_link n seed
    _ ← or_key_error (evaluate_metrics np.floats records_link)
    records_model ← evaluate_policy rng (economic_policy_predictor e).predict n seed
    model ← or_key_error (evaluate_metrics np.floats records_model)
    diag ← compute_probability_diagnostics np records_model s
    nothing ← or_key_error (evaluate_metrics np.floats records_nothing)
    link ← or_key_error (evaluate_metrics np.floats records_link)
    ok (criteria diag model nothing link (compute_quadrant_action_rates np.floats records_model))
