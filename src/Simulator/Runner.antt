-- ===== src/Simulator/Runner.antt =====
-- app/simulator/runner.py: the randomized log, and the evaluation of a policy.
use payment_recovery_opportu.Base.{ℕ, Bool, Option, none, some, List, [], ◌∷◌, map}
use payment_recovery_opportu.Models.{RecoveryAction, Float}
use payment_recovery_opportu.Session.{other, Result, ok, err}
use payment_recovery_opportu.Json.{◌>>=◌, attribute_error}
use payment_recovery_opportu.Crud.{PolicyPrediction}
use payment_recovery_opportu.Features.{PaymentFeatures}
use payment_recovery_opportu.Policy.{intervention_cost}
use payment_recovery_opportu.Simulator.{
  SimulatedContext, GroundTruth, SimulatedRecord, to_payment_features,
}
use payment_recovery_opportu.Simulator.Random.{Randomness, element}
use payment_recovery_opportu.Simulator.Engine.{generate_contexts, generate_ground_truth}

-- The potential outcome of an action.
unfoldable pub outcome_of : GroundTruth → RecoveryAction → Bool
outcome_of gt RecoveryAction.no_action = gt.y_do_nothing
outcome_of gt RecoveryAction.send_payment_link = gt.y_link
outcome_of gt RecoveryAction.send_payment_link_with_discount = gt.y_discount

unfoldable pub record_of : SimulatedContext → GroundTruth → RecoveryAction → SimulatedRecord
unfolding outcome_of
record_of c gt kind = record {
  context = c;
  ground_truth = gt;
  assigned_action = kind;
  intervention_cost_paise = intervention_cost kind;
  observed_outcome = outcome_of gt kind;
}

-- `prediction.selected_action`, where the predictor may answer None.
abbrev pub selected : Option PolicyPrediction → Result RecoveryAction
selected none = err attribute_error
selected (some p) = ok p.selected_action

module _ {S : Type 0} (rng : Randomness S) where
  -- `rng.choices(actions, weights=weights)[0]`
  unfoldable pub assign_action : List (RecoveryAction × Float) → S → Result (RecoveryAction × S)
  assign_action [] s = err (other "IndexError")
  assign_action ((a, w) ∷ policy_weights) s =
      let (i, s) = rng.choices (w ∷ map (λ x. x.1) policy_weights) s in
      ok (element a (map (λ x. x.0) policy_weights) i, s)

  unfoldable pub log_from :
      List (RecoveryAction × Float) → List SimulatedContext → S → Result (List SimulatedRecord)
  unfolding assign_action record_of
  log_from policy_weights [] s = ok []
  log_from policy_weights (c ∷ cs) s = do
    gt ← generate_ground_truth rng c
    (assigned, s) ← assign_action policy_weights s
    rest ← log_from policy_weights cs s
    ok (record_of c gt assigned ∷ rest)

  unfoldable pub generate_logging_dataset :
      ℕ → ℕ → List (RecoveryAction × Float) → Result (List SimulatedRecord)
  unfolding log_from
  generate_logging_dataset n seed policy_weights =
      log_from policy_weights (generate_contexts rng n seed) (rng.seeded seed)

  -- One round: the predictor sees the features only.
  unfoldable pub evaluate_context :
      (PaymentFeatures → Result (Option PolicyPrediction))
      → SimulatedContext
      → Result SimulatedRecord
  unfolding record_of to_payment_features
  evaluate_context predict c = do
    gt ← generate_ground_truth rng c
    prediction ← predict (to_payment_features c)
    assigned ← selected prediction
    ok (record_of c gt assigned)

  unfoldable pub evaluate_contexts :
      (PaymentFeatures → Result (Option PolicyPrediction))
      → List SimulatedContext
      → Result (List SimulatedRecord)
  unfolding evaluate_context
  evaluate_contexts predict [] = ok []
  evaluate_contexts predict (c ∷ cs) = do
    r ← evaluate_context predict c
    rest ← evaluate_contexts predict cs
    ok (r ∷ rest)

  unfoldable pub evaluate_policy :
      (PaymentFeatures → Result (Option PolicyPrediction)) → ℕ → ℕ → Result (List SimulatedRecord)
  unfolding evaluate_contexts
  evaluate_policy predict n seed = evaluate_contexts predict (generate_contexts rng n seed)
