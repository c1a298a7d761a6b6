-- ===== src/Scripts/TrainPhase3.antt =====
-- scripts/train_phase3.py: the learner that is trained on a randomized log, and its diagnostic.
-- The printing is left out, and the writing of the artifact, which follows whatever the diagnostic.
use payment_recovery_opportu.Base.{ℕ, List, [], ◌∷◌, map}
use payment_recovery_opportu.Models.{RecoveryAction, Float}
use payment_recovery_opportu.Session.{Done, Result, ok, err}
use payment_recovery_opportu.Json.{◌>>=◌}
use payment_recovery_opportu.Numpy.{Numpy}
use payment_recovery_opportu.Learner.{SLearner}
use payment_recovery_opportu.Learner.Training.{Trainer, build_training_dataframe, new_learner, fit}
use payment_recovery_opportu.Learner.Diagnostics.{
  UpliftDiagnostic, predict_uplift_variance_diagnostic,
}
use payment_recovery_opportu.Simulator.Constants.{float_0_5}
use payment_recovery_opportu.Simulator.Random.{Randomness}
use payment_recovery_opportu.Simulator.Runner.{generate_logging_dataset}

abbrev pub policy_weights : List (RecoveryAction × Float)
policy_weights =
    (RecoveryAction.no_action, float_0_5) ∷ (RecoveryAction.send_payment_link, float_0_5) ∷ []

abbrev fitted_learner : Result Done × SLearner → Result SLearner
fitted_learner (ok _, s) = ok s
fitted_learner (err e, s) = err e

unfoldable pub train_model :
    {S : Type 0} → Randomness S → Trainer → Numpy → ℕ → ℕ → Result (SLearner × UpliftDiagnostic)
unfolding fit new_learner
train_model rng trainer np n seed = do
  records ← generate_logging_dataset rng n seed policy_weights
  let df = build_training_dataframe records
  model ← fitted_learner (fit trainer df new_learner)
  diag ← predict_uplift_variance_diagnostic np model (map (λ r. r.features) df)
  ok (model, diag)
