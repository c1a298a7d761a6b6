-- ===== src/Learner/Training.antt =====
-- app/ml/training.py and app/ml/models/s_learner.py: the data frame of the training, and `fit`.
use payment_recovery_opportu.Base.{ℕ, true, false, none, some, List, [], ◌∷◌, map}
use payment_recovery_opportu.Models.{Float}
use payment_recovery_opportu.Models.Integers.{int_of}
use payment_recovery_opportu.Session.{Done, Result, ok, err}
use payment_recovery_opportu.Learner.{FeatureRow, features_to_row, SLearner}
use payment_recovery_opportu.Simulator.{SimulatedRecord, to_payment_features}

-- A row with its label.
pub record TrainingRow : Type 0 where
  pub features : FeatureRow
  pub outcome : ℕ

unfoldable pub training_row : SimulatedRecord → TrainingRow
unfolding features_to_row to_payment_features
training_row r = record {
  features = features_to_row (to_payment_features r.context) r.assigned_action;
  outcome = int_of r.observed_outcome;
}

unfoldable pub build_training_dataframe : List SimulatedRecord → List TrainingRow
unfolding training_row
build_training_dataframe [] = []
build_training_dataframe (r ∷ rs) = training_row r ∷ build_training_dataframe rs

-- scikit-learn: `_build_pipeline`, before it is fitted, and its `fit`.
pub record Trainer : Type 0 where
  pub unfitted : List FeatureRow → Result (List Float)
  pub fit_pipeline : List FeatureRow → List ℕ → Result (List FeatureRow → Result (List Float))

unfoldable pub new_learner : SLearner
new_learner = record { is_fitted = false; pipeline = none }

-- The pipeline is assigned before it is fitted, and the flag is set after that.
abbrev with_pipeline :
    Trainer → SLearner → Result (List FeatureRow → Result (List Float)) → Result Done × SLearner
with_pipeline trainer s (err e) =
    (err e, record { is_fitted = s.is_fitted; pipeline = some trainer.unfitted })
with_pipeline trainer s (ok p) = (ok tt, record { is_fitted = true; pipeline = some p })

unfoldable pub fit : Trainer → List TrainingRow → SLearner → Result Done × SLearner
fit trainer df s =
    with_pipeline trainer s
      (trainer.fit_pipeline (map (λ r. r.features) df) (map (λ r. r.outcome) df))
