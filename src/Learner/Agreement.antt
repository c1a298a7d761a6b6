-- ===== src/Learner/Agreement.antt =====
-- The diagnostic of a batch against the predictions of its single payments.
use payment_recovery_opportu.Base.{◌≡◌, ◌∙◌, refl, ap, true, some, List, [], ◌∷◌, map}
use payment_recovery_opportu.Models.{RecoveryAction, Float}
use payment_recovery_opportu.Session.{Result, ok}
use payment_recovery_opportu.Features.{PaymentFeatures}
use payment_recovery_opportu.Floats.{FloatOps}
use payment_recovery_opportu.Numpy.{Numpy}
use payment_recovery_opportu.Learner.{
  FeatureRow, features_to_row, action_encoding, SLearner, predict_probabilities,
}
use payment_recovery_opportu.Learner.Diagnostics.{
  predict_batch_probabilities, with_action, differences, uplift_diagnostic,
  predict_uplift_variance_diagnostic,
}

-- The uplift of each payment: the difference of the probabilities that are predicted for it alone.
abbrev pub AreUplifts : FloatOps → SLearner → List PaymentFeatures → List Float → Type 0
AreUplifts fl s [] [] = Unit
AreUplifts fl s [] (u ∷ us) = ⊥
AreUplifts fl s (f ∷ fs) [] = ⊥
AreUplifts fl s (f ∷ fs) (u ∷ us) =
    ((p0 p1 : Float) × (predict_probabilities s f ≡ ok (p0, p1)) × (u ≡ fl.sub p1 p0))
    × AreUplifts fl s fs us

-- A fitted pipeline.
abbrev pub learner_of : (List FeatureRow → Result (List Float)) → SLearner
learner_of p = record { is_fitted = true; pipeline = some p }

-- The rows of payments with the actions that they were assigned.
abbrev pub rows_of : List (PaymentFeatures × RecoveryAction) → List FeatureRow
rows_of xs = map (λ x. features_to_row x.0 x.1) xs

with_action-features_to_row :
    (f : PaymentFeatures) (a b : RecoveryAction)
    → with_action (action_encoding b) (features_to_row f a) ≡ features_to_row f b
unfolding with_action features_to_row
with_action-features_to_row f a b = refl

module _ (np : Numpy) (p : List FeatureRow → Result (List Float)) (score : FeatureRow → Float)
    (by_row : (rows : List FeatureRow) → p rows ≡ ok (map score rows)) where
  scores : RecoveryAction → List (PaymentFeatures × RecoveryAction) → List Float
  scores b xs = map (λ x. score (features_to_row x.0 b)) xs

  uplifts : List (PaymentFeatures × RecoveryAction) → List Float
  uplifts xs =
      map
        (λ x.
          np.floats.sub (score (features_to_row x.0 RecoveryAction.send_payment_link))
            (score (features_to_row x.0 RecoveryAction.no_action)))
        xs

  scored_alike :
      (b : RecoveryAction) (xs : List (PaymentFeatures × RecoveryAction))
      → map score (map (with_action (action_encoding b)) (rows_of xs)) ≡ scores b xs
  unfolding scores
  scored_alike b [] = refl
  scored_alike b ((f, a) ∷ xs) =
      rw (with_action-features_to_row f a b)
        (ap (λ ys. score (features_to_row f b) ∷ ys) (scored_alike b xs))

  batch_scores :
      (b : RecoveryAction) (xs : List (PaymentFeatures × RecoveryAction))
      → predict_batch_probabilities
          (learner_of p)
          (map (with_action (action_encoding b)) (rows_of xs))
        ≡ ok (scores b xs)
  unfolding predict_batch_probabilities
  batch_scores b xs = by_row _ ∙ ap ok (scored_alike b xs)

  differences-scores :
      (xs : List (PaymentFeatures × RecoveryAction))
      → differences np.floats
          (scores RecoveryAction.send_payment_link xs)
          (scores RecoveryAction.no_action xs)
        ≡ ok (uplifts xs)
  unfolding differences scores uplifts
  differences-scores [] = refl
  differences-scores (x ∷ xs) = rw (differences-scores xs) refl

  predicted_alone :
      (f : PaymentFeatures)
      → predict_probabilities (learner_of p) f
        ≡ ok (
          score (features_to_row f RecoveryAction.no_action),
          score (features_to_row f RecoveryAction.send_payment_link),
        )
  unfolding predict_probabilities
  predicted_alone f =
      rw
        (by_row (
          features_to_row f RecoveryAction.no_action
          ∷ features_to_row f RecoveryAction.send_payment_link
          ∷ []))
        refl

  uplifts-AreUplifts :
      (xs : List (PaymentFeatures × RecoveryAction))
      → AreUplifts np.floats (learner_of p) (map (λ x. x.0) xs) (uplifts xs)
  unfolding uplifts
  uplifts-AreUplifts [] = tt
  uplifts-AreUplifts ((f, a) ∷ xs) = ((_, _, predicted_alone f, refl), uplifts-AreUplifts xs)

-- Where the pipeline gives each row of a batch a probability of its own, the diagnostic of a batch
-- reports on the uplifts that the policy would decide by: whatever actions the payments of the batch
-- were assigned, its figures are those of the differences P1 - P0 that are predicted for each payment
-- alone, in their order.
pub predict_uplift_variance_diagnostic-AreUplifts :
    (np : Numpy) (p : List FeatureRow → Result (List Float)) (score : FeatureRow → Float)
    (xs : List (PaymentFeatures × RecoveryAction))
    → ((rows : List FeatureRow) → p rows ≡ ok (map score rows))
    → (us : List Float) × AreUplifts np.floats (learner_of p) (map (λ x. x.0) xs) us
      × (predict_uplift_variance_diagnostic np (learner_of p) (rows_of xs)
          ≡ uplift_diagnostic np us)
unfolding predict_uplift_variance_diagnostic
predict_uplift_variance_diagnostic-AreUplifts np p score xs by_row = (
  uplifts np p score by_row xs,
  uplifts-AreUplifts np p score by_row xs,
  rw (batch_scores np p score by_row RecoveryAction.no_action xs) (
      rw (batch_scores np p score by_row RecoveryAction.send_payment_link xs)
        (rw (differences-scores np p score by_row xs) refl)),
)
