-- ===== src/Scripts/Calibration.antt =====
-- scripts/evaluate_phase3.py, compute_probability_diagnostics: the learner's probabilities against
-- the truth of the records that they were evaluated on.
use payment_recovery_opportu.Base.{ℕ, Bool, Option, none, some, List, [], ◌∷◌, map}
use payment_recovery_opportu.Base.Table.{length}
use payment_recovery_opportu.Models.{RecoveryAction, Float, pos, bits}
use payment_recovery_opportu.Models.Integers.{minus, int_of}
use payment_recovery_opportu.Session.{Result, ok}
use payment_recovery_opportu.Json.{◌>>=◌}
use payment_recovery_opportu.Numpy.{Numpy}
use payment_recovery_opportu.Learner.{SLearner, predict_probabilities}
use payment_recovery_opportu.Learner.Diagnostics.{near_zero_threshold}
use payment_recovery_opportu.Simulator.{SimulatedRecord, to_payment_features}

-- 1e-7 and 1 - 1e-7
abbrev clip_low : Float
clip_low = bits 4502148214488346440

abbrev clip_high : Float
clip_high = bits 4607182417899297483

-- What the loop appends for a record.
pub record Estimate : Type 0 where
  pub p0_hat : Float
  pub p1_hat : Float
  pub p0_true : Float
  pub p1_true : Float
  pub predicted_uplift : Float
  pub true_uplift : Float

-- An outcome that was observed in an arm, and the probability that was predicted for it.
abbrev pub Observation : Type 0
Observation = Bool × Float

pub record Arms : Type 0 where
  pub estimates : List Estimate
  pub do_nothing : List Observation
  pub link : List Observation

pub record CalibrationReport : Type 0 where
  pub p0_mae_vs_true : Float
  pub p1_mae_vs_true : Float
  pub uplift_mae_vs_true : Float
  pub uplift_spearman_corr : Float
  pub uplift_spearman_pval : Float
  pub uplift_sign_agreement : Float
  pub predicted_uplift_mean : Float
  pub predicted_uplift_median : Float
  pub predicted_uplift_std : Float
  pub predicted_uplift_min : Float
  pub predicted_uplift_max : Float
  pub fraction_positive_uplift : Float
  pub fraction_negative_uplift : Float
  pub fraction_near_zero_uplift : Float
  pub n_do_nothing_arm : ℕ
  pub log_loss_do_nothing_arm : Option Float
  pub brier_do_nothing_arm : Option Float
  pub n_link_arm : ℕ
  pub log_loss_link_arm : Option Float
  pub brier_link_arm : Option Float

abbrev to_do_nothing : RecoveryAction → Observation → List Observation → List Observation
to_do_nothing RecoveryAction.no_action o os = o ∷ os
to_do_nothing _ o os = os

abbrev to_link : RecoveryAction → Observation → List Observation → List Observation
to_link RecoveryAction.send_payment_link o os = o ∷ os
to_link _ o os = os

module _ (np : Numpy) where
  unfoldable pub estimate_of : SimulatedRecord → Float → Float → Estimate
  estimate_of r p0 p1 = record {
    p0_hat = p0;
    p1_hat = p1;
    p0_true = r.ground_truth.p_recovery_do_nothing;
    p1_true = r.ground_truth.p_recovery_link;
    predicted_uplift = np.floats.sub p1 p0;
    true_uplift = np.floats.sub r.ground_truth.p_recovery_link r.ground_truth.p_recovery_do_nothing;
  }

  -- The loop, whose lists are in the order of the records.
  unfoldable pub collect : SLearner → List SimulatedRecord → Result Arms
  unfolding estimate_of to_payment_features
  collect s [] = ok (record { estimates = []; do_nothing = []; link = [] })
  collect s (r ∷ rs) = do
    (p0, p1) ← predict_probabilities s (to_payment_features r.context)
    rest ← collect s rs
    ok (record {
      estimates = estimate_of r p0 p1 ∷ rest.estimates;
      do_nothing = to_do_nothing r.assigned_action (r.observed_outcome, p0) rest.do_nothing;
      link = to_link r.assigned_action (r.observed_outcome, p1) rest.link;
    })

  -- The mean absolute difference of two columns.
  abbrev mean_error : (Estimate → Float) → (Estimate → Float) → List Estimate → Float
  mean_error f g es = np.mean (map (λ e. np.abs (np.floats.sub (f e) (g e))) es)

  abbrev loss_term : Observation → Float
  loss_term (y, p) =
      let fl = np.floats in
      let q = np.clip p clip_low clip_high in
      fl.add (fl.mul (fl.of_int (pos (int_of y))) (np.log q))
        (fl.mul (fl.of_int (minus 1 (int_of y))) (np.log (fl.sub (fl.of_int (pos 1)) q)))

  unfoldable pub log_loss : List Observation → Float
  log_loss os = np.neg (np.mean (map loss_term os))

  -- numpy squares by one multiplication.
  abbrev squared_error : Observation → Float
  squared_error (y, p) =
      let d = np.floats.sub p (np.floats.of_int (pos (int_of y))) in np.floats.mul d d

  unfoldable pub brier : List Observation → Float
  brier os = np.mean (map squared_error os)

  -- `... if observations else None`
  abbrev if_observed : (List Observation → Float) → List Observation → Option Float
  if_observed figure [] = none
  if_observed figure (o ∷ os) = some (figure (o ∷ os))

  unfoldable pub calibration_of : Arms → Result CalibrationReport
  unfolding log_loss brier
  calibration_of arms = do
    let es = arms.estimates
    let predicted = map (λ e. e.predicted_uplift) es
    let zero_float = np.floats.of_int (pos 0)
    (corr, pval) ← np.spearmanr predicted (map (λ e. e.true_uplift) es)
    low ← np.min predicted
    high ← np.max predicted
    ok (record {
      p0_mae_vs_true = mean_error (λ e. e.p0_hat) (λ e. e.p0_true) es;
      p1_mae_vs_true = mean_error (λ e. e.p1_hat) (λ e. e.p1_true) es;
      uplift_mae_vs_true = mean_error (λ e. e.predicted_uplift) (λ e. e.true_uplift) es;
      uplift_spearman_corr = corr;
      uplift_spearman_pval = pval;
      uplift_sign_agreement =
          np.share (map (λ e. np.eq (np.sign e.predicted_uplift) (np.sign e.true_uplift)) es);
      predicted_uplift_mean = np.mean predicted;
      predicted_uplift_median = np.median predicted;
      predicted_uplift_std = np.std predicted;
      predicted_uplift_min = low;
      predicted_uplift_max = high;
      fraction_positive_uplift = np.share (map (λ u. np.floats.lt zero_float u) predicted);
      fraction_negative_uplift = np.share (map (λ u. np.floats.lt u zero_float) predicted);
      fraction_near_zero_uplift =
          np.share (map (λ u. np.floats.lt (np.abs u) near_zero_threshold) predicted);
      n_do_nothing_arm = length arms.do_nothing;
      log_loss_do_nothing_arm = if_observed log_loss arms.do_nothing;
      brier_do_nothing_arm = if_observed brier arms.do_nothing;
      n_link_arm = length arms.link;
      log_loss_link_arm = if_observed log_loss arms.link;
      brier_link_arm = if_observed brier arms.link;
    })

  unfoldable pub compute_probability_diagnostics :
      List SimulatedRecord → SLearner → Result CalibrationReport
  unfolding collect calibration_of
  compute_probability_diagnostics rs s = do arms ← collect s rs; calibration_of arms
