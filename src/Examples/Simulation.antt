-- ===== src/Examples/Simulation.antt =====
-- The simulator and the analysis, on a source of randomness that repeats itself.
use payment_recovery_opportu.Base.{
  ℕ, suc, ◌+◌, ◌-◌, ◌^◌, ◌≡◌, refl, Bool, true, false, Option, none, some, List, [], ◌∷◌, map, ltb,
  if◌then◌else◌, ltb→lt, lt→ltb, text_eq, arith,
}
use payment_recovery_opportu.Models.{Float, bits, pos, RecoveryAction}
use payment_recovery_opportu.Crud.{PolicyPrediction}
use payment_recovery_opportu.Features.{PaymentFeatures}
use payment_recovery_opportu.Models.Integers.{◌+ℤ◌}
use payment_recovery_opportu.Session.{Result, ok, err}
use payment_recovery_opportu.Floats.{FloatOps}
use payment_recovery_opportu.Numpy.{Numpy}
use payment_recovery_opportu.Learner.{SLearner, predict_probabilities}
use payment_recovery_opportu.Policy.{economic_policy_predictor, economic_predict}
use payment_recovery_opportu.Simulator.{SimulatedContext, GroundTruth, SimulatedRecord}
use payment_recovery_opportu.Simulator.Constants.{
  minus_0_05, float_0, float_0_1, float_0_5, float_1, minus_1,
}
use payment_recovery_opportu.Simulator.Random.{Randomness}
use payment_recovery_opportu.Simulator.Engine.{
  generate_context, generate_contexts, generate_ground_truth,
}
use payment_recovery_opportu.Simulator.Runner.{evaluate_policy, record_of}
use payment_recovery_opportu.Simulator.Evaluator.{Metrics, report, no_totals, evaluate_metrics}
use payment_recovery_opportu.Simulator.Balance.{IsReport, evaluate_metrics-IsReport}
use payment_recovery_opportu.Base.Table.{length}
use payment_recovery_opportu.Simulator.Matched.{AreMatched, evaluate_policy-AreMatched}
use payment_recovery_opportu.Learner.{FeatureRow}
use payment_recovery_opportu.Learner.Diagnostics.{
  uplift_diagnostic, predict_uplift_variance_diagnostic,
}
use payment_recovery_opportu.Learner.Agreement.{
  AreUplifts, learner_of, rows_of, predict_uplift_variance_diagnostic-AreUplifts,
}
use payment_recovery_opportu.Simulator.{to_payment_features}
use payment_recovery_opportu.Simulator.Baseline.{totals, evaluate_policy-incremental}
use payment_recovery_opportu.Simulator.Outcomes.{
  IsOrdered, IsMonotone, generate_ground_truth-IsMonotone,
}
use payment_recovery_opportu.Scripts.EvaluatePhase3.{always_do_nothing}
use payment_recovery_opportu.Analysis.Sensitivity.{evaluate_threshold}
use payment_recovery_opportu.Analysis.Sweep.{Estimated, estimated_row, AgreesWith}
use payment_recovery_opportu.Analysis.Learnt.{policy_of, AreEstimated, evaluate_policy-AgreesWith}
use payment_recovery_opportu.Examples.{toy_floats}

-- The order of binary64 by sign and magnitude: where a number stands.
abbrev key : Float → ℕ
key (bits n) = if ltb n (2 ^ 63) then 2 ^ 63 + n else 2 ^ 64 - n

-- Differences that keep their sign only.
abbrev signed_floats : FloatOps
signed_floats = record toy_floats {
  add = λ x y. y;
  sub = λ x y.
      if ltb (key y) (key x) then float_1 else if ltb (key x) (key y) then minus_1 else float_0;
  mul = λ x y. y;
  div = λ x y. y;
  lt = λ x y. ltb (key x) (key y);
}

abbrev repeating : FloatOps → Randomness ℕ
repeating fl = record {
  floats = fl;
  seeded = λ n. n;
  randint = λ low high s. (low, suc s);
  choice = λ n s. (0, suc s);
  choices = λ ws s. (1, suc s);
  gauss = λ mu sigma s. (sigma, suc s);
  random = λ s. (float_0, suc s);
  neg = λ x. x;
  exp = λ x. some x;
  hidden_seed = λ t. 7;
}

signed_floats-IsOrdered : IsOrdered signed_floats
signed_floats-IsOrdered = record {
  lt_trans = λ x y z p q.
      lt→ltb (key x) (key z) (omega (arith, ltb→lt (key x) (key y) p, ltb→lt (key y) (key z) q));
  sub_above = λ x y p. above (ltb (key y) (key x)) (ltb (key x) (key y)) p;
  sub_below = λ x y p. below (ltb (key y) (key x)) (ltb (key x) (key y)) p;
}
  where
    above :
        (b c : Bool)
        → ltb (key float_0_1) (key (if b then float_1 else if c then minus_1 else float_0)) ≡ true
        → b ≡ true
    above true c p = refl
    above false true p = absurd (cc (p))
    above false false p = absurd (cc (p))

    below :
        (b c : Bool)
        → ltb (key (if b then float_1 else if c then minus_1 else float_0)) (key minus_0_05) ≡ true
        → c ≡ true
    below true c p = absurd (cc (p))
    below false true p = refl
    below false false p = absurd (cc (p))

abbrev records_in : Result (List SimulatedRecord) → List SimulatedRecord
records_in (ok rs) = rs
records_in (err e) = []

abbrev truth_in : Result GroundTruth → GroundTruth
truth_in (ok gt) = gt
truth_in (err e) = record {
  p_recovery_do_nothing = float_0;
  p_recovery_link = float_0;
  p_recovery_discount = float_0;
  derived_quadrant = "";
  y_do_nothing = false;
  y_link = false;
  y_discount = false;
  latent_responsiveness = float_0;
  latent_annoyance = float_0;
}

abbrev source : Randomness ℕ
source = repeating signed_floats

abbrev context : SimulatedContext
unfolding generate_context
context = (generate_context source 2000 0 2000).0

abbrev truth : GroundTruth
unfolding generate_ground_truth
truth = truth_in (generate_ground_truth source context)

truth_drawn : generate_ground_truth source context ≡ ok truth
unfolding generate_ground_truth context text_eq
truth_drawn = refl

generate_ground_truth-IsMonotone_example : IsMonotone truth
generate_ground_truth-IsMonotone_example =
    generate_ground_truth-IsMonotone source context truth signed_floats-IsOrdered truth_drawn

abbrev learner : SLearner
learner = record { is_fitted = true; pipeline = some (λ rows. ok (float_0_1 ∷ float_0_5 ∷ [])) }

abbrev numpy : Numpy
numpy = record {
  floats = signed_floats;
  le = λ x y. true;
  abs = λ x. x;
  neg = λ x. x;
  log = λ x. x;
  sign = λ x. x;
  eq = λ x y. true;
  clip = λ x low high. x;
  sum = λ xs. float_0;
  mean = λ xs. float_0;
  share = λ bs. float_0;
  median = λ xs. float_0;
  std = λ xs. float_0;
  min = λ xs. ok float_0;
  max = λ xs. ok float_0;
  spearmanr = λ xs ys. ok (float_0, float_0);
}

abbrev predict : PaymentFeatures → Result (Option PolicyPrediction)
predict = (economic_policy_predictor (policy_of numpy (λ f p0 p1. "") learner)).predict

abbrev evaluated : List SimulatedRecord
unfolding evaluate_policy
evaluated = records_in (evaluate_policy source predict 2 2000)

abbrev unaided : List SimulatedRecord
unfolding evaluate_policy
unaided = records_in (evaluate_policy source always_do_nothing 2 2000)

evaluated-returned : evaluate_policy source predict 2 2000 ≡ ok evaluated
unfolding evaluated evaluate_policy text_eq economic_policy_predictor economic_predict
    predict_probabilities generate_contexts generate_ground_truth
evaluated-returned = refl

unaided-returned : evaluate_policy source always_do_nothing 2 2000 ≡ ok unaided
unfolding unaided evaluate_policy text_eq always_do_nothing generate_contexts generate_ground_truth
unaided-returned = refl

evaluate_policy-incremental_example :
    ((totals signed_floats unaided).empirical_incremental_gross_paise ≡ pos 0)
    × ((totals signed_floats unaided).intervention_cost_paise ≡ 0)
    × ((totals signed_floats evaluated).empirical_incremental_gross_paise
          +ℤ pos (totals signed_floats unaided).gross_recovery_paise
        ≡ pos (totals signed_floats evaluated).gross_recovery_paise)
evaluate_policy-incremental_example =
    evaluate_policy-incremental source signed_floats predict 2 2000 evaluated unaided
      evaluated-returned unaided-returned

evaluate_policy-AreMatched_example :
    AreMatched predict always_do_nothing evaluated unaided × (length evaluated ≡ 2)
evaluate_policy-AreMatched_example =
    evaluate_policy-AreMatched source predict always_do_nothing 2 2000 evaluated unaided
      evaluated-returned unaided-returned

abbrev linked : SimulatedRecord
unfolding record_of
linked = record_of context truth RecoveryAction.send_payment_link

evaluate_metrics-IsReport_example :
    (m : Metrics) × (evaluate_metrics signed_floats (linked ∷ linked ∷ []) ≡ some m)
    × IsReport signed_floats (linked ∷ linked ∷ []) m
evaluate_metrics-IsReport_example = evaluate_metrics-IsReport signed_floats linked (linked ∷ [])

abbrev metrics_in : Option Metrics → Metrics
metrics_in (some m) = m
metrics_in none = report signed_floats 0 no_totals

abbrev figures : Metrics
unfolding evaluate_metrics
figures = metrics_in (evaluate_metrics signed_floats evaluated)

figures-computed : evaluate_metrics signed_floats evaluated ≡ some figures
unfolding figures evaluated evaluate_metrics evaluate_policy text_eq economic_policy_predictor
    economic_predict predict_probabilities generate_contexts generate_ground_truth
figures-computed = refl

evaluate_policy-AgreesWith_example :
    (xs : List Estimated) × AreEstimated source learner (generate_contexts source 2 2000) xs
    × AgreesWith (evaluate_threshold numpy float_0 (map estimated_row xs)) figures
evaluate_policy-AgreesWith_example =
    evaluate_policy-AgreesWith source numpy (λ f p0 p1. "") learner float_0 2 2000 evaluated figures
      (λ f p0 p1 learnt. refl) evaluated-returned figures-computed

-- A pipeline that knows an action from none.
abbrev scored : FeatureRow → Float
scored r = bits (r.action + 1)

predict_uplift_variance_diagnostic-AreUplifts_example :
    (us : List Float) × AreUplifts signed_floats
      (learner_of (λ rows. ok (map scored rows)))
      (to_payment_features context ∷ [])
      us
    × (predict_uplift_variance_diagnostic numpy
          (learner_of (λ rows. ok (map scored rows)))
          (rows_of ((to_payment_features context, RecoveryAction.send_payment_link) ∷ []))
        ≡ uplift_diagnostic numpy us)
predict_uplift_variance_diagnostic-AreUplifts_example =
    predict_uplift_variance_diagnostic-AreUplifts numpy (λ rows. ok (map scored rows)) scored
      ((to_payment_features context, RecoveryAction.send_payment_link) ∷ []) (λ rows. refl)
