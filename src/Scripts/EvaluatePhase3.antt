-- ===== src/Scripts/EvaluatePhase3.antt =====
-- scripts/evaluate_phase3.py: the two baseline policies, and the action rates by hidden quadrant.
use payment_recovery_opportu.Base.{
  ℕ, ◌+◌, String, Option, none, some, List, [], ◌∷◌, map, text_eq, if◌then◌else◌,
}
use payment_recovery_opportu.Models.{RecoveryAction, DecisionStatus, Float, pos}
use payment_recovery_opportu.Models.Integers.{int_of}
use payment_recovery_opportu.Session.{Result, ok}
use payment_recovery_opportu.Crud.{PolicyPrediction, text}
use payment_recovery_opportu.Features.{PaymentFeatures}
use payment_recovery_opportu.Floats.{FloatOps}
use payment_recovery_opportu.Simulator.{SimulatedRecord}
use payment_recovery_opportu.Simulator.Evaluator.{is_link}

-- `AlwaysDoNothingPredictor` and `AlwaysSendLinkPredictor`
abbrev pub baseline_prediction : RecoveryAction → String → String → PolicyPrediction
baseline_prediction kind version reasoning = record {
  decision_status = DecisionStatus.decided;
  selected_action = kind;
  model_version = version;
  reasoning = text reasoning;
  predicted_p0 = none;
  predicted_p1 = none;
  predicted_uplift = none;
  expected_incremental_net_paise = none;
}

unfoldable pub always_do_nothing : PaymentFeatures → Result (Option PolicyPrediction)
always_do_nothing f = ok (
    some (
      baseline_prediction RecoveryAction.no_action "baseline-always-nothing"
        "Baseline: always do nothing."))

unfoldable pub always_send_link : PaymentFeatures → Result (Option PolicyPrediction)
always_send_link f = ok (
    some (
      baseline_prediction RecoveryAction.send_payment_link "baseline-always-link"
        "Baseline: always send payment link."))

pub record QuadrantStats : Type 0 where
  pub total : ℕ
  pub send_link : ℕ

-- The dictionary of the loop, in the order of insertion.
unfoldable pub count_record :
    SimulatedRecord → List (String × QuadrantStats) → List (String × QuadrantStats)
count_record r [] =
    (
      r.ground_truth.derived_quadrant,
      record { total = 1; send_link = int_of (is_link r.assigned_action) },
    )
    ∷ []
count_record r ((q, stats) ∷ rest) =
    if text_eq q r.ground_truth.derived_quadrant
    then (
      q,
      record {
        total = stats.total + 1;
        send_link = stats.send_link + int_of (is_link r.assigned_action);
      },
    )
      ∷ rest
    else (q, stats) ∷ count_record r rest

unfoldable pub count_records :
    List (String × QuadrantStats) → List SimulatedRecord → List (String × QuadrantStats)
unfolding count_record
count_records stats [] = stats
count_records stats (r ∷ rs) = count_records (count_record r stats) rs

pub record ActionRate : Type 0 where
  pub count : ℕ
  pub action_rate : Float
  pub send_link_count : ℕ

abbrev rate_of : FloatOps → String × QuadrantStats → String × ActionRate
rate_of fl (q, stats) = (
  q,
  record {
    count = stats.total;
    action_rate = fl.ratio (pos stats.send_link) (pos stats.total);
    send_link_count = stats.send_link;
  },
)

unfoldable pub compute_quadrant_action_rates :
    FloatOps → List SimulatedRecord → List (String × ActionRate)
unfolding count_records
compute_quadrant_action_rates fl rs = map (rate_of fl) (count_records [] rs)
