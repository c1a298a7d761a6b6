-- ===== src/Scripts/EvaluateExperiment.antt =====
-- scripts/evaluate_experiment.py: the decisions of an experiment by their variant. A variant is
-- control or treatment, and a decision without one is counted as legacy. The printing is left out.
use payment_recovery_opportu.Base.{
  ℕ, ◌+◌, ◌==◌, String, ◌&&◌, Option, none, some, List, [], ◌∷◌, ltb, if◌then◌else◌,
}
use payment_recovery_opportu.Base.Table.{find_first}
use payment_recovery_opportu.Base.Text.{truthy}
use payment_recovery_opportu.Models.{Database, RecoveryDecision, PaymentRecord, Variant, Float, pos}
use payment_recovery_opportu.Models.Integers.{int_of}
use payment_recovery_opportu.Floats.{FloatOps, in_rupees}
use payment_recovery_opportu.Features.{column_is}
use payment_recovery_opportu.Dashboard.{is_observed}
use payment_recovery_opportu.Simulator.Constants.{float_0, float_0_5}
use payment_recovery_opportu.Simulator.Evaluator.{is_link}

pub record VariantStats : Type 0 where
  pub assigned : ℕ
  pub recovered : ℕ
  pub links_sent : ℕ
  pub recovered_inr : Float

pub record Stats : Type 0 where
  pub control : VariantStats
  pub treatment : VariantStats
  pub legacy : VariantStats

abbrev no_stats : VariantStats
no_stats = record { assigned = 0; recovered = 0; links_sent = 0; recovered_inr = float_0 }

abbrev pub new_stats : Stats
new_stats = record { control = no_stats; treatment = no_stats; legacy = no_stats }

abbrev change_stats : Option Variant → (VariantStats → VariantStats) → Stats → Stats
change_stats (some Variant.control) f s = record {
  control = f s.control;
  treatment = s.treatment;
  legacy = s.legacy;
}
change_stats (some Variant.treatment) f s = record {
  control = s.control;
  treatment = f s.treatment;
  legacy = s.legacy;
}
change_stats none f s = record { control = s.control; treatment = s.treatment; legacy = f s.legacy }

-- `query.filter(...)`, where a name is given and not empty.
unfoldable pub decisions_of : Option String → List RecoveryDecision → List RecoveryDecision
decisions_of none ds = ds
decisions_of (some name) [] = []
decisions_of (some name) (d ∷ ds) =
    let rest = decisions_of (some name) ds in
    if truthy (some name)
    then (if column_is name d.experiment_name then d ∷ rest else rest)
    else d ∷ rest

-- What is said of the treatment against the control.
pub record Uplift : Type 0 where
  pub abs_diff : Float
  -- where the control's rate is positive
  pub rel_diff : Option Float
  pub ctrl_net : Float
  pub trt_net : Float
  pub total_incremental_value : Float

module _ (fl : FloatOps) where
  -- `if pr and pr.amount`
  abbrev plus_amount : Option PaymentRecord → Float → Float
  plus_amount none total = total
  plus_amount (some r) total =
      if r.amount == 0 then total else fl.add total (in_rupees fl (pos r.amount))

  unfoldable pub count_decision : Database → RecoveryDecision → VariantStats → VariantStats
  count_decision db d s = record {
    assigned = s.assigned + 1;
    recovered = if is_observed d.decision_status then s.recovered + 1 else s.recovered;
    links_sent = s.links_sent + int_of (is_link d.selected_action);
    recovered_inr =
        if is_observed d.decision_status
        then plus_amount (find_first (λ r. r.id == d.payment_record_id) db.payment_records)
            s.recovered_inr
        else s.recovered_inr;
  }

  unfoldable pub count_decisions : Database → List RecoveryDecision → Stats → Stats
  unfolding count_decision
  count_decisions db [] s = s
  count_decisions db (d ∷ ds) s =
      count_decisions db ds (change_stats d.experiment_variant (count_decision db d) s)

  -- The recovered revenue less half a rupee for each link.
  abbrev net_inr : VariantStats → Float
  net_inr s = fl.sub s.recovered_inr (fl.mul (fl.of_int (pos s.links_sent)) float_0_5)

  unfoldable pub causal_uplift : VariantStats → VariantStats → Option Uplift
  causal_uplift ctrl trt =
      if ltb 0 ctrl.assigned && ltb 0 trt.assigned
      then (let ctrl_rate = fl.ratio (pos ctrl.recovered) (pos ctrl.assigned) in
          let trt_rate = fl.ratio (pos trt.recovered) (pos trt.assigned) in
          let abs_diff = fl.sub trt_rate ctrl_rate in
          let of_n = λ (s : VariantStats). fl.of_int (pos s.assigned) in
          let per_user =
            fl.sub (fl.div (net_inr trt) (of_n trt)) (fl.div (net_inr ctrl) (of_n ctrl)) in
          some (record {
            abs_diff = abs_diff;
            rel_diff =
                if fl.lt (fl.of_int (pos 0)) ctrl_rate
                then some (fl.div abs_diff ctrl_rate)
                else none;
            ctrl_net = net_inr ctrl;
            trt_net = net_inr trt;
            total_incremental_value = fl.mul per_user (of_n trt);
          }))
      else none

  abbrev pub evaluated : Database → List RecoveryDecision → Option (Stats × Option Uplift)
  unfolding count_decisions causal_uplift
  evaluated db [] = none
  evaluated db (d ∷ ds) =
      let s = count_decisions db (d ∷ ds) new_stats in some (s, causal_uplift s.control s.treatment)

  -- `none` where there are no decisions.
  unfoldable pub evaluate_experiment : Option String → Database → Option (Stats × Option Uplift)
  unfolding decisions_of
  evaluate_experiment name db = evaluated db (decisions_of name db.recovery_decisions)
