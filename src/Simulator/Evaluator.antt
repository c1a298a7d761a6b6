-- ===== src/Simulator/Evaluator.antt =====
-- app/simulator/evaluator.py: the metrics of a batch of records. The dictionary of the quadrants is
-- an association list in the order of insertion.
use payment_recovery_opportu.Base.{
  ℕ, suc, ◌+◌, String, Bool, true, false, Option, none, some, List, [], ◌∷◌, text_eq, if◌then◌else◌,
}
use payment_recovery_opportu.Base.Table.{length}
use payment_recovery_opportu.Models.{RecoveryAction, Float, ℤ, pos}
use payment_recovery_opportu.Models.Integers.{minus, int_of, ◌+ℤ◌, ◌-ℤ◌, ◌*ℤ◌}
use payment_recovery_opportu.Floats.{FloatOps, in_rupees}
use payment_recovery_opportu.Simulator.{GroundTruth, SimulatedRecord}
use payment_recovery_opportu.Simulator.Constants.{float_0}

pub record QuadrantMetrics : Type 0 where
  pub count : ℕ
  pub assigned_links : ℕ
  pub empirical_gross_recovery_inr : Float
  pub intervention_cost_inr : Float
  pub empirical_incremental_net_inr : Float
  pub analytical_incremental_net_inr : Float

abbrev pub new_quadrant : QuadrantMetrics
new_quadrant = record {
  count = 0;
  assigned_links = 0;
  empirical_gross_recovery_inr = float_0;
  intervention_cost_inr = float_0;
  empirical_incremental_net_inr = float_0;
  analytical_incremental_net_inr = float_0;
}

abbrev pub Quadrants : Type 0
Quadrants = List (String × QuadrantMetrics)

-- The entry of a quadrant is changed, and made first if there is none.
unfoldable pub change_quadrant :
    String → (QuadrantMetrics → QuadrantMetrics) → Quadrants → Quadrants
change_quadrant q f [] = (q, f new_quadrant) ∷ []
change_quadrant q f ((k, m) ∷ rest) =
    if text_eq k q then (k, f m) ∷ rest else (k, m) ∷ change_quadrant q f rest

abbrev pub is_link : RecoveryAction → Bool
is_link RecoveryAction.send_payment_link = true
is_link _ = false

unfoldable pub p_chosen : GroundTruth → RecoveryAction → Float
p_chosen gt RecoveryAction.no_action = gt.p_recovery_do_nothing
p_chosen gt RecoveryAction.send_payment_link = gt.p_recovery_link
p_chosen gt RecoveryAction.send_payment_link_with_discount = gt.p_recovery_discount

-- (int(y_assigned) - int(y_baseline)) * amount_paise
unfoldable pub emp_inc_gross : SimulatedRecord → ℤ
emp_inc_gross r =
    minus (int_of r.observed_outcome) (int_of r.ground_truth.y_do_nothing) *ℤ r.context.amount_paise

unfoldable pub emp_inc_net : SimulatedRecord → ℤ
unfolding emp_inc_gross
emp_inc_net r = emp_inc_gross r -ℤ r.intervention_cost_paise

-- What the loop has added up.
pub record Totals : Type 0 where
  pub gross_recovery_paise : ℕ
  pub intervention_cost_paise : ℕ
  pub recovered_count : ℕ
  pub empirical_incremental_gross_paise : ℤ
  pub empirical_incremental_net_paise : ℤ
  pub analytical_incremental_gross_paise : Float
  pub analytical_incremental_net_paise : Float
  pub quadrants : Quadrants

abbrev pub no_totals : Totals
no_totals = record {
  gross_recovery_paise = 0;
  intervention_cost_paise = 0;
  recovered_count = 0;
  empirical_incremental_gross_paise = pos 0;
  empirical_incremental_net_paise = pos 0;
  analytical_incremental_gross_paise = float_0;
  analytical_incremental_net_paise = float_0;
  quadrants = [];
}

pub record Metrics : Type 0 where
  pub n_transactions : ℕ
  pub recovery_rate : Float
  pub empirical_gross_recovery_inr : Float
  pub intervention_cost_inr : Float
  pub empirical_incremental_gross_inr : Float
  pub empirical_incremental_net_inr : Float
  pub analytical_incremental_gross_inr : Float
  pub analytical_incremental_net_inr : Float
  pub empirical_incremental_net_inr_per_1000 : Float
  pub quadrants : Quadrants

module _ (fl : FloatOps) where
  unfoldable pub ana_inc_gross : SimulatedRecord → Float
  unfolding p_chosen
  ana_inc_gross r =
      let amount = fl.of_int (pos r.context.amount_paise) in
      fl.sub (fl.mul amount (p_chosen r.ground_truth r.assigned_action))
        (fl.mul amount r.ground_truth.p_recovery_do_nothing)

  unfoldable pub ana_inc_net : SimulatedRecord → Float
  unfolding ana_inc_gross
  ana_inc_net r = fl.sub (ana_inc_gross r) (fl.of_int (pos r.intervention_cost_paise))

  -- What a record adds to the entry of its quadrant.
  unfoldable pub add_to_quadrant : SimulatedRecord → QuadrantMetrics → QuadrantMetrics
  unfolding emp_inc_net ana_inc_net
  add_to_quadrant r q = record {
    count = q.count + 1;
    assigned_links = q.assigned_links + int_of (is_link r.assigned_action);
    empirical_gross_recovery_inr =
        if r.observed_outcome
        then fl.add q.empirical_gross_recovery_inr (in_rupees fl (pos r.context.amount_paise))
        else q.empirical_gross_recovery_inr;
    intervention_cost_inr =
        fl.add q.intervention_cost_inr (in_rupees fl (pos r.intervention_cost_paise));
    empirical_incremental_net_inr =
        fl.add q.empirical_incremental_net_inr (in_rupees fl (emp_inc_net r));
    analytical_incremental_net_inr =
        fl.add q.analytical_incremental_net_inr (fl.div (ana_inc_net r) (fl.of_int (pos 100)));
  }

  -- One round of the loop.
  unfoldable pub add_record : Totals → SimulatedRecord → Totals
  unfolding add_to_quadrant change_quadrant
  add_record t r = record {
    gross_recovery_paise =
        if r.observed_outcome
        then t.gross_recovery_paise + r.context.amount_paise
        else t.gross_recovery_paise;
    intervention_cost_paise = t.intervention_cost_paise + r.intervention_cost_paise;
    recovered_count = if r.observed_outcome then suc t.recovered_count else t.recovered_count;
    empirical_incremental_gross_paise = t.empirical_incremental_gross_paise +ℤ emp_inc_gross r;
    empirical_incremental_net_paise = t.empirical_incremental_net_paise +ℤ emp_inc_net r;
    analytical_incremental_gross_paise =
        fl.add t.analytical_incremental_gross_paise (ana_inc_gross r);
    analytical_incremental_net_paise = fl.add t.analytical_incremental_net_paise (ana_inc_net r);
    quadrants = change_quadrant r.ground_truth.derived_quadrant (add_to_quadrant r) t.quadrants;
  }

  unfoldable pub add_records : Totals → List SimulatedRecord → Totals
  unfolding add_record
  add_records t [] = t
  add_records t (r ∷ rs) = add_records (add_record t r) rs

  -- The report of the totals of `n` records.
  unfoldable pub report : ℕ → Totals → Metrics
  report n t = record {
    n_transactions = n;
    recovery_rate = fl.ratio (pos t.recovered_count) (pos n);
    empirical_gross_recovery_inr = in_rupees fl (pos t.gross_recovery_paise);
    intervention_cost_inr = in_rupees fl (pos t.intervention_cost_paise);
    empirical_incremental_gross_inr = in_rupees fl t.empirical_incremental_gross_paise;
    empirical_incremental_net_inr = in_rupees fl t.empirical_incremental_net_paise;
    analytical_incremental_gross_inr =
        fl.div t.analytical_incremental_gross_paise (fl.of_int (pos 100));
    analytical_incremental_net_inr =
        fl.div t.analytical_incremental_net_paise (fl.of_int (pos 100));
    empirical_incremental_net_inr_per_1000 =
        fl.mul (fl.div (in_rupees fl t.empirical_incremental_net_paise) (fl.of_int (pos n)))
          (fl.of_int (pos 1000));
    quadrants = t.quadrants;
  }

  -- `none` is the empty dictionary, for no records.
  unfoldable pub evaluate_metrics : List SimulatedRecord → Option Metrics
  unfolding add_records report
  evaluate_metrics [] = none
  evaluate_metrics (r ∷ rs) = some (report (length (r ∷ rs)) (add_records no_totals (r ∷ rs)))
