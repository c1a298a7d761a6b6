-- ===== src/Dashboard/Page.antt =====
-- app/dashboard.py and app/simulation_evidence.py: the figures that the page shows. The texts and
-- the layout are left out, and the latest ten decisions, which the page reads by a query in SQL.
use payment_recovery_opportu.Base.{
  ℕ, ◌+◌, ◌&&◌, Bool, true, false, not, String, Option, none, some, ltb, if◌then◌else◌,
}
use payment_recovery_opportu.Models.{Database, AuditLog, Float, pos, bits}
use payment_recovery_opportu.Session.{Result, ok, err}
use payment_recovery_opportu.Floats.{FloatOps}
use payment_recovery_opportu.Numpy.{Numpy}
use payment_recovery_opportu.Simulator.Constants.{float_0}
use payment_recovery_opportu.Dashboard.{
  LiveSummary, get_live_summary, ExperimentMetrics, get_experiment_metrics, get_economic_impact,
  GuardrailMetrics, get_guardrail_metrics,
}

pub record LiveFigures : Type 0 where
  pub db_connected : Bool
  pub summary : LiveSummary
  pub experiment : ExperimentMetrics
  pub economic : Float
  pub guardrails : GuardrailMetrics

-- What the page shows where the database answers with an error: the ints 0 of the rates stand as
-- the float that equals them.
abbrev no_figures : LiveFigures
no_figures = record {
  db_connected = false;
  summary = record {
    total_failed = 0;
    total_opportunities = 0;
    links_executed = 0;
    links_paid = 0;
    recovered_revenue_inr = float_0;
  };
  experiment = record {
    control_n = 0;
    control_recovered = 0;
    control_rate = float_0;
    treatment_n = 0;
    treatment_recovered = 0;
    treatment_rate = float_0;
    intervention_rate = float_0;
    observed_uplift = none;
  };
  economic = float_0;
  guardrails = record { duplicate_blocks = 0; cooldown_blocks = 0; fallback_blocks = 0 };
}

-- `connected` is the database, or the error that a query raised.
unfoldable pub live_figures : FloatOps → (String → AuditLog → Bool) → Result Database → LiveFigures
live_figures fl reason_like (err e) = no_figures
live_figures fl reason_like (ok db) = record {
  db_connected = true;
  summary = get_live_summary fl db;
  experiment = get_experiment_metrics fl db;
  economic = get_economic_impact fl db;
  guardrails = get_guardrail_metrics reason_like db;
}

-- "Guardrail Blocks"
unfoldable pub guardrail_blocks : GuardrailMetrics → ℕ
guardrail_blocks g = g.duplicate_blocks + g.cooldown_blocks + g.fallback_blocks

-- "Observed Experimental Uplift", in percentage points, for 30 decisions or more in both arms.
unfoldable pub shown_uplift : FloatOps → ExperimentMetrics → Option Float
shown_uplift fl e =
    if not (ltb e.control_n 30) && not (ltb e.treatment_n 30)
    then some (fl.mul (fl.sub e.treatment_rate e.control_rate) (fl.of_int (pos 100)))
    else none

-- "Control Recovery", in percent, where there is a decision in the control arm.
unfoldable pub shown_control_rate : FloatOps → ExperimentMetrics → Option Float
shown_control_rate fl e =
    if ltb 0 e.control_n then some (fl.mul e.control_rate (fl.of_int (pos 100))) else none

-- `PHASE3_SIMULATION_EVIDENCE`
pub record SimulationEvidence : Type 0 where
  pub transaction_count : ℕ
  pub evaluation_seed : ℕ
  pub ai_policy_incremental_net_inr : Float
  pub always_link_incremental_net_inr : Float
  pub always_link_sleeping_dog_loss_inr : Float
  pub ai_policy_sleeping_dog_loss_inr : Float

abbrev pub phase3_simulation_evidence : SimulationEvidence
phase3_simulation_evidence = record {
  transaction_count = 10000;
  evaluation_seed = 2000;
  ai_policy_incremental_net_inr = bits 4703332086080413368;
  always_link_incremental_net_inr = bits 4702268789853100442;
  always_link_sleeping_dog_loss_inr = bits 13917805255984152576;
  ai_policy_sleeping_dog_loss_inr = bits 13900936668849897472;
}

unfoldable pub incremental_value_vs_always_link : FloatOps → SimulationEvidence → Float
incremental_value_vs_always_link fl e =
    fl.sub e.ai_policy_incremental_net_inr e.always_link_incremental_net_inr

unfoldable pub sleeping_dog_loss_avoided : Numpy → SimulationEvidence → Float
sleeping_dog_loss_avoided np e =
    np.floats.sub (np.abs e.always_link_sleeping_dog_loss_inr)
      (np.abs e.ai_policy_sleeping_dog_loss_inr)
