-- ===== src/Simulator.antt =====
-- app/simulator: synthetic payments with hidden outcomes, on which a policy is evaluated. This is
-- app/simulator/schemas.py; the children are the engine, the runner and the evaluator.
pub mod Constants
pub mod Random
pub mod Engine
pub mod Runner
pub mod Evaluator
pub mod Balance
pub mod Population
pub mod Matched
pub mod Outcomes
pub mod Baseline
use payment_recovery_opportu.Base.{ℕ, String, Bool, Option}
use payment_recovery_opportu.Models.{RecoveryAction, Float}
use payment_recovery_opportu.Features.{PaymentFeatures}

pub record SimulatedContext : Type 0 where
  pub transaction_id : String
  pub amount_paise : ℕ
  pub currency : String
  pub method : Option String
  pub error_code : Option String
  pub error_reason : Option String
  pub error_source : Option String
  pub error_step : Option String
  pub prior_failure_count : Option ℕ
  pub prior_success_count : Option ℕ
  pub customer_identifier : Option String

unfoldable pub to_payment_features : SimulatedContext → PaymentFeatures
to_payment_features c = record {
  payment_id = c.transaction_id;
  amount_paise = c.amount_paise;
  currency = c.currency;
  method = c.method;
  error_code = c.error_code;
  error_reason = c.error_reason;
  error_source = c.error_source;
  error_step = c.error_step;
  prior_failure_count = c.prior_failure_count;
  prior_success_count = c.prior_success_count;
  customer_identifier = c.customer_identifier;
}

pub record GroundTruth : Type 0 where
  pub p_recovery_do_nothing : Float
  pub p_recovery_link : Float
  pub p_recovery_discount : Float
  pub derived_quadrant : String
  pub y_do_nothing : Bool
  pub y_link : Bool
  pub y_discount : Bool
  pub latent_responsiveness : Float
  pub latent_annoyance : Float

pub record SimulatedRecord : Type 0 where
  pub context : SimulatedContext
  pub ground_truth : GroundTruth
  pub assigned_action : RecoveryAction
  pub intervention_cost_paise : ℕ
  pub observed_outcome : Bool
