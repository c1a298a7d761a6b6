-- ===== src/Dashboard/Counts.antt =====
-- How counts of rows compare, and what that says of the figures of the dashboard.
use payment_recovery_opportu.Base.{◌≤◌, ◌≡◌, true, arith}
use payment_recovery_opportu.Base.Count.{count_if-implies, count_if-length}
use payment_recovery_opportu.Models.{Database, RecoveryDecision}
use payment_recovery_opportu.Floats.{FloatOps}
use payment_recovery_opportu.Dashboard.{
  get_live_summary, LiveSummary, is_paid_link, is_executed_link,
}

observed-carried_out : (d : RecoveryDecision) → is_paid_link d ≡ true → is_executed_link d ≡ true
observed-carried_out d h = ground arith

-- The funnel of the summary narrows: a link that was paid counts as one that was executed, and a
-- decision whose link was executed as an opportunity.
pub record IsFunnel (m : LiveSummary) : Type 0 where
  pub paid : m.links_paid ≤ m.links_executed
  pub executed : m.links_executed ≤ m.total_opportunities

-- On any database the summary's figures are in the order of a funnel: no more links paid than links
-- executed, and no more links executed than opportunities.
pub get_live_summary-IsFunnel : (fl : FloatOps) (db : Database) → IsFunnel (get_live_summary fl db)
unfolding get_live_summary
get_live_summary-IsFunnel fl db = record {
  paid = count_if-implies is_paid_link is_executed_link observed-carried_out db.recovery_decisions;
  executed = count_if-length is_executed_link db.recovery_decisions;
}
