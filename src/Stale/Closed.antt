-- ===== src/Stale/Closed.antt =====
-- A stale recovery makes only changes that the specification knows.
use payment_recovery_opportu.Base.{ℕ, String}
use payment_recovery_opportu.Models.{Database}
use payment_recovery_opportu.Session.{Error, ambiguous, reconciliation, transient, permanent}
use payment_recovery_opportu.Session.Keeps.{Keeps, Keeps-raise, keeps_rules}
use payment_recovery_opportu.Change.{IsClosed}
use payment_recovery_opportu.Change.Closed.{append_audit_log-Keeps}
use payment_recovery_opportu.Change.DecisionClosed.{
  get_decision-Keeps, mark_execution_successful-Keeps, mark_execution_failed_permanent-Keeps,
  update_execution_error_only-Keeps,
}
use payment_recovery_opportu.App.{App}
use payment_recovery_opportu.Execution.Closed.{fail_by_policy-Keeps}
use payment_recovery_opportu.Stale.{
  audit_stale, recover_link, on_recovery_error, reconcile_stale_decision,
}

module _ {P : Database → Type 0} (closed : IsClosed P) where
  audit_stale-Keeps : (id : ℕ) (event_type kind : String) → Keeps P (audit_stale id event_type kind)
  unfolding audit_stale
  audit_stale-Keeps id event_type kind =
      search (keeps_rules, get_decision-Keeps, append_audit_log-Keeps closed)

  recover_link-Keeps : (app : App) (id : ℕ) → Keeps P (recover_link app id)
  unfolding recover_link
  recover_link-Keeps app id =
      search
        (keeps_rules, get_decision-Keeps, mark_execution_successful-Keeps closed, audit_stale-Keeps)
        depth 8

  on_recovery_error-Keeps : (app : App) (id : ℕ) (e : Error) → Keeps P (on_recovery_error app id e)
  unfolding on_recovery_error
  on_recovery_error-Keeps app id (ambiguous msg type) =
      search (keeps_rules, fail_by_policy-Keeps closed, audit_stale-Keeps)
  on_recovery_error-Keeps app id (reconciliation msg type) =
      search (keeps_rules, mark_execution_failed_permanent-Keeps closed, audit_stale-Keeps)
  on_recovery_error-Keeps app id (transient msg type) =
      search (keeps_rules, update_execution_error_only-Keeps closed, audit_stale-Keeps)
  on_recovery_error-Keeps app id (permanent msg type) =
      search (keeps_rules, update_execution_error_only-Keeps closed, audit_stale-Keeps)
  on_recovery_error-Keeps app id _ = Keeps-raise _

  pub reconcile_stale_decision-Keeps :
      (app : App) (id : ℕ) → Keeps P (reconcile_stale_decision app id)
  unfolding reconcile_stale_decision
  reconcile_stale_decision-Keeps app id =
      search (keeps_rules, recover_link-Keeps, on_recovery_error-Keeps)
