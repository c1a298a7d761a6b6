-- ===== src/Stale.antt =====
-- app/stale_recovery.py: a decision that was left in EXECUTING is reconciled with the provider.
pub mod Closed
pub mod Outcome
pub mod Pace
pub mod Timing
pub mod Race
use payment_recovery_opportu.Base.{ℕ, String, Bool, Option, some, if◌then◌else◌}
use payment_recovery_opportu.Base.Text.{exec_reference}
use payment_recovery_opportu.Session.{
  M, Done, Error, transient, permanent, reconciliation, ambiguous, raise, ◌>>=◌, ◌>>◌, try_except,
  commit, database, outside,
}
use payment_recovery_opportu.Crud.{
  get_decision, mark_execution_successful, mark_execution_failed_permanent,
  update_execution_error_only, append_audit_log,
}
use payment_recovery_opportu.App.{App}
use payment_recovery_opportu.Execution.{error_message, error_type, payment_of, fail_by_policy}

abbrev pub no_link_found : String
no_link_found = "Stale execution timeout (no link found)"

-- The audit of each way out, under the payment of the decision.
unfoldable pub audit_stale : ℕ → String → String → M Done
audit_stale id event_type action = do
  d ← get_decision id
  append_audit_log event_type action (some d.payment_record_id)
  commit

-- Case A: one link was found.
unfoldable pub recover_link : App → ℕ → M Done
unfolding audit_stale
recover_link app id = do
  d ← get_decision id
  db ← database
  _ ←
      outside app.executor.elapsed
        λ k. app.executor.reconcile_duplicate_reference k d (payment_of d db) (exec_reference id)
  mark_execution_successful id (exec_reference id)
  audit_stale id "ACTION_EXECUTED" "STALE_RECOVERY_SUCCESS"

-- Case B: there is no link, and the policy for a transient error decides.
unfoldable pub on_no_link : App → ℕ → M Done
unfolding audit_stale
on_no_link app id = do
  retryable ←
      fail_by_policy app id (transient no_link_found "STALE_TIMEOUT") no_link_found
        (some "STALE_TIMEOUT")
  audit_stale id "ACTION_EXECUTION_FAILED"
      (if retryable then "STALE_RECOVERY_RETRYABLE" else "STALE_RECOVERY_PERMANENT_LIMIT_REACHED")

-- Case C: a link that does not match, or several.
unfoldable pub on_mismatch : ℕ → Error → M Done
unfolding audit_stale
on_mismatch id e = do
  mark_execution_failed_permanent id (error_message e) (error_type e)
  audit_stale id "ACTION_EXECUTION_FAILED" "STALE_RECOVERY_MISMATCH"

-- Case D: the lookup failed, and the decision stays in EXECUTING.
unfoldable pub on_lookup_failure : ℕ → Error → M Done
unfolding audit_stale
on_lookup_failure id e = do
  update_execution_error_only id (error_message e) (error_type e)
  audit_stale id "ACTION_EXECUTION_FAILED" "STALE_RECOVERY_LOOKUP_FAILED"

unfoldable pub on_recovery_error : App → ℕ → Error → M Done
unfolding on_no_link on_mismatch on_lookup_failure
on_recovery_error app id (ambiguous msg type) = on_no_link app id
on_recovery_error app id (reconciliation msg type) = on_mismatch id (reconciliation msg type)
on_recovery_error app id (transient msg type) = on_lookup_failure id (transient msg type)
on_recovery_error app id (permanent msg type) = on_lookup_failure id (permanent msg type)
on_recovery_error app id e = raise e

unfoldable pub reconcile_stale_decision : App → ℕ → M Done
unfolding recover_link on_recovery_error
reconcile_stale_decision app id = try_except (recover_link app id) (on_recovery_error app id)
