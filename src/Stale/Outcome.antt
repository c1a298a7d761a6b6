-- ===== src/Stale/Outcome.antt =====
-- What the recovery of a stale decision comes to, by the answer of the provider.
use payment_recovery_opportu.Base.{ℕ, ◌+◌, ◌≡◌, refl, String, some, leb, inl, inr, Bool-cases}
use payment_recovery_opportu.Base.Text.{exec_reference}
use payment_recovery_opportu.Models.{Database, RecoveryDecision, DecisionStatus}
use payment_recovery_opportu.Session.{
  Session, Done, Error, Result, ok, err, transient, permanent, duplicate_reference, reconciliation,
  ambiguous, integrity, other, ◌>>=◌, ◌>>◌, continue, handle, commit, outside,
}
use payment_recovery_opportu.Crud.{
  get_decision, leave_executing, append_audit_log, executed_with, failed_permanent,
  failed_retryable, with_error, mark_execution_successful, mark_execution_failed_permanent,
  mark_execution_failed_retryable, update_execution_error_only,
}
use payment_recovery_opportu.App.{App}
use payment_recovery_opportu.Retry.{
  max_execution_attempts, calculate_retry, with_jitter, backoff_delay,
}
use payment_recovery_opportu.Execution.{
  error_message, error_type, payment_of, policy_for, settle_failure, fail_by_policy, random_draw,
}
use payment_recovery_opportu.Execution.Outcome.{HasRow, status_after_transient, written_row}
use payment_recovery_opportu.Stale.{
  no_link_found, audit_stale, recover_link, on_no_link, on_mismatch, on_lookup_failure,
  on_recovery_error, reconcile_stale_decision,
}

-- What the recovery answers, and the status it leaves, by the answer to the lookup.
abbrev pub recovered_to : ℕ → Result String → Result Done × DecisionStatus
recovered_to attempts (ok _) = (ok tt, DecisionStatus.executed)
recovered_to attempts (err (ambiguous _ _)) = (ok tt, status_after_transient attempts)
recovered_to attempts (err (reconciliation _ _)) = (ok tt, DecisionStatus.failed)
recovered_to attempts (err (transient _ _)) = (ok tt, DecisionStatus.executing)
recovered_to attempts (err (permanent _ _)) = (ok tt, DecisionStatus.executing)
recovered_to attempts (err e) = (err e, DecisionStatus.executing)

-- The recovery from `db` comes to such an end, with the row committed and no outreach recorded.
abbrev pub IsRecovered :
    ℕ → Database → Result Done × DecisionStatus → Result Done × Session → Type 0
IsRecovered id db (answer, status) r =
    (r.0 ≡ answer)
    × (d : RecoveryDecision) × HasRow id d r.1.committed
    × (d.decision_status ≡ status)
    × (r.1.committed.outreach_events ≡ db.outreach_events)

-- The session of the worker, once its claim is committed.
abbrev pub after_claim : Session → Session
after_claim s = record s { committed = s.current }

module _ (id : ℕ) (d : RecoveryDecision) (s : Session) (row : HasRow id d s.current)
    (busy : d.decision_status ≡ DecisionStatus.executing) where
  on_no_link-IsRecovered :
      (app : App)
      → IsRecovered id s.current
          (ok tt, status_after_transient d.execution_attempts)
          (on_no_link app id s)
  unfolding on_no_link fail_by_policy policy_for random_draw settle_failure calculate_retry
      get_decision mark_execution_failed_permanent mark_execution_failed_retryable leave_executing
      audit_stale append_audit_log commit outside ◌>>=◌
  on_no_link-IsRecovered app = elim (Bool-cases (leb max_execution_attempts d.execution_attempts)) [
    | inl spent ↦
        let now =
          written_row id d (failed_permanent no_link_found (some "STALE_TIMEOUT") d) s.current row
            refl in
        rw row (rw spent (rw row (rw busy (rw now (refl, _, now, refl, refl)))))
    | inr more ↦
        let now =
          written_row id d
            (failed_retryable no_link_found (some "STALE_TIMEOUT")
              (some
                (s.now + 0 + with_jitter (backoff_delay d.execution_attempts) (app.random s.ticks)))
              d)
            s.current row refl in
        rw row (rw more (rw row (rw busy (rw now (refl, _, now, refl, refl)))))
  ]

  on_mismatch-IsRecovered :
      (msg type : String)
      → IsRecovered id s.current
          (ok tt, DecisionStatus.failed)
          (on_mismatch id (reconciliation msg type) s)
  unfolding on_mismatch get_decision mark_execution_failed_permanent leave_executing audit_stale
      append_audit_log commit ◌>>=◌
  on_mismatch-IsRecovered msg type =
      let now = written_row id d (failed_permanent msg (some type) d) s.current row refl in
      rw row (rw busy (rw now (refl, _, now, refl, refl)))

  on_lookup_failure-IsRecovered :
      (e : Error)
      → IsRecovered id s.current (ok tt, DecisionStatus.executing) (on_lookup_failure id e s)
  unfolding on_lookup_failure get_decision update_execution_error_only audit_stale append_audit_log
      commit ◌>>=◌
  on_lookup_failure-IsRecovered e =
      let now =
        written_row id d (with_error (error_message e) (error_type e) d) s.current row refl in
      rw row (rw now (refl, _, now, busy, refl))

  recovery-IsRecovered :
      (app : App) (reply : Result String)
      → HasRow id d s.committed
      → s.committed.outreach_events ≡ s.current.outreach_events
      → (let r =
            continue reply
              (λ _. do
                mark_execution_successful id (exec_reference id)
                audit_stale id "ACTION_EXECUTED" "STALE_RECOVERY_SUCCESS")
              s in
          IsRecovered id s.current
            (recovered_to d.execution_attempts reply)
            (handle r.0 (on_recovery_error app id) r.1))
  unfolding on_recovery_error mark_execution_successful leave_executing get_decision audit_stale
      append_audit_log commit ◌>>=◌
  recovery-IsRecovered app (ok link) stored same =
      let now = written_row id d (executed_with s.now (exec_reference id) d) s.current row refl in
      rw row (rw busy (rw now (refl, _, now, refl, refl)))
  recovery-IsRecovered app (err (ambiguous msg type)) stored same = on_no_link-IsRecovered app
  recovery-IsRecovered app (err (reconciliation msg type)) stored same =
      on_mismatch-IsRecovered msg type
  recovery-IsRecovered app (err (transient msg type)) stored same =
      on_lookup_failure-IsRecovered (transient msg type)
  recovery-IsRecovered app (err (permanent msg type)) stored same =
      on_lookup_failure-IsRecovered (permanent msg type)
  recovery-IsRecovered app (err (duplicate_reference msg type)) stored same =
      (refl, d, stored, busy, same)
  recovery-IsRecovered app (err integrity) stored same = (refl, d, stored, busy, same)
  recovery-IsRecovered app (err (other msg)) stored same = (refl, d, stored, busy, same)

-- The recovery of a claimed EXECUTING decision, by the provider's answer to the lookup: one link
-- found leaves the decision EXECUTED; no link leaves it DECIDED again below 5 attempts and FAILED
-- from 5 on; a mismatch leaves it FAILED; a lookup that fails leaves it EXECUTING. In these cases
-- the recovery returns; any other error is raised, with the decision left EXECUTING. In no case,
-- that of a link included, is an outreach event recorded.
pub reconcile_stale_decision-IsRecovered :
    (app : App) (id : ℕ) (d : RecoveryDecision) (s : Session)
    → HasRow id d s.current
    → d.decision_status ≡ DecisionStatus.executing
    → IsRecovered id s.current
        (recovered_to d.execution_attempts (
          app.executor.reconcile_duplicate_reference s.ticks d
            (payment_of d s.current)
            (exec_reference id)))
        (reconcile_stale_decision app id (after_claim s))
unfolding reconcile_stale_decision recover_link get_decision outside ◌>>=◌
reconcile_stale_decision-IsRecovered app id d s row busy =
    rw row (recovery-IsRecovered id d _ row busy app _ row refl)
