-- ===== src/Execution/Outcome.antt =====
-- What an execution comes to, by the answers of the provider.
use payment_recovery_opportu.Base.{
  ℕ, suc, ◌≡◌, refl, String, some, leb, if◌then◌else◌, inl, inr, Bool-cases, Option-cases,
}
use payment_recovery_opportu.Base.Table.{find_first, find_first-holds, find_first-replace_self}
use payment_recovery_opportu.Base.Text.{exec_reference}
use payment_recovery_opportu.Models.{Database, PaymentRecord, RecoveryDecision, DecisionStatus}
use payment_recovery_opportu.Session.{
  Session, M, Done, Error, Result, ok, err, transient, permanent, duplicate_reference,
  reconciliation, ambiguous, integrity, other, ◌>>=◌, commit, inc, outside, handle, continue,
}
use payment_recovery_opportu.Crud.{
  has_id, get_decision, leave_executing, write_decision, append_audit_log, executed_with,
  mark_execution_successful, create_customer_outreach_event, mark_execution_failed_permanent,
  mark_execution_failed_retryable,
}
use payment_recovery_opportu.App.{App}
use payment_recovery_opportu.Retry.{max_execution_attempts, calculate_retry}
use payment_recovery_opportu.Guardrails.{normalized_identifier}
use payment_recovery_opportu.Execution.{
  payment_of, policy_for, settle_failure, fail_by_policy, audit_failure, on_transient, on_permanent,
  finish_link, record_outreach, on_unexpected, on_duplicate, reconcile_link, on_reconcile_error,
  on_create_error, create_link, random_draw, execute_recovery_decision,
}

abbrev pub HasRow : ℕ → RecoveryDecision → Database → Type 0
HasRow id d db = find_first (has_id id) db.recovery_decisions ≡ some d

-- The call of the provider that creates the link, as this session makes it.
abbrev pub create_reply : App → ℕ → RecoveryDecision → Session → Result String
create_reply app id d s =
    app.executor.create_payment_link s.ticks d (payment_of d s.current) (exec_reference id)

-- The call that looks for an existing link, if the first call meets its reference.
abbrev pub reconcile_reply : App → ℕ → RecoveryDecision → Session → Result String
reconcile_reply app id d s =
    app.executor.reconcile_duplicate_reference (suc s.ticks) d (payment_of d s.current)
      (exec_reference id)

-- A transient error: DECIDED again for a retry, until the attempts are used up.
abbrev pub status_after_transient : ℕ → DecisionStatus
status_after_transient attempts =
    if leb max_execution_attempts attempts then DecisionStatus.failed else DecisionStatus.decided

-- What the execution answers, and the status it leaves, by the answer to the second call.
abbrev pub reconciled : ℕ → Result String → Result Done × DecisionStatus
reconciled attempts (ok _) = (ok tt, DecisionStatus.executed)
reconciled attempts (err (transient _ _)) = (ok tt, status_after_transient attempts)
reconciled attempts (err (permanent _ _)) = (ok tt, DecisionStatus.failed)
reconciled attempts (err (reconciliation _ _)) = (ok tt, DecisionStatus.failed)
reconciled attempts (err e) = (err e, DecisionStatus.executing)

-- And by the answers to both.
abbrev pub executed_to : ℕ → Result String → Result String → Result Done × DecisionStatus
executed_to attempts (ok _) second = (ok tt, DecisionStatus.executed)
executed_to attempts (err (transient _ _)) second = (ok tt, status_after_transient attempts)
executed_to attempts (err (permanent _ _)) second = (ok tt, DecisionStatus.failed)
executed_to attempts (err (duplicate_reference _ _)) second = reconciled attempts second
executed_to attempts (err _) second = (ok tt, DecisionStatus.executing)

-- A method has come to such an end, with the row of the decision committed.
abbrev pub IsSettled : ℕ → Result Done × DecisionStatus → Result Done × Session → Type 0
IsSettled id (answer, status) r =
    (r.0 ≡ answer)
    × (d : RecoveryDecision) × HasRow id d r.1.committed
    × (d.decision_status ≡ status)

module _ (id : ℕ) (d : RecoveryDecision) where
  pub written_row :
      (d' : RecoveryDecision) (db : Database)
      → HasRow id d db
      → d'.id ≡ d.id
      → HasRow id d' (write_decision (has_id id) d' db)
  written_row d' db row same =
      find_first-replace_self (has_id id) d' db.recovery_decisions d row
        (rw same (find_first-holds (has_id id) db.recovery_decisions d row))

module _ (id : ℕ) (d : RecoveryDecision) (payment : PaymentRecord) (s : Session)
    (row : HasRow id d s.current) (busy : d.decision_status ≡ DecisionStatus.executing) where
  on_permanent-IsSettled :
      (label : String) (e : Error)
      → IsSettled id (ok tt, DecisionStatus.failed) (on_permanent id payment label e s)
  unfolding on_permanent mark_execution_failed_permanent leave_executing get_decision audit_failure
      append_audit_log commit inc ◌>>=◌
  on_permanent-IsSettled label e =
      rw row (rw busy (refl, _, written_row id d _ s.current row refl, refl))

  on_unexpected-IsSettled : IsSettled id (ok tt, DecisionStatus.executing) (on_unexpected payment s)
  unfolding on_unexpected audit_failure append_audit_log commit inc ◌>>=◌
  on_unexpected-IsSettled = (refl, d, row, busy)

  on_transient-IsSettled :
      (app : App) (retried limited msg type : String)
      → IsSettled id
          (ok tt, status_after_transient d.execution_attempts)
          (on_transient app id payment retried limited (transient msg type) s)
  unfolding on_transient fail_by_policy policy_for random_draw settle_failure calculate_retry
      get_decision mark_execution_failed_permanent mark_execution_failed_retryable leave_executing
      audit_failure append_audit_log commit outside inc ◌>>=◌
  on_transient-IsSettled app retried limited msg type =
      elim (Bool-cases (leb max_execution_attempts d.execution_attempts)) [
        | inl spent ↦
            rw row
              (rw spent (rw row (rw busy (refl, _, written_row id d _ s.current row refl, refl))))
        | inr more ↦
            rw row
              (rw more (rw row (rw busy (refl, _, written_row id d _ s.current row refl, refl))))
      ]

  finish_link-IsSettled :
      (app : App) (label : String)
      → IsSettled id (ok tt, DecisionStatus.executed) (finish_link app id payment label s)
  unfolding finish_link mark_execution_successful record_outreach create_customer_outreach_event
      leave_executing get_decision append_audit_log commit inc ◌>>=◌
  finish_link-IsSettled app label =
      let now_executed =
        written_row id d (executed_with s.now (exec_reference id) d) s.current row refl in
      elim (Option-cases (normalized_identifier app.lower payment)) [
        | inl unknown ↦ rw row (rw busy (rw unknown (refl, _, now_executed, refl)))
        | inr (c, known) ↦
            rw row (rw busy (rw known (rw now_executed (refl, _, now_executed, refl))))
      ]

  handle-IsSettled :
      (status : DecisionStatus) (r : Result Done × Session) (h : Error → M Done)
      → IsSettled id (ok tt, status) r
      → IsSettled id (ok tt, status) (handle r.0 h r.1)
  unfolding ◌>>=◌
  handle-IsSettled status r h (e, x, stored, same) = rw e (refl, x, stored, same)

  reconcile-IsSettled :
      (app : App) (reply : Result String)
      → HasRow id d s.committed
      → (let r = continue reply (λ _. finish_link app id payment "RECONCILED_PAYMENT_LINK") s in
          IsSettled id
            (reconciled d.execution_attempts reply)
            (handle r.0 (on_reconcile_error app id payment) r.1))
  unfolding on_reconcile_error ◌>>=◌
  reconcile-IsSettled app (ok link) stored =
      handle-IsSettled _ _ _ (finish_link-IsSettled app "RECONCILED_PAYMENT_LINK")
  reconcile-IsSettled app (err (transient msg type)) stored =
      on_transient-IsSettled app "RECONCILE_TRANSIENT_FAILURE"
        "RECONCILE_PERMANENT_FAILURE_LIMIT_REACHED" msg type
  reconcile-IsSettled app (err (permanent msg type)) stored =
      on_permanent-IsSettled "RECONCILE_PERMANENT_FAILURE" (permanent msg type)
  reconcile-IsSettled app (err (reconciliation msg type)) stored =
      on_permanent-IsSettled "RECONCILE_PERMANENT_FAILURE" (reconciliation msg type)
  reconcile-IsSettled app (err (duplicate_reference msg type)) stored = (refl, d, stored, busy)
  reconcile-IsSettled app (err (ambiguous msg type)) stored = (refl, d, stored, busy)
  reconcile-IsSettled app (err integrity) stored = (refl, d, stored, busy)
  reconcile-IsSettled app (err (other msg)) stored = (refl, d, stored, busy)

module _ (app : App) (id : ℕ) (d : RecoveryDecision) (payment : PaymentRecord) (s : Session)
    (row : HasRow id d s.current) (busy : d.decision_status ≡ DecisionStatus.executing) where
  on_duplicate-IsSettled :
      IsSettled id
        (reconciled d.execution_attempts (
          app.executor.reconcile_duplicate_reference s.ticks d
            (payment_of d s.current)
            (exec_reference id)))
        (on_duplicate app id payment s)
  unfolding on_duplicate reconcile_link get_decision append_audit_log commit outside ◌>>=◌
  on_duplicate-IsSettled = rw row (reconcile-IsSettled id d payment _ row busy app _ row)

  create-IsSettled :
      (reply : Result String)
      → (let r = continue reply (λ _. finish_link app id payment "CREATE_PAYMENT_LINK") s in
          IsSettled id
            (executed_to d.execution_attempts reply (
              app.executor.reconcile_duplicate_reference s.ticks d
                (payment_of d s.current)
                (exec_reference id)))
            (handle r.0 (on_create_error app id payment) r.1))
  unfolding on_create_error ◌>>=◌
  create-IsSettled (ok link) =
      handle-IsSettled id d payment s row busy _ _ _
        (finish_link-IsSettled id d payment s row busy app "CREATE_PAYMENT_LINK")
  create-IsSettled (err (transient msg type)) =
      on_transient-IsSettled id d payment s row busy app "CREATE_PAYMENT_LINK_TRANSIENT_FAILURE"
        "CREATE_PAYMENT_LINK_PERMANENT_FAILURE_LIMIT_REACHED" msg type
  create-IsSettled (err (permanent msg type)) =
      on_permanent-IsSettled id d payment s row busy "CREATE_PAYMENT_LINK_PERMANENT_FAILURE"
        (permanent msg type)
  create-IsSettled (err (reconciliation msg type)) = on_unexpected-IsSettled id d payment s row busy
  create-IsSettled (err (duplicate_reference msg type)) = on_duplicate-IsSettled
  create-IsSettled (err (ambiguous msg type)) = on_unexpected-IsSettled id d payment s row busy
  create-IsSettled (err integrity) = on_unexpected-IsSettled id d payment s row busy
  create-IsSettled (err (other msg)) = on_unexpected-IsSettled id d payment s row busy

-- The execution of an EXECUTING decision, by the provider's two answers. A link that is created, or
-- found for a duplicate reference, leaves the decision EXECUTED; a transient error leaves it DECIDED
-- again below 5 attempts and FAILED from 5 on; a permanent error, or a mismatch of the link that is
-- looked for, leaves it FAILED; any other error of the first call leaves it EXECUTING. In these
-- cases the execution returns, and the row is committed. Any other error of the second call is
-- raised out of the execution, with the decision left EXECUTING.
pub execute_recovery_decision-IsSettled :
    (app : App) (id : ℕ) (d : RecoveryDecision) (payment : PaymentRecord) (s : Session)
    → HasRow id d s.current
    → d.decision_status ≡ DecisionStatus.executing
    → IsSettled id
        (executed_to d.execution_attempts (create_reply app id d s) (reconcile_reply app id d s))
        (execute_recovery_decision app id payment s)
unfolding execute_recovery_decision create_link get_decision outside ◌>>=◌
execute_recovery_decision-IsSettled app id d payment s row busy =
    rw row (create-IsSettled app id d payment _ row busy _)
