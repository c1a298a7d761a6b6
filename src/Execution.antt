-- ===== src/Execution.antt =====
-- app/execution.py: one execution of a recovery decision, with the reconciliation of a duplicate
-- reference, the retry policy, and the transition of the decision on each way out.
pub mod Closed
pub mod Outcome
pub mod Remote
use payment_recovery_opportu.Base.{
  ℕ, String, Bool, true, false, Option, none, some, ◌==◌, if◌then◌else◌,
}
use payment_recovery_opportu.Base.Table.{find_first}
use payment_recovery_opportu.Base.Text.{exec_reference}
use payment_recovery_opportu.Models.{Database, PaymentRecord, RecoveryDecision, executing}
use payment_recovery_opportu.Session.{
  M, Done, Error, Result, ok, transient, permanent, duplicate_reference, reconciliation, ambiguous,
  integrity, other, executions_success, executions_failure, pure, raise, ◌>>=◌, ◌>>◌, try_except,
  if_none, inc, commit, clock, database, outside,
}
use payment_recovery_opportu.Crud.{
  get_decision, mark_execution_successful, mark_execution_failed_retryable,
  mark_execution_failed_permanent, append_audit_log, create_customer_outreach_event,
}
use payment_recovery_opportu.App.{App}
use payment_recovery_opportu.Retry.{RetryResult, calculate_retry}
use payment_recovery_opportu.Guardrails.{normalized_identifier}

-- `str(exc)` and `exc.error_type`
abbrev pub error_message : Error → String
error_message (transient msg _) = msg
error_message (permanent msg _) = msg
error_message (duplicate_reference msg _) = msg
error_message (reconciliation msg _) = msg
error_message (ambiguous msg _) = msg
error_message integrity = "IntegrityError"
error_message (other msg) = msg

abbrev pub error_type : Error → Option String
error_type (transient _ type) = some type
error_type (permanent _ type) = some type
error_type (duplicate_reference _ type) = some type
error_type (reconciliation _ type) = some type
error_type (ambiguous _ type) = some type
error_type integrity = none
error_type (other _) = none

abbrev pub has_row : ℕ → PaymentRecord → Bool
has_row id r = r.id == id

-- `decision.payment_record`
abbrev pub payment_of : RecoveryDecision → Database → Option PaymentRecord
payment_of d db = find_first (has_row d.payment_record_id) db.payment_records

-- The random draw of the jitter.
unfoldable pub random_draw : App → M ℕ
random_draw app = outside (λ _. 0) (λ k. ok (app.random k))

-- What the policy makes of an error, after so many attempts.
unfoldable pub policy_for : App → ℕ → Error → M RetryResult
unfolding random_draw
policy_for app attempts e = do
  draw ← random_draw app
  t ← clock
  pure (calculate_retry attempts e t draw)

-- The marking of a failed execution by the outcome of the policy, `msg` and `type` going into the
-- row; the three places that do so are one method here. It answers whether there is a retry.
unfoldable pub settle_failure : ℕ → String → Option String → RetryResult → M Bool
settle_failure id msg type r =
    if r.retryable
    then mark_execution_failed_retryable id msg type r.next_retry_at >> pure true
    else (mark_execution_failed_permanent id msg type >> pure false)

unfoldable pub fail_by_policy : App → ℕ → Error → String → Option String → M Bool
unfolding policy_for settle_failure
fail_by_policy app id e msg type = do
  d ← get_decision id
  r ← policy_for app d.execution_attempts e
  settle_failure id msg type r

-- The outreach event of a customer who can be identified.
unfoldable pub record_outreach : App → ℕ → PaymentRecord → M Done
record_outreach app id payment =
    if_none (normalized_identifier app.lower payment) (pure tt) λ customer. do
      d ← get_decision id
      create_customer_outreach_event customer payment.id id d.selected_action "payment_link"

-- What both ways to a link do once there is one.
unfoldable pub finish_link : App → ℕ → PaymentRecord → String → M Done
unfolding record_outreach
finish_link app id payment action = do
  mark_execution_successful id (exec_reference id)
  record_outreach app id payment
  inc executions_success
  append_audit_log "ACTION_EXECUTED" action (some payment.id)
  commit

-- The `try` block.
unfoldable pub create_link : App → ℕ → PaymentRecord → M Done
unfolding finish_link
create_link app id payment = do
  d ← get_decision id
  db ← database
  _ ←
      outside app.executor.elapsed
        λ k. app.executor.create_payment_link k d (payment_of d db) (exec_reference id)
  finish_link app id payment "CREATE_PAYMENT_LINK"

-- The inner `try` block, of the duplicate reference.
unfoldable pub reconcile_link : App → ℕ → PaymentRecord → M Done
unfolding finish_link
reconcile_link app id payment = do
  d ← get_decision id
  db ← database
  _ ←
      outside app.executor.elapsed
        λ k. app.executor.reconcile_duplicate_reference k d (payment_of d db) (exec_reference id)
  finish_link app id payment "RECONCILED_PAYMENT_LINK"

-- The failure audits.
unfoldable pub audit_failure : PaymentRecord → String → M Done
audit_failure payment action = do
  append_audit_log "ACTION_EXECUTION_FAILED" action (some payment.id)
  commit

-- `except TransientExecutionError`, inner and outer.
unfoldable pub on_transient : App → ℕ → PaymentRecord → String → String → Error → M Done
unfolding fail_by_policy audit_failure
on_transient app id payment retried limited e = do
  inc executions_failure
  retryable ← fail_by_policy app id e (error_message e) (error_type e)
  audit_failure payment (if retryable then retried else limited)

-- `except PermanentExecutionError`, inner (with `ReconciliationError`) and outer.
unfoldable pub on_permanent : ℕ → PaymentRecord → String → Error → M Done
unfolding audit_failure
on_permanent id payment action e = do
  inc executions_failure
  mark_execution_failed_permanent id (error_message e) (error_type e)
  audit_failure payment action

-- The inner handlers. They let every other class pass, `AmbiguousStateError` among them.
unfoldable pub on_reconcile_error : App → ℕ → PaymentRecord → Error → M Done
unfolding on_transient on_permanent
on_reconcile_error app id payment (transient msg type) =
    on_transient app id payment "RECONCILE_TRANSIENT_FAILURE"
      "RECONCILE_PERMANENT_FAILURE_LIMIT_REACHED" (transient msg type)
on_reconcile_error app id payment (permanent msg type) =
    on_permanent id payment "RECONCILE_PERMANENT_FAILURE" (permanent msg type)
on_reconcile_error app id payment (reconciliation msg type) =
    on_permanent id payment "RECONCILE_PERMANENT_FAILURE" (reconciliation msg type)
on_reconcile_error app id payment e = raise e

-- `except DuplicateReferenceExecutionError`
unfoldable pub on_duplicate : App → ℕ → PaymentRecord → M Done
unfolding reconcile_link on_reconcile_error
on_duplicate app id payment = do
  append_audit_log "ACTION_EXECUTION_RECONCILING" "RECONCILE_DUPLICATE_REFERENCE" (some payment.id)
  commit
  try_except (reconcile_link app id payment) (on_reconcile_error app id payment)

-- `except Exception`: the decision stays in EXECUTING.
unfoldable pub on_unexpected : PaymentRecord → M Done
unfolding audit_failure
on_unexpected payment = do
  inc executions_failure
  audit_failure payment "CREATE_PAYMENT_LINK_UNEXPECTED_FAILURE"

-- The outer handlers, in the order of the source.
unfoldable pub on_create_error : App → ℕ → PaymentRecord → Error → M Done
unfolding on_duplicate on_transient on_permanent on_unexpected
on_create_error app id payment (duplicate_reference _ _) = on_duplicate app id payment
on_create_error app id payment (transient msg type) =
    on_transient app id payment "CREATE_PAYMENT_LINK_TRANSIENT_FAILURE"
      "CREATE_PAYMENT_LINK_PERMANENT_FAILURE_LIMIT_REACHED" (transient msg type)
on_create_error app id payment (permanent msg type) =
    on_permanent id payment "CREATE_PAYMENT_LINK_PERMANENT_FAILURE" (permanent msg type)
on_create_error app id payment e = on_unexpected payment

unfoldable pub execute_recovery_decision : App → ℕ → PaymentRecord → M Done
unfolding create_link on_create_error
execute_recovery_decision app id payment =
    try_except (create_link app id payment) (on_create_error app id payment)
