-- ===== src/Crud/Transitions.antt =====
-- The transitions of a decision out of EXECUTING, its error columns, and its outcome.
use payment_recovery_opportu.Base.{ℕ, String, Bool, Option, none, some, if◌then◌else◌}
use payment_recovery_opportu.Base.Table.{find_first}
use payment_recovery_opportu.Models.{RecoveryDecision, DecisionStatus, is_executing}
use payment_recovery_opportu.Session.{
  M, Done, other, raise, or_raise, ◌>>=◌, update, clock, database,
}
use payment_recovery_opportu.Crud.Decisions.{has_id, write_decision, get_decision}

abbrev pub executed_with : ℕ → String → RecoveryDecision → RecoveryDecision
executed_with now ref d = record d {
  decision_status = DecisionStatus.executed;
  execution_reference_id = some ref;
  executed_at = some now;
}

abbrev pub failed_retryable :
    String → Option String → Option ℕ → RecoveryDecision → RecoveryDecision
failed_retryable msg type retry_at d = record d {
  decision_status = DecisionStatus.decided;
  last_error = some msg;
  last_error_type = type;
  next_retry_at = retry_at;
}

abbrev pub failed_permanent : String → Option String → RecoveryDecision → RecoveryDecision
failed_permanent msg type d = record d {
  decision_status = DecisionStatus.failed;
  last_error = some msg;
  last_error_type = type;
  next_retry_at = none;
}

abbrev pub with_error : String → Option String → RecoveryDecision → RecoveryDecision
with_error msg type d = record d { last_error = some msg; last_error_type = type }

abbrev pub observed : ℕ → RecoveryDecision → RecoveryDecision
observed now d = record d {
  decision_status = DecisionStatus.outcome_observed;
  outcome_observed_at = some now;
}

-- `raise ValueError("Invalid transition ...")` unless the decision is EXECUTING; else the row is
-- written.
unfoldable pub leave_executing : ℕ → (RecoveryDecision → RecoveryDecision) → M Done
unfolding get_decision
leave_executing id values = do
  d ← get_decision id
  if is_executing d.decision_status
      then update (write_decision (has_id id) (values d))
      else raise (other "ValueError")

unfoldable pub mark_execution_successful : ℕ → String → M Done
unfolding leave_executing
mark_execution_successful id ref = do t ← clock; leave_executing id (executed_with t ref)

unfoldable pub mark_execution_failed_retryable : ℕ → String → Option String → Option ℕ → M Done
unfolding leave_executing
mark_execution_failed_retryable id msg type retry_at =
    leave_executing id (failed_retryable msg type retry_at)

unfoldable pub mark_execution_failed_permanent : ℕ → String → Option String → M Done
unfolding leave_executing
mark_execution_failed_permanent id msg type = leave_executing id (failed_permanent msg type)

unfoldable pub update_execution_error_only : ℕ → String → Option String → M Done
unfolding get_decision
update_execution_error_only id msg type = do
  d ← get_decision id
  update (write_decision (has_id id) (with_error msg type d))

-- The decision is the row that a query found. There is no test of its status here.
unfoldable pub update_recovery_decision_outcome : (RecoveryDecision → Bool) → M Done
update_recovery_decision_outcome found = do
  db ← database
  d ← or_raise (find_first found db.recovery_decisions) (other "ObjectDeletedError")
  t ← clock
  update (write_decision found (observed t d))
