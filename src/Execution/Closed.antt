-- ===== src/Execution/Closed.antt =====
-- An execution makes only changes that the specification knows.
use payment_recovery_opportu.Base.{
  ℕ, ◌<◌, ◌+◌, ◌≡◌, sym, ◌∙◌, subst, String, true, false, Option, some, Bool-cases, Option-cases,
  inl, inr,
}
use payment_recovery_opportu.Base.Table.{find_first, some-eq}
use payment_recovery_opportu.Models.{Database, PaymentRecord, RecoveryDecision}
use payment_recovery_opportu.Session.{
  Error, Session, ◌>>=◌, pure, outside, transient, permanent, duplicate_reference, reconciliation,
}
use payment_recovery_opportu.Session.Keeps.{
  Holds, Keeps, Keeps-bind, Keeps-bind-at, Keeps-pure, Keeps-raise, keeps_rules,
}
use payment_recovery_opportu.Crud.{has_id, get_decision, mark_execution_failed_retryable}
use payment_recovery_opportu.Retry.{RetryResult, calculate_retry}
use payment_recovery_opportu.Retry.Bounds.{calculate_retry-retryable}
use payment_recovery_opportu.Change.{IsClosed, attempt_limit}
use payment_recovery_opportu.Change.Closed.{
  append_audit_log-Keeps, create_customer_outreach_event-Keeps,
}
use payment_recovery_opportu.Change.DecisionClosed.{
  get_decision-Keeps, mark_execution_successful-Keeps, mark_execution_failed_retryable-at,
  mark_execution_failed_permanent-Keeps,
}
use payment_recovery_opportu.App.{App}
use payment_recovery_opportu.Execution.{
  fail_by_policy, settle_failure, execute_recovery_decision, record_outreach, finish_link,
  create_link, reconcile_link, audit_failure, on_transient, on_permanent, on_reconcile_error,
  on_duplicate, on_unexpected, on_create_error,
}

-- What the policy answers for these attempts: a retry only below the limit, and at a time.
abbrev AllowsRetry : RetryResult → ℕ → Type 0
AllowsRetry r attempts =
    r.retryable ≡ true → (attempts < attempt_limit) × ((t : ℕ) × (r.next_retry_at ≡ some t))

calculate_retry-AllowsRetry :
    (attempts : ℕ) (e : Error) (now draw : ℕ)
    → AllowsRetry (calculate_retry attempts e now draw) attempts
calculate_retry-AllowsRetry attempts e now draw h =
    let (below, at) = calculate_retry-retryable attempts e now draw h in (below, (_, at))

module _ {P : Database → Type 0} (closed : IsClosed P) where
  settle_failure-at :
      (id : ℕ) (msg : String) (type : Option String) (r : RetryResult) (s : Session)
      (d : RecoveryDecision)
      → find_first (has_id id) s.current.recovery_decisions ≡ some d
      → AllowsRetry r d.execution_attempts
      → Holds P s
      → Holds P (settle_failure id msg type r s).1
  unfolding settle_failure ◌>>=◌
  settle_failure-at id msg type r s d found allows h = elim (Bool-cases r.retryable) [
    | inl again ↦
        let (below, (t, at)) = allows again in
        rw (again, at)
          (Keeps-bind-at (mark_execution_failed_retryable id msg type (some t)) (λ _. pure true) s
            (mark_execution_failed_retryable-at closed id msg type t s (find-below d found below) h)
            (λ _. Keeps-pure true))
    | inr final ↦ rw final (
        (Keeps-bind _ _ (mark_execution_failed_permanent-Keeps closed id msg type)
            (λ _. Keeps-pure false)).at
          s h)
  ]
    where
      find-below :
          (d : RecoveryDecision)
          → find_first (has_id id) s.current.recovery_decisions ≡ some d
          → d.execution_attempts < attempt_limit
          → (e : RecoveryDecision) → find_first (has_id id) s.current.recovery_decisions ≡ some e
          → e.execution_attempts < attempt_limit
      find-below d found below e again =
          subst (λ x. x.execution_attempts < attempt_limit) (some-eq (sym found ∙ again)) below

  pub fail_by_policy-Keeps :
      (app : App) (id : ℕ) (e : Error) (msg : String) (type : Option String)
      → Keeps P (fail_by_policy app id e msg type)
  unfolding fail_by_policy ◌>>=◌ get_decision outside
  fail_by_policy-Keeps app id e msg type = record {
    at = λ s h. elim (Option-cases (find_first (has_id id) s.current.recovery_decisions)) [
      | inl missing ↦ rw missing h
      | inr (d, found) ↦ rw found (
          settle_failure-at id msg type
            (calculate_retry d.execution_attempts e (s.now + 0) (app.random s.ticks)) _ d found
            (calculate_retry-AllowsRetry d.execution_attempts e _ _)
            (record { in_committed = h.in_committed; in_current = h.in_current }))
    ];
  }

  record_outreach-Keeps :
      (app : App) (id : ℕ) (payment : PaymentRecord) → Keeps P (record_outreach app id payment)
  unfolding record_outreach
  record_outreach-Keeps app id payment =
      search (keeps_rules, get_decision-Keeps, create_customer_outreach_event-Keeps closed) depth 8

  finish_link-Keeps :
      (app : App) (id : ℕ) (payment : PaymentRecord) (kind : String)
      → Keeps P (finish_link app id payment kind)
  unfolding finish_link
  finish_link-Keeps app id payment kind =
      search
        (
          keeps_rules,
          mark_execution_successful-Keeps closed,
          record_outreach-Keeps,
          append_audit_log-Keeps closed,
        )
        depth 8

  create_link-Keeps :
      (app : App) (id : ℕ) (payment : PaymentRecord) → Keeps P (create_link app id payment)
  unfolding create_link
  create_link-Keeps app id payment =
      search (keeps_rules, get_decision-Keeps, finish_link-Keeps) depth 8

  reconcile_link-Keeps :
      (app : App) (id : ℕ) (payment : PaymentRecord) → Keeps P (reconcile_link app id payment)
  unfolding reconcile_link
  reconcile_link-Keeps app id payment =
      search (keeps_rules, get_decision-Keeps, finish_link-Keeps) depth 8

  audit_failure-Keeps :
      (payment : PaymentRecord) (kind : String) → Keeps P (audit_failure payment kind)
  unfolding audit_failure
  audit_failure-Keeps payment kind = search (keeps_rules, append_audit_log-Keeps closed)

  on_transient-Keeps :
      (app : App) (id : ℕ) (payment : PaymentRecord) (retried limited : String) (e : Error)
      → Keeps P (on_transient app id payment retried limited e)
  unfolding on_transient
  on_transient-Keeps app id payment retried limited e =
      search (keeps_rules, fail_by_policy-Keeps, audit_failure-Keeps)

  on_permanent-Keeps :
      (id : ℕ) (payment : PaymentRecord) (kind : String) (e : Error)
      → Keeps P (on_permanent id payment kind e)
  unfolding on_permanent
  on_permanent-Keeps id payment kind e =
      search (keeps_rules, mark_execution_failed_permanent-Keeps closed, audit_failure-Keeps)

  on_reconcile_error-Keeps :
      (app : App) (id : ℕ) (payment : PaymentRecord) (e : Error)
      → Keeps P (on_reconcile_error app id payment e)
  unfolding on_reconcile_error
  on_reconcile_error-Keeps app id payment (transient msg type) = search on_transient-Keeps
  on_reconcile_error-Keeps app id payment (permanent msg type) = search on_permanent-Keeps
  on_reconcile_error-Keeps app id payment (reconciliation msg type) = search on_permanent-Keeps
  on_reconcile_error-Keeps app id payment _ = Keeps-raise _

  on_duplicate-Keeps :
      (app : App) (id : ℕ) (payment : PaymentRecord) → Keeps P (on_duplicate app id payment)
  unfolding on_duplicate
  on_duplicate-Keeps app id payment =
      search
        (keeps_rules, append_audit_log-Keeps closed, reconcile_link-Keeps, on_reconcile_error-Keeps)
        depth 7

  on_unexpected-Keeps : (payment : PaymentRecord) → Keeps P (on_unexpected payment)
  unfolding on_unexpected
  on_unexpected-Keeps payment = search (keeps_rules, audit_failure-Keeps)

  on_create_error-Keeps :
      (app : App) (id : ℕ) (payment : PaymentRecord) (e : Error)
      → Keeps P (on_create_error app id payment e)
  unfolding on_create_error
  on_create_error-Keeps app id payment (duplicate_reference _ _) = on_duplicate-Keeps app id payment
  on_create_error-Keeps app id payment (transient msg type) = search on_transient-Keeps
  on_create_error-Keeps app id payment (permanent msg type) = search on_permanent-Keeps
  on_create_error-Keeps app id payment _ = on_unexpected-Keeps payment

  pub execute_recovery_decision-Keeps :
      (app : App) (id : ℕ) (payment : PaymentRecord)
      → Keeps P (execute_recovery_decision app id payment)
  unfolding execute_recovery_decision
  execute_recovery_decision-Keeps app id payment =
      search (keeps_rules, create_link-Keeps, on_create_error-Keeps)
