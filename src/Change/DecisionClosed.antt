-- ===== src/Change/DecisionClosed.antt =====
-- The writes of recovery decisions are changes.
use payment_recovery_opportu.Base.{
  ℕ, ◌<◌, ◌≡◌, ◌⊎◌, inl, inr, refl, String, Bool, true, Option, some, arith, Option-cases,
  Bool-cases,
}
use payment_recovery_opportu.Base.Table.{find_first, find_first-holds}
use payment_recovery_opportu.Base.Text.{exec_reference}
use payment_recovery_opportu.Models.{
  Database, RecoveryDecision, DecisionStatus, Variant, is_executing,
}
use payment_recovery_opportu.Session.{Session, ◌>>=◌}
use payment_recovery_opportu.Session.Keeps.{Holds, Keeps, Keeps-bind, Keeps-gets, keeps_rules}
use payment_recovery_opportu.Crud.{
  PolicyPrediction, has_id, has_reference, new_decision, create_recovery_decision, get_decision,
  update_where, is_claimable, claimed, claim_decision_for_execution, is_unchanged, restarted,
  reclaim, claim_stale_execution, leave_executing, mark_execution_successful,
  mark_execution_failed_retryable, mark_execution_failed_permanent, update_execution_error_only,
  update_recovery_decision_outcome, executed_with, failed_retryable, failed_permanent,
  get_eligible_recovery_decisions,
}
use payment_recovery_opportu.Change.{
  IsClosed, Transition, attempt_limit, claim, restart, succeed, retry, give_up, note_error, observe,
  add_decision, move_decision,
}
use payment_recovery_opportu.Change.Closed.{Holds-Change}

pub is_executing→eq :
    (status : DecisionStatus) → is_executing status ≡ true → status ≡ DecisionStatus.executing
is_executing→eq status h = ground arith

claimable_decided :
    (id : ℕ) (d : RecoveryDecision)
    → is_claimable id d ≡ true
    → d.decision_status ≡ DecisionStatus.decided
claimable_decided id d h = ground arith

unchanged_executing :
    (c d : RecoveryDecision)
    → is_unchanged c d ≡ true
    → d.decision_status ≡ DecisionStatus.executing
unchanged_executing c d h = ground arith

pub has_id→eq : (id : ℕ) (d : RecoveryDecision) → has_id id d ≡ true → d.id ≡ id
has_id→eq id d h = ground arith

has_reference→some :
    (ref : String) (d : RecoveryDecision)
    → has_reference ref d ≡ true
    → (r : String) × (d.execution_reference_id ≡ some r)
has_reference→some ref d h = ground arith

module _ {P : Database → Type 0} (closed : IsClosed P) where
  -- An update whose values are a transition of every row that its condition accepts.
  pub update_where-Keeps :
      (condition : RecoveryDecision → Bool) (values : RecoveryDecision → RecoveryDecision)
      → ((d : RecoveryDecision) → condition d ≡ true → Transition d (values d))
      → Keeps P (update_where condition values)
  unfolding update_where ◌>>=◌
  update_where-Keeps condition values moves = record {
    at = λ s h. elim (Option-cases (find_first condition s.current.recovery_decisions)) [
      | inl missing ↦ rw missing h
      | inr (d, e) ↦ rw e (
          Holds-Change closed s _
            (move_decision condition d (values d) e (moves d (find_first-holds _ _ _ e)) refl) h)
    ];
  }

  pub claim_decision_for_execution-Keeps : (id : ℕ) → Keeps P (claim_decision_for_execution id)
  unfolding claim_decision_for_execution
  claim_decision_for_execution-Keeps id = Keeps-bind _ _ (Keeps-gets _) λ t.
      update_where-Keeps (is_claimable id) (claimed t)
        λ d h. claim t (claimable_decided id d h) refl

  reclaim-Keeps : (candidate : RecoveryDecision) → Keeps P (reclaim candidate)
  unfolding reclaim
  reclaim-Keeps candidate = search (keeps_rules, restart_row) depth 7
    where
      restart_row : (now : ℕ) → Keeps P (update_where (is_unchanged candidate) (restarted now))
      restart_row now =
          update_where-Keeps _ _ λ d h. restart now (unchanged_executing candidate d h) refl

  pub claim_stale_execution-Keeps : (threshold : ℕ) → Keeps P (claim_stale_execution threshold)
  unfolding claim_stale_execution
  claim_stale_execution-Keeps threshold = search (keeps_rules, reclaim-Keeps) depth 7

  -- A row that leaves EXECUTING keeps `P` if the values are a transition of the row found there.
  pub leave_executing-at :
      (id : ℕ) (values : RecoveryDecision → RecoveryDecision) (s : Session)
      → ((d : RecoveryDecision)
          → find_first (has_id id) s.current.recovery_decisions ≡ some d
          → d.decision_status ≡ DecisionStatus.executing
          → Transition d (values d))
      → Holds P s
      → Holds P (leave_executing id values s).1
  unfolding leave_executing ◌>>=◌
  leave_executing-at id values s moves h =
      elim (Option-cases (find_first (has_id id) s.current.recovery_decisions)) [
        | inl missing ↦ rw missing h
        | inr (d, e) ↦ rw e (elim (Bool-cases (is_executing d.decision_status)) [
          | inl yes_executing ↦ rw yes_executing (
              Holds-Change closed s _
                (move_decision _ d (values d) e (moves d e (is_executing→eq _ yes_executing)) refl)
                h)
          | inr other ↦ rw other h
        ])
      ]

  -- The caller passes the reference of the decision itself.
  pub mark_execution_successful-Keeps :
      (id : ℕ) → Keeps P (mark_execution_successful id (exec_reference id))
  unfolding mark_execution_successful ◌>>=◌
  mark_execution_successful-Keeps id = record {
    at = λ s h.
        leave_executing-at id (executed_with s.now (exec_reference id)) s
          (λ d e x. rw (← has_id→eq id d (find_first-holds _ _ _ e)) (succeed s.now x refl)) h;
  }

  -- A decision goes back to DECIDED only below the limit of attempts.
  pub mark_execution_failed_retryable-at :
      (id : ℕ) (msg : String) (type : Option String) (at : ℕ) (s : Session)
      → ((d : RecoveryDecision)
          → find_first (has_id id) s.current.recovery_decisions ≡ some d
          → d.execution_attempts < attempt_limit)
      → Holds P s
      → Holds P (mark_execution_failed_retryable id msg type (some at) s).1
  unfolding mark_execution_failed_retryable
  mark_execution_failed_retryable-at id msg type at s below h =
      leave_executing-at id (failed_retryable msg type (some at)) s
        (λ d e x. retry msg type at x (below d e) refl) h

  pub mark_execution_failed_permanent-Keeps :
      (id : ℕ) (msg : String) (type : Option String)
      → Keeps P (mark_execution_failed_permanent id msg type)
  unfolding mark_execution_failed_permanent
  mark_execution_failed_permanent-Keeps id msg type = record {
    at = λ s h.
        leave_executing-at id (failed_permanent msg type) s (λ d e x. give_up msg type x refl) h;
  }

  pub update_execution_error_only-Keeps :
      (id : ℕ) (msg : String) (type : Option String)
      → Keeps P (update_execution_error_only id msg type)
  unfolding update_execution_error_only ◌>>=◌
  update_execution_error_only-Keeps id msg type = record {
    at = λ s h. elim (Option-cases (find_first (has_id id) s.current.recovery_decisions)) [
      | inl missing ↦ rw missing h
      | inr (d, e) ↦
          rw e (Holds-Change closed s _ (move_decision _ d _ e (note_error msg type refl) refl) h)
    ];
  }

  -- The outcome is recorded on a row found by a reference.
  pub update_recovery_decision_outcome-Keeps :
      (ref : String) → Keeps P (update_recovery_decision_outcome (has_reference ref))
  unfolding update_recovery_decision_outcome ◌>>=◌
  update_recovery_decision_outcome-Keeps ref = record {
    at = λ s h. elim (Option-cases (find_first (has_reference ref) s.current.recovery_decisions)) [
      | inl missing ↦ rw missing h
      | inr (d, e) ↦
          let (r, has) = has_reference→some ref d (find_first-holds _ _ _ e) in
          rw e (Holds-Change closed s _ (move_decision _ d _ e (observe s.now r has refl) refl) h)
    ];
  }

  pub create_recovery_decision-Keeps :
      (payment : ℕ) (prediction : PolicyPrediction) (name : Option String)
      (variant : Option Variant)
      → (prediction.decision_status ≡ DecisionStatus.decided)
        ⊎ (prediction.decision_status ≡ DecisionStatus.pending_policy)
      → Keeps P (create_recovery_decision payment prediction name variant)
  unfolding create_recovery_decision ◌>>=◌ new_decision
  create_recovery_decision-Keeps payment prediction name variant made = record {
    at = λ s h.
        Holds-Change closed s _
          (add_decision _ (record { undone = refl; unreferenced = refl; unexecuted = made }) refl
            refl)
          h;
  }

  pub get_decision-Keeps : (id : ℕ) → Keeps P (get_decision id)
  unfolding get_decision
  get_decision-Keeps id = search keeps_rules

  pub get_eligible_recovery_decisions-Keeps : (n : ℕ) → Keeps P (get_eligible_recovery_decisions n)
  unfolding get_eligible_recovery_decisions
  get_eligible_recovery_decisions-Keeps n = search keeps_rules
