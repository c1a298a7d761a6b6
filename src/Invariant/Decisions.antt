-- ===== src/Invariant/Decisions.antt =====
-- What holds of every decision in the database, whatever was done to it.
use payment_recovery_opportu.Base.{◌≤◌, ◌<◌, ◌≡◌, none, some, arith}
use payment_recovery_opportu.Base.Table.{All, All-append, All-find, All-replace}
use payment_recovery_opportu.Base.Text.{exec_reference}
use payment_recovery_opportu.Models.{Database, RecoveryDecision, DecisionStatus}
use payment_recovery_opportu.Change.{
  attempt_limit, Transition, claim, restart, succeed, retry, give_up, note_error, observe, IsFresh,
  Change, add_event, set_event_status, add_payment, advance_payment, add_decision, move_decision,
  add_audit, add_outreach, IsClosed,
}

-- No reference before the execution; the decision's own from then on.
abbrev pub StatusValid : DecisionStatus → RecoveryDecision → Type 0
StatusValid DecisionStatus.pending_policy d =
    (d.execution_attempts ≡ 0) × (d.execution_reference_id ≡ none)
StatusValid DecisionStatus.decided d =
    (d.execution_attempts < attempt_limit) × (d.execution_reference_id ≡ none)
StatusValid DecisionStatus.executing d =
    (0 < d.execution_attempts)
    × (d.execution_attempts ≤ attempt_limit)
    × (d.execution_reference_id ≡ none)
StatusValid DecisionStatus.failed d =
    (0 < d.execution_attempts)
    × (d.execution_attempts ≤ attempt_limit)
    × (d.execution_reference_id ≡ none)
StatusValid DecisionStatus.executed d =
    (0 < d.execution_attempts)
    × (d.execution_attempts ≤ attempt_limit)
    × (d.execution_reference_id ≡ some (exec_reference d.id))
StatusValid DecisionStatus.outcome_observed d =
    (0 < d.execution_attempts)
    × (d.execution_attempts ≤ attempt_limit)
    × (d.execution_reference_id ≡ some (exec_reference d.id))

abbrev pub IsValid : RecoveryDecision → Type 0
IsValid d = StatusValid d.decision_status d

pub fresh-IsValid : (d : RecoveryDecision) → IsFresh d → IsValid d
fresh-IsValid d f = ground arith

pub Transition-IsValid : (d d' : RecoveryDecision) → Transition d d' → IsValid d → IsValid d'
Transition-IsValid d d' (claim now s e) v = rw e (ground arith)
Transition-IsValid d d' (restart now s e) v = rw e (ground arith)
Transition-IsValid d d' (succeed now s e) v = rw e (ground arith)
Transition-IsValid d d' (retry msg type at s below e) v = rw e (ground arith)
Transition-IsValid d d' (give_up msg type s e) v = rw e (ground arith)
Transition-IsValid d d' (note_error msg type e) v = rw e (ground arith)
Transition-IsValid d d' (observe now ref r e) v = rw e (ground arith)

abbrev pub DecisionsValid : Database → Type 0
DecisionsValid db = All IsValid db.recovery_decisions

Change-DecisionsValid : (db db' : Database) → Change db db' → DecisionsValid db → DecisionsValid db'
Change-DecisionsValid db db' (add_event w free e) v = rw e v
Change-DecisionsValid db db' (set_event_status found w status at e) v = rw e v
Change-DecisionsValid db db' (add_payment r free e) v = rw e v
Change-DecisionsValid db db' (advance_payment found r r' at same le e) v = rw e v
Change-DecisionsValid db db' (add_decision d fresh id e) v =
    rw e (All-append IsValid db.recovery_decisions d v (fresh-IsValid d fresh))
Change-DecisionsValid db db' (move_decision found d d' at t e) v = rw e (
    All-replace IsValid found d' db.recovery_decisions v
      (Transition-IsValid d d' t (All-find IsValid found db.recovery_decisions d v at)))
Change-DecisionsValid db db' (add_audit a e) v = rw e v
Change-DecisionsValid db db' (add_outreach o e) v = rw e v

pub DecisionsValid-closed : IsClosed DecisionsValid
DecisionsValid-closed = record { keep = Change-DecisionsValid }
