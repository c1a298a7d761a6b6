-- ===== src/Change.antt =====
-- What the program may do to the database: the specification that the handlers are held to. One
-- constructor for each kind of write, with the condition under which the program makes it.
pub mod Closed
pub mod DecisionClosed
pub mod PaymentClosed
use payment_recovery_opportu.Base.{ℕ, suc, ◌≤◌, ◌<◌, ◌≡◌, ◌⊎◌, String, Bool, Option, none, some}
use payment_recovery_opportu.Base.Table.{length, find_first, replace}
use payment_recovery_opportu.Base.Text.{exec_reference}
use payment_recovery_opportu.Models.{
  Database, WebhookEvent, WebhookProcessingStatus, PaymentRecord, RecoveryDecision, DecisionStatus,
  AuditLog, CustomerOutreachEvent, status_priority,
}
use payment_recovery_opportu.Crud.{
  has_event_id, has_event_row, with_event, has_payment_id, with_payment, write_payment,
  with_decision, write_decision, with_audit, with_outreach, claimed, restarted, executed_with,
  failed_retryable, failed_permanent, with_error, observed,
}

-- `MAX_EXECUTION_ATTEMPTS`, as the specification knows it.
abbrev pub attempt_limit : ℕ
attempt_limit = 5

-- The life of a decision.
pub data Transition (d d' : RecoveryDecision) : Type 0 where
  claim :
      (now : ℕ) → d.decision_status ≡ DecisionStatus.decided → d' ≡ claimed now d → Transition d d'
  restart :
      (now : ℕ)
      → d.decision_status ≡ DecisionStatus.executing
      → d' ≡ restarted now d
      → Transition d d'
  succeed :
      (now : ℕ)
      → d.decision_status ≡ DecisionStatus.executing
      → d' ≡ executed_with now (exec_reference d.id) d
      → Transition d d'
  retry :
      (msg : String) (type : Option String) (at : ℕ)
      → d.decision_status ≡ DecisionStatus.executing
      → d.execution_attempts < attempt_limit
      → d' ≡ failed_retryable msg type (some at) d
      → Transition d d'
  give_up :
      (msg : String) (type : Option String)
      → d.decision_status ≡ DecisionStatus.executing
      → d' ≡ failed_permanent msg type d
      → Transition d d'
  note_error : (msg : String) (type : Option String) → d' ≡ with_error msg type d → Transition d d'
  observe :
      (now : ℕ) (ref : String)
      → d.execution_reference_id ≡ some ref
      → d' ≡ observed now d
      → Transition d d'

-- A decision as the policy makes it: nothing has been executed.
pub record IsFresh (d : RecoveryDecision) : Type 0 where
  pub undone : d.execution_attempts ≡ 0
  pub unreferenced : d.execution_reference_id ≡ none
  pub unexecuted :
      (d.decision_status ≡ DecisionStatus.decided)
      ⊎ (d.decision_status ≡ DecisionStatus.pending_policy)

pub data Change (db db' : Database) : Type 0 where
  add_event :
      (w : WebhookEvent)
      → find_first (has_event_id w.event_id) db.webhook_events ≡ none
      → db' ≡ with_event w db
      → Change db db'
  set_event_status :
      (found : WebhookEvent → Bool) (w : WebhookEvent) (status : WebhookProcessingStatus)
      → find_first found db.webhook_events ≡ some w
      → db' ≡ record db {
        webhook_events = replace found (record w { processing_status = status }) db.webhook_events;
      }
      → Change db db'
  add_payment :
      (r : PaymentRecord)
      → find_first (has_payment_id r.razorpay_payment_id) db.payment_records ≡ none
      → db' ≡ with_payment r db
      → Change db db'
  advance_payment :
      (found : PaymentRecord → Bool) (r r' : PaymentRecord)
      → find_first found db.payment_records ≡ some r
      → r'.razorpay_payment_id ≡ r.razorpay_payment_id
      → status_priority r.status ≤ status_priority r'.status
      → db' ≡ write_payment found r' db
      → Change db db'
  add_decision :
      (d : RecoveryDecision)
      → IsFresh d
      → d.id ≡ suc (length db.recovery_decisions)
      → db' ≡ with_decision d db
      → Change db db'
  move_decision :
      (found : RecoveryDecision → Bool) (d d' : RecoveryDecision)
      → find_first found db.recovery_decisions ≡ some d
      → Transition d d'
      → db' ≡ write_decision found d' db
      → Change db db'
  add_audit : (a : AuditLog) → db' ≡ with_audit a db → Change db db'
  add_outreach : (o : CustomerOutreachEvent) → db' ≡ with_outreach o db → Change db db'

-- Any number of changes.
pub data Changes (db : Database) : Database → Type 0 where
  here : Changes db db
  then : {db' db'' : Database} → Changes db db' → Change db' db'' → Changes db db''

-- What every change keeps.
pub record IsClosed (P : Database → Type 0) : Type 0 where
  pub keep : (db db' : Database) → Change db db' → P db → P db'

pub Changes-closed : (db : Database) → IsClosed (Changes db)
Changes-closed db = record { keep = λ a b c h. then h c }
