-- ===== src/Models/Status.antt =====
-- The enumerations of app/models.py and the tests that the code makes on them.
use payment_recovery_opportu.Base.{Bool, true, false, ℕ}

pub data WebhookProcessingStatus : Type 0 where
  received processing processed duplicate failed signature_invalid : WebhookProcessingStatus

pub data PaymentStatus : Type 0 where
  created authorized captured refunded failed : PaymentStatus

pub data DecisionStatus : Type 0 where
  pending_policy decided executing executed failed outcome_observed : DecisionStatus

pub data RecoveryAction : Type 0 where
  no_action send_payment_link send_payment_link_with_discount : RecoveryAction

-- `VariantType` of app/experiment.py.
pub data Variant : Type 0 where
  control treatment : Variant

abbrev pub is_decided : DecisionStatus → Bool
is_decided DecisionStatus.decided = true
is_decided _ = false

abbrev pub is_executing : DecisionStatus → Bool
is_executing DecisionStatus.executing = true
is_executing _ = false

abbrev pub is_no_action : RecoveryAction → Bool
is_no_action RecoveryAction.no_action = true
is_no_action _ = false

abbrev pub is_refunded : PaymentStatus → Bool
is_refunded PaymentStatus.refunded = true
is_refunded _ = false

abbrev pub is_failed : PaymentStatus → Bool
is_failed PaymentStatus.failed = true
is_failed _ = false

abbrev pub is_captured : PaymentStatus → Bool
is_captured PaymentStatus.captured = true
is_captured _ = false

-- `STATUS_PRIORITY` of the upsert functions of app/crud.py.
unfoldable pub status_priority : PaymentStatus → ℕ
status_priority PaymentStatus.created = 0
status_priority PaymentStatus.failed = 1
status_priority PaymentStatus.authorized = 2
status_priority PaymentStatus.captured = 3
status_priority PaymentStatus.refunded = 4
