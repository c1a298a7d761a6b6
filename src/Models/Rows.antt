-- ===== src/Models/Rows.antt =====
-- The tables of app/models.py. No code deletes a row, so an autoincremented id is one more than
-- the number of rows.
use payment_recovery_opportu.Base.{ℕ, String, Option, List, [], Bool}
use payment_recovery_opportu.Models.Status.{
  WebhookProcessingStatus, PaymentStatus, DecisionStatus, RecoveryAction, Variant,
}

-- A binary64 number, by its bits.
pub data Float : Type 0 where
  bits : ℕ → Float

-- A Python int: `negsuc n` is -(n + 1).
pub data ℤ : Type 0 where
  pos : ℕ → ℤ
  negsuc : ℕ → ℤ

pub record WebhookEvent : Type 0 where
  pub id : ℕ
  pub event_id : String
  pub event_type : String
  pub received_at : ℕ
  pub signature_verified : Bool
  pub raw_payload : String
  pub processing_status : WebhookProcessingStatus

pub record PaymentRecord : Type 0 where
  pub id : ℕ
  pub webhook_event_id : ℕ
  pub razorpay_payment_id : String
  pub razorpay_order_id : Option String
  pub amount : ℕ
  pub currency : String
  pub status : PaymentStatus
  pub method : Option String
  pub error_code : Option String
  pub error_description : Option String
  pub error_source : Option String
  pub error_step : Option String
  pub error_reason : Option String
  pub customer_email : Option String
  pub customer_contact : Option String
  pub payment_created_at : Option ℕ
  pub created_at : ℕ

pub record RecoveryDecision : Type 0 where
  pub id : ℕ
  pub payment_record_id : ℕ
  pub decision_status : DecisionStatus
  pub selected_action : RecoveryAction
  pub model_version : String
  pub experiment_name : Option String
  pub experiment_variant : Option Variant
  pub predicted_p0 : Option Float
  pub predicted_p1 : Option Float
  pub predicted_uplift : Option Float
  pub expected_incremental_net_paise : Option ℤ
  pub execution_attempts : ℕ
  pub execution_started_at : Option ℕ
  pub last_error : Option String
  pub last_error_type : Option String
  pub next_retry_at : Option ℕ
  pub execution_reference_id : Option String
  pub executed_at : Option ℕ
  pub outcome_observed_at : Option ℕ
  pub created_at : ℕ

pub record AuditLog : Type 0 where
  pub id : ℕ
  pub payment_record_id : Option ℕ
  pub event_type : String
  pub action : String
  pub created_at : ℕ

pub record CustomerOutreachEvent : Type 0 where
  pub id : ℕ
  pub customer_identifier : String
  pub payment_record_id : ℕ
  pub recovery_decision_id : ℕ
  pub action : RecoveryAction
  pub channel : String
  pub outreach_at : ℕ

pub record Database : Type 0 where
  pub webhook_events : List WebhookEvent
  pub payment_records : List PaymentRecord
  pub recovery_decisions : List RecoveryDecision
  pub audit_logs : List AuditLog
  pub outreach_events : List CustomerOutreachEvent

abbrev pub empty_database : Database
empty_database = record {
  webhook_events = [];
  payment_records = [];
  recovery_decisions = [];
  audit_logs = [];
  outreach_events = [];
}
