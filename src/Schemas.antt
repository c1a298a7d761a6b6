-- ===== src/Schemas.antt =====
-- app/schemas.py: the parts of a webhook payload, with the fields that the program reads. That a
-- body is decoded and validated is the work of json and pydantic: the outcome is a value here.
use payment_recovery_opportu.Base.{ℕ, String, Option, List}

-- `amount` is validated to be positive.
pub record RazorpayPaymentEntity : Type 0 where
  pub id : String
  pub amount : ℕ
  pub currency : String
  pub order_id : Option String
  pub method : Option String
  pub email : Option String
  pub contact : Option String
  pub error_code : Option String
  pub error_description : Option String
  pub error_source : Option String
  pub error_step : Option String
  pub error_reason : Option String
  pub created_at : Option ℕ

pub record RazorpayOrderEntity : Type 0 where
  pub id : String

pub record RazorpayPaymentLinkEntity : Type 0 where
  pub id : String
  pub notes : List (String × String)

-- What an `extract_..._entity` method does: there is no entity, it does not validate, or it does.
pub data Extracted (A : Type 0) : Type 0 where
  absent invalid : Extracted A
  entity : A → Extracted A

pub record RazorpayWebhookPayload : Type 0 where
  pub id : String
  pub event : String
  pub payment : Extracted RazorpayPaymentEntity
  pub order : Extracted RazorpayOrderEntity
  pub payment_link : Extracted RazorpayPaymentLinkEntity
