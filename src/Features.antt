-- ===== src/Features.antt =====
-- app/ml/features.py: the feature vector of a payment, and its history in the database.
-- `amount_inr`, the amount in rupees for a human reader, and the schema version are left out.
pub mod History
use payment_recovery_opportu.Base.{
  ℕ, String, Bool, false, not, ◌&&◌, Option, none, some, text_eq, ◌==◌, if◌then◌else◌,
}
use payment_recovery_opportu.Base.Table.{count_if}
use payment_recovery_opportu.Base.Text.{or_else, truthy}
use payment_recovery_opportu.Models.{Database, PaymentRecord, PaymentStatus, is_failed, is_captured}

pub record PaymentFeatures : Type 0 where
  pub payment_id : String
  pub amount_paise : ℕ
  pub currency : String
  pub method : Option String
  pub error_code : Option String
  pub error_reason : Option String
  pub error_source : Option String
  pub error_step : Option String
  pub prior_failure_count : Option ℕ
  pub prior_success_count : Option ℕ
  pub customer_identifier : Option String

-- `payment.customer_email or payment.customer_contact`
abbrev pub customer_identifier_of : PaymentRecord → Option String
customer_identifier_of r = or_else r.customer_email r.customer_contact

-- The column by which a customer's history is looked up.
abbrev pub identifier_column : PaymentRecord → PaymentRecord → Option String
identifier_column payment r =
    if truthy payment.customer_email then r.customer_email else r.customer_contact

abbrev pub column_is : String → Option String → Bool
column_is t none = false
column_is t (some u) = text_eq u t

-- Another payment of the customer, with a status that `test` accepts.
abbrev pub is_prior : PaymentRecord → String → (PaymentStatus → Bool) → PaymentRecord → Bool
is_prior payment customer test r =
    column_is customer (identifier_column payment r) && test r.status && not (r.id == payment.id)

-- No count where there is no identifier: an unknown history is not an empty one.
abbrev pub count_for : PaymentRecord → (PaymentStatus → Bool) → Database → Option String → Option ℕ
count_for payment test db none = none
count_for payment test db (some c) =
    if truthy (some c) then some (count_if (is_prior payment c test) db.payment_records) else none

abbrev pub prior_count : PaymentRecord → (PaymentStatus → Bool) → Database → Option ℕ
prior_count payment test db = count_for payment test db (customer_identifier_of payment)

unfoldable pub extract_features : PaymentRecord → Database → PaymentFeatures
extract_features payment db = record {
  payment_id = payment.razorpay_payment_id;
  amount_paise = payment.amount;
  currency = payment.currency;
  method = payment.method;
  error_code = payment.error_code;
  error_reason = payment.error_reason;
  error_source = payment.error_source;
  error_step = payment.error_step;
  prior_failure_count = prior_count payment is_failed db;
  prior_success_count = prior_count payment is_captured db;
  customer_identifier = customer_identifier_of payment;
}
