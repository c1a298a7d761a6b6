-- ===== src/Crud/Payments.antt =====
-- Payment records: the upserts of app/crud.py, which only move a status forward. A record is
-- written at the row that the query found.
use payment_recovery_opportu.Base.{
  ℕ, zero, suc, ◌*◌, String, Bool, true, false, Option, none, some, text_eq, ltb, if◌then◌else◌,
}
use payment_recovery_opportu.Base.Table.{length, append, find_first, replace}
use payment_recovery_opportu.Base.Text.{or_else, truthy}
use payment_recovery_opportu.Models.{
  PaymentRecord, PaymentStatus, status_priority, is_refunded, Database,
}
use payment_recovery_opportu.Schemas.{RazorpayPaymentEntity}
use payment_recovery_opportu.Session.{M, pure, if_none, ◌>>=◌, ◌>>◌, update, clock, database}

abbrev pub has_payment_id : String → PaymentRecord → Bool
has_payment_id p r = text_eq r.razorpay_payment_id p

-- A NULL column is equal to no text.
abbrev pub has_order_id : String → PaymentRecord → Bool
has_order_id o r = elim r.razorpay_order_id [ none ↦ false | some x ↦ text_eq x o ]

-- `datetime.fromtimestamp(payment.created_at)` where that is given and not 0, for times in its range.
abbrev pub payment_time : Option ℕ → Option ℕ
payment_time none = none
payment_time (some zero) = none
payment_time (some (suc n)) = some (suc n * 1000000)

-- The row of a payment seen for the first time, without the status and the error columns.
abbrev new_record : Database → ℕ → ℕ → RazorpayPaymentEntity → PaymentRecord
new_record db now webhook_event_id payment = record {
  id = suc (length db.payment_records);
  webhook_event_id = webhook_event_id;
  razorpay_payment_id = payment.id;
  razorpay_order_id = payment.order_id;
  amount = payment.amount;
  currency = payment.currency;
  status = PaymentStatus.captured;
  method = payment.method;
  error_code = none;
  error_description = none;
  error_source = none;
  error_step = none;
  error_reason = none;
  customer_email = payment.email;
  customer_contact = payment.contact;
  payment_created_at = payment_time payment.created_at;
  created_at = now;
}

-- The columns that a payment.failed event writes.
unfoldable pub as_failed : RazorpayPaymentEntity → PaymentRecord → PaymentRecord
as_failed payment r = record r {
  status = PaymentStatus.failed;
  error_code = payment.error_code;
  error_description = payment.error_description;
  error_source = payment.error_source;
  error_step = payment.error_step;
  error_reason = payment.error_reason;
  method = or_else payment.method r.method;
}

-- The columns that a payment.captured event writes.
unfoldable pub as_captured : RazorpayPaymentEntity → PaymentRecord → PaymentRecord
as_captured payment r = record r {
  status = PaymentStatus.captured;
  razorpay_order_id = or_else payment.order_id r.razorpay_order_id;
  method = or_else payment.method r.method;
  customer_email = or_else payment.email r.customer_email;
  customer_contact = or_else payment.contact r.customer_contact;
  error_code = none;
  error_description = none;
  error_source = none;
  error_step = none;
  error_reason = none;
}

abbrev pub with_payment : PaymentRecord → Database → Database
with_payment r db = record db { payment_records = append db.payment_records r }

abbrev pub write_payment : (PaymentRecord → Bool) → PaymentRecord → Database → Database
write_payment found r db = record db { payment_records = replace found r db.payment_records }

-- The new row of a payment.failed event.
unfoldable pub new_failed : Database → ℕ → ℕ → RazorpayPaymentEntity → PaymentRecord
new_failed db now webhook_event_id payment = record (new_record db now webhook_event_id payment) {
  status = PaymentStatus.failed;
  error_code = payment.error_code;
  error_description = payment.error_description;
  error_source = payment.error_source;
  error_step = payment.error_step;
  error_reason = payment.error_reason;
}

unfoldable pub upsert_payment_record_from_failed :
    ℕ → RazorpayPaymentEntity → M (PaymentRecord × Bool)
upsert_payment_record_from_failed webhook_event_id payment = do
  db ← database
  t ← clock
  if_none (find_first (has_payment_id payment.id) db.payment_records)
      (let r = new_failed db t webhook_event_id payment in
        update (with_payment r) >> pure (r, true))
      λ existing.
        if ltb (status_priority PaymentStatus.failed) (status_priority existing.status)
        then pure (existing, false)
        else (let r = as_failed payment existing in
            update (write_payment (has_payment_id payment.id) r) >> pure (r, false))

-- The new row of a payment.captured event: no error context.
unfoldable pub new_captured : Database → ℕ → ℕ → RazorpayPaymentEntity → PaymentRecord
new_captured db now webhook_event_id payment = new_record db now webhook_event_id payment

unfoldable pub upsert_payment_record_from_captured :
    ℕ → RazorpayPaymentEntity → M (PaymentRecord × Bool)
upsert_payment_record_from_captured webhook_event_id payment = do
  db ← database
  t ← clock
  if_none (find_first (has_payment_id payment.id) db.payment_records)
      (let r = new_captured db t webhook_event_id payment in
        update (with_payment r) >> pure (r, true))
      λ existing.
        if ltb (status_priority PaymentStatus.captured) (status_priority existing.status)
        then pure (existing, false)
        else (let r = as_captured payment existing in
            update (write_payment (has_payment_id payment.id) r) >> pure (r, false))

-- An order.paid event confirms the capture of all but a refunded payment.
unfoldable pub paid_by_order : PaymentRecord → PaymentRecord
paid_by_order r = if is_refunded r.status then r else record r { status = PaymentStatus.captured }

-- An order.paid event with no payment entity: the payment is found by its order.
unfoldable pub capture_by_order : String → M (Option PaymentRecord)
capture_by_order order_id = do
  db ← database
  if_none (find_first (has_order_id order_id) db.payment_records) (pure none) λ existing.
      let r = paid_by_order existing in
      update (write_payment (has_order_id order_id) r) >> pure (some r)

unfoldable pub upsert_payment_record_from_order_paid :
    ℕ → Option RazorpayPaymentEntity → Option String → M (Option PaymentRecord)
unfolding capture_by_order
upsert_payment_record_from_order_paid webhook_event_id (some payment) order_id = do
  (r, _) ← upsert_payment_record_from_captured webhook_event_id payment
  pure (some r)
upsert_payment_record_from_order_paid webhook_event_id none none = pure none
upsert_payment_record_from_order_paid webhook_event_id none (some order_id) =
    if truthy (some order_id) then capture_by_order order_id else pure none
