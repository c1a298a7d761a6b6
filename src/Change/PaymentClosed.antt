-- ===== src/Change/PaymentClosed.antt =====
-- The upserts of payment records are changes.
use payment_recovery_opportu.Base.{
  ℕ, ◌≤◌, ◌≡◌, inl, inr, refl, String, false, Option, none, some, arith, Option-cases, Bool-cases,
  ltb,
}
use payment_recovery_opportu.Base.Table.{find_first}
use payment_recovery_opportu.Models.{Database, PaymentRecord, PaymentStatus, status_priority}
use payment_recovery_opportu.Schemas.{RazorpayPaymentEntity}
use payment_recovery_opportu.Session.{◌>>=◌}
use payment_recovery_opportu.Session.Keeps.{Keeps, keeps_rules}
use payment_recovery_opportu.Crud.{
  has_payment_id, has_order_id, as_failed, as_captured, new_failed, new_captured, paid_by_order,
  capture_by_order, upsert_payment_record_from_failed, upsert_payment_record_from_captured,
  upsert_payment_record_from_order_paid,
}
use payment_recovery_opportu.Change.{IsClosed, add_payment, advance_payment}
use payment_recovery_opportu.Change.Closed.{Holds-Change}

-- No write lowers the priority of a status.
as_failed_advances :
    (payment : RazorpayPaymentEntity) (r : PaymentRecord)
    → ltb (status_priority PaymentStatus.failed) (status_priority r.status) ≡ false
    → status_priority r.status ≤ status_priority (as_failed payment r).status
unfolding as_failed
as_failed_advances payment r h = ground arith

as_captured_advances :
    (payment : RazorpayPaymentEntity) (r : PaymentRecord)
    → ltb (status_priority PaymentStatus.captured) (status_priority r.status) ≡ false
    → status_priority r.status ≤ status_priority (as_captured payment r).status
unfolding as_captured
as_captured_advances payment r h = ground arith

paid_by_order_advances :
    (r : PaymentRecord) → status_priority r.status ≤ status_priority (paid_by_order r).status
unfolding paid_by_order status_priority
paid_by_order_advances r = ground arith

paid_by_order_same_payment :
    (r : PaymentRecord) → (paid_by_order r).razorpay_payment_id ≡ r.razorpay_payment_id
unfolding paid_by_order
paid_by_order_same_payment r = ground arith

module _ {P : Database → Type 0} (closed : IsClosed P) where
  pub upsert_payment_record_from_failed-Keeps :
      (event : ℕ) (payment : RazorpayPaymentEntity)
      → Keeps P (upsert_payment_record_from_failed event payment)
  unfolding upsert_payment_record_from_failed ◌>>=◌ new_failed as_failed
  upsert_payment_record_from_failed-Keeps event payment = record {
    at = λ s h.
        elim (Option-cases (find_first (has_payment_id payment.id) s.current.payment_records)) [
          | inl free ↦ rw free (Holds-Change closed s _ (add_payment _ free refl) h)
          | inr (r, e) ↦
              rw e
                (elim (Bool-cases
                  (ltb (status_priority PaymentStatus.failed) (status_priority r.status))) [
                    | inl later ↦ rw later h
                    | inr earlier ↦ rw earlier (
                        Holds-Change closed s _
                          (advance_payment _ r _ e refl (as_failed_advances payment r earlier) refl)
                          h)
                  ])
        ];
  }

  pub upsert_payment_record_from_captured-Keeps :
      (event : ℕ) (payment : RazorpayPaymentEntity)
      → Keeps P (upsert_payment_record_from_captured event payment)
  unfolding upsert_payment_record_from_captured ◌>>=◌ new_captured as_captured
  upsert_payment_record_from_captured-Keeps event payment = record {
    at = λ s h.
        elim (Option-cases (find_first (has_payment_id payment.id) s.current.payment_records)) [
          | inl free ↦ rw free (Holds-Change closed s _ (add_payment _ free refl) h)
          | inr (r, e) ↦
              rw e
                (elim (Bool-cases
                  (ltb (status_priority PaymentStatus.captured) (status_priority r.status))) [
                    | inl later ↦ rw later h
                    | inr earlier ↦ rw earlier (
                        Holds-Change closed s _
                          (advance_payment _ r _ e refl (as_captured_advances payment r earlier)
                            refl)
                          h)
                  ])
        ];
  }

  capture_by_order-Keeps : (order_id : String) → Keeps P (capture_by_order order_id)
  unfolding capture_by_order ◌>>=◌
  capture_by_order-Keeps order_id = record {
    at = λ s h. elim (Option-cases (find_first (has_order_id order_id) s.current.payment_records)) [
      | inl missing ↦ rw missing h
      | inr (r, e) ↦ rw e (
          Holds-Change closed s _
            (advance_payment _ r _ e (paid_by_order_same_payment r) (paid_by_order_advances r) refl)
            h)
    ];
  }

  pub upsert_payment_record_from_order_paid-Keeps :
      (event : ℕ) (payment : Option RazorpayPaymentEntity) (order_id : Option String)
      → Keeps P (upsert_payment_record_from_order_paid event payment order_id)
  unfolding upsert_payment_record_from_order_paid
  upsert_payment_record_from_order_paid-Keeps event (some payment) order_id =
      search (keeps_rules, upsert_payment_record_from_captured-Keeps)
  upsert_payment_record_from_order_paid-Keeps event none none = search keeps_rules
  upsert_payment_record_from_order_paid-Keeps event none (some order_id) =
      search (keeps_rules, capture_by_order-Keeps)
