-- ===== src/Invariant/Payments.antt =====
-- The status of a payment only moves forward, and a payment has one record.
use payment_recovery_opportu.Base.{ℕ, ◌≤◌, ◌≡◌, inl, inr, subst, String, some, arith, text_eq, ap}
use payment_recovery_opportu.Base.Table.{
  find_first, find_first-append_old, find_first-replace_cases,
}
use payment_recovery_opportu.Base.Unique.{IsUnique, IsUnique-append, IsUnique-replace}
use payment_recovery_opportu.Models.{Database, PaymentRecord, status_priority}
use payment_recovery_opportu.Crud.{has_payment_id}
use payment_recovery_opportu.Change.{
  Change, add_event, set_event_status, add_payment, advance_payment, add_decision, move_decision,
  add_audit, add_outreach, IsClosed,
}

-- The payment is recorded, with a status of at least this priority.
abbrev pub HasReached : String → ℕ → Database → Type 0
HasReached payment_id priority db =
    (r : PaymentRecord) × (find_first (has_payment_id payment_id) db.payment_records ≡ some r)
    × (priority ≤ status_priority r.status)

Change-HasReached :
    (p : String) (k : ℕ) (db db' : Database)
    → Change db db'
    → HasReached p k db
    → HasReached p k db'
Change-HasReached p k db db' (add_event w free e) v = rw e v
Change-HasReached p k db db' (set_event_status found w status at e) v = rw e v
Change-HasReached p k db db' (add_payment r free e) (x, found, le) =
    rw e (x, find_first-append_old (has_payment_id p) db.payment_records x r found, le)
Change-HasReached p k db db' (advance_payment found r r' at same le e) (x, hit, reached) =
    rw e
      (elim (find_first-replace_cases found (has_payment_id p) r' db.payment_records r x at hit
        (ap (λ t. text_eq t p) same)) [
          | inl stays ↦ (x, stays, reached)
          | inr (now, is_r) ↦ (r', now, omega (arith, reached_before is_r))
        ])
  where
    reached_before : x ≡ r → k ≤ status_priority r.status
    reached_before is_r = subst (λ y. k ≤ status_priority y.status) is_r reached
Change-HasReached p k db db' (add_decision d fresh id e) v = rw e v
Change-HasReached p k db db' (move_decision found d d' at t e) v = rw e v
Change-HasReached p k db db' (add_audit a e) v = rw e v
Change-HasReached p k db db' (add_outreach o e) v = rw e v

pub HasReached-closed : (p : String) (k : ℕ) → IsClosed (HasReached p k)
HasReached-closed p k = record { keep = Change-HasReached p k }

abbrev pub payment_key : PaymentRecord → String
payment_key r = r.razorpay_payment_id

-- No two records of one payment.
abbrev pub PaymentsUnique : Database → Type 0
PaymentsUnique db = IsUnique payment_key db.payment_records

Change-PaymentsUnique : (db db' : Database) → Change db db' → PaymentsUnique db → PaymentsUnique db'
Change-PaymentsUnique db db' (add_event w free e) v = rw e v
Change-PaymentsUnique db db' (set_event_status found w status at e) v = rw e v
Change-PaymentsUnique db db' (add_payment r free e) v =
    rw e (IsUnique-append payment_key db.payment_records r v free)
Change-PaymentsUnique db db' (advance_payment found r r' at same le e) v =
    rw e (IsUnique-replace payment_key found r' db.payment_records r v at same)
Change-PaymentsUnique db db' (add_decision d fresh id e) v = rw e v
Change-PaymentsUnique db db' (move_decision found d d' at t e) v = rw e v
Change-PaymentsUnique db db' (add_audit a e) v = rw e v
Change-PaymentsUnique db db' (add_outreach o e) v = rw e v

pub PaymentsUnique-closed : IsClosed PaymentsUnique
PaymentsUnique-closed = record { keep = Change-PaymentsUnique }
