-- ===== src/Features/History.antt =====
-- Whose history the features of a payment count.
use payment_recovery_opportu.Base.{
  ℕ, ◌≡◌, ◌∙◌, refl, sym, String, Bool, true, false, ◌&&◌, Option, none, some, ◌==◌, ==_iff, inl,
  inr, Bool-cases, List, [], ◌∷◌,
}
use payment_recovery_opportu.Base.Table.{count_if, replace}
use payment_recovery_opportu.Base.Count.{count_if-miss}
use payment_recovery_opportu.Models.{Database, PaymentRecord, PaymentStatus, is_failed, is_captured}
use payment_recovery_opportu.Features.{
  extract_features, count_for, is_prior, customer_identifier_of, column_is, identifier_column,
}

abbrev pub is_row : ℕ → PaymentRecord → Bool
is_row id r = r.id == id

own_row :
    (payment r : PaymentRecord) (c : String) (test : PaymentStatus → Bool)
    → is_row payment.id r ≡ true
    → is_prior payment c test r ≡ false
own_row payment r c test h =
    rw h (and_false (column_is c (identifier_column payment r)) (test r.status))
  where
    and_false : (a b : Bool) → (a && b && false) ≡ false
    and_false true true = refl
    and_false true false = refl
    and_false false b = refl

count_if-same :
    (p : PaymentRecord → Bool) (r : PaymentRecord) (xs ys : List PaymentRecord)
    → count_if p xs ≡ count_if p ys
    → count_if p (r ∷ xs) ≡ count_if p (r ∷ ys)
unfolding count_if
count_if-same p r xs ys e = rw e refl

module _ (payment written : PaymentRecord) (own : is_row payment.id written ≡ true) where
  count_if-own :
      (c : String) (test : PaymentStatus → Bool) (rs : List PaymentRecord)
      → count_if (is_prior payment c test) (replace (is_row payment.id) written rs)
        ≡ count_if (is_prior payment c test) rs
  unfolding replace
  count_if-own c test [] = refl
  count_if-own c test (r ∷ rs) =
      let prior : PaymentRecord → Bool = is_prior payment c test in
      elim (Bool-cases (is_row payment.id r)) [
        | inl hit ↦ rw hit (
            count_if-miss prior written rs (own_row payment written c test own)
            ∙ sym (count_if-miss prior r rs (own_row payment r c test hit)))
        | inr miss ↦ rw miss (count_if-same prior r _ rs (count_if-own c test rs))
      ]

  abbrev pub overwritten : Database → Database
  overwritten db = record db {
    payment_records = replace (is_row payment.id) written db.payment_records;
  }

  count_for-own :
      (test : PaymentStatus → Bool) (db : Database) (customer : Option String)
      → count_for payment test (overwritten db) customer ≡ count_for payment test db customer
  count_for-own test db none = refl
  count_for-own test db (some c) = rw (count_if-own c test db.payment_records) refl

-- The features of a payment, its history among them, do not depend on its own row in the database:
-- whatever is written over that row, its own outcome too, they stay the same.
pub extract_features-own :
    (payment written : PaymentRecord) (db : Database)
    → written.id ≡ payment.id
    → extract_features payment
        (record db { payment_records = replace (is_row payment.id) written db.payment_records })
      ≡ extract_features payment db
unfolding extract_features
extract_features-own payment written db same =
    let own : is_row payment.id written ≡ true = (==_iff written.id payment.id).1 same in
    rw
      (
        count_for-own payment written own is_failed db (customer_identifier_of payment),
        count_for-own payment written own is_captured db (customer_identifier_of payment),
      )
      refl
