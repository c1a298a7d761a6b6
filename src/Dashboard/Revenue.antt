-- ===== src/Dashboard/Revenue.antt =====
-- What the recovered revenue of the summary adds up.
use payment_recovery_opportu.Base.{
  ℕ, ◌+◌, ◌*◌, ◌≡◌, refl, Bool, ◌&&◌, inl, inr, Bool-cases, List, [], ◌∷◌, if◌then◌else◌, arith,
}
use native.Mathlib.Nat.{mul-suc}
use payment_recovery_opportu.Base.Table.{count_if}
use payment_recovery_opportu.Models.{Database, RecoveryDecision, PaymentRecord}
use payment_recovery_opportu.Dashboard.{
  Joined, is_payment_of, join_one, join, sum_if, is_recovered_condition, recovered_amount_paise,
}

-- The decision is one of the payment, and counts as recovered.
abbrev pub is_recovery_of : PaymentRecord → RecoveryDecision → Bool
is_recovery_of r d =
    is_payment_of d r && is_recovered_condition (record { decision = d; payment = r })

-- The revenue, payment by payment: its amount once for each decision of it that counts as
-- recovered.
unfoldable pub revenue_by_payment : List RecoveryDecision → List PaymentRecord → ℕ
revenue_by_payment ds [] = 0
revenue_by_payment ds (r ∷ rs) =
    r.amount * count_if (is_recovery_of r) ds + revenue_by_payment ds rs

-- What one decision adds to the sum.
revenue_of : RecoveryDecision → List PaymentRecord → ℕ
revenue_of d [] = 0
revenue_of d (r ∷ rs) =
    let more = revenue_of d rs in if is_recovery_of r d then r.amount + more else more

abbrev amount_of : Joined → ℕ
amount_of j = j.payment.amount

join_one-revenue :
    (d : RecoveryDecision) (rs : List PaymentRecord) (rest : List Joined)
    → sum_if is_recovered_condition amount_of (join_one d rs rest)
      ≡ revenue_of d rs + sum_if is_recovered_condition amount_of rest
unfolding sum_if join_one revenue_of
join_one-revenue d [] rest = omega arith
join_one-revenue d (r ∷ rs) rest =
    let ih = join_one-revenue d rs rest in
    elim (Bool-cases (is_payment_of d r)) [
      | inl mine ↦
          rw mine
            (elim (Bool-cases (is_recovered_condition (record { decision = d; payment = r }))) [
              | inl paid ↦ rw paid (omega (arith, ih))
              | inr unpaid ↦ rw unpaid ih
            ])
      | inr other ↦ rw other ih
    ]

revenue_by_payment-cons :
    (d : RecoveryDecision) (ds : List RecoveryDecision) (rs : List PaymentRecord)
    → revenue_by_payment (d ∷ ds) rs ≡ revenue_of d rs + revenue_by_payment ds rs
unfolding revenue_by_payment revenue_of count_if
revenue_by_payment-cons d ds [] = omega arith
revenue_by_payment-cons d ds (r ∷ rs) =
    let ih = revenue_by_payment-cons d ds rs in
    elim (Bool-cases (is_recovery_of r d)) [
      | inl mine ↦ rw mine (omega (arith, ih, mul-suc r.amount (count_if (is_recovery_of r) ds)))
      | inr other ↦ rw other (omega (arith, ih))
    ]

revenue_by_payment-none : (rs : List PaymentRecord) → revenue_by_payment [] rs ≡ 0
unfolding revenue_by_payment count_if
revenue_by_payment-none [] = refl
revenue_by_payment-none (r ∷ rs) = omega (arith, revenue_by_payment-none rs)

join-revenue :
    (ds : List RecoveryDecision) (rs : List PaymentRecord)
    → sum_if is_recovered_condition amount_of (join ds rs) ≡ revenue_by_payment ds rs
unfolding join sum_if
join-revenue [] rs = rw (revenue_by_payment-none rs) refl
join-revenue (d ∷ ds) rs =
    omega (
      arith,
      join_one-revenue d rs (join ds rs),
      join-revenue ds rs,
      revenue_by_payment-cons d ds rs,
    )

-- The recovered amount of the summary is the sum, over the payment records, of the amount times the
-- number of the payment's decisions that count as recovered: a captured payment with two decisions
-- is counted twice.
pub recovered_amount_paise-by_payment :
    (db : Database)
    → recovered_amount_paise db ≡ revenue_by_payment db.recovery_decisions db.payment_records
unfolding recovered_amount_paise
recovered_amount_paise-by_payment db = join-revenue db.recovery_decisions db.payment_records
