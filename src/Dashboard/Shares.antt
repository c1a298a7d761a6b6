-- ===== src/Dashboard/Shares.antt =====
-- What the joins of the dashboard's queries count: the arms of the experiment, and the revenue.

use payment_recovery_opportu.Base.{
  ◌+◌, ◌≤◌, ◌≡◌, ◌∙◌, refl, Bool, true, false, ◌&&◌, inl, inr, Bool-cases, List, [], ◌∷◌, arith,
}
use payment_recovery_opportu.Base.Count.{count_if-implies}
use payment_recovery_opportu.Base.Table.{length, count_if, All}
use payment_recovery_opportu.Models.{Database, RecoveryDecision, PaymentRecord, Variant}
use payment_recovery_opportu.Floats.{FloatOps}
use payment_recovery_opportu.Dashboard.{
  Joined, is_payment_of, join_one, join, is_recovered_condition, in_arm, is_executed_link,
  arm_stats, interventions, ExperimentMetrics, get_experiment_metrics,
}

-- Every decision has its payment record, and one only.
abbrev pub IsJoined : Database → Type 0
IsJoined db = All (λ d. count_if (is_payment_of d) db.payment_records ≡ 1) db.recovery_decisions

module _ (q : RecoveryDecision → Bool) where
  abbrev of_decision : Joined → Bool
  of_decision j = q j.decision

  join_one-counted :
      (d : RecoveryDecision) (rs : List PaymentRecord) (rest : List Joined)
      → q d ≡ true
      → count_if of_decision (join_one d rs rest)
        ≡ count_if (is_payment_of d) rs + count_if of_decision rest
  unfolding count_if join_one
  join_one-counted d [] rest e = omega arith
  join_one-counted d (r ∷ rs) rest e =
      let ih = join_one-counted d rs rest e in
      elim (Bool-cases (is_payment_of d r)) [
        | inl hit ↦ rw hit (rw e (omega (arith, ih)))
        | inr miss ↦ rw miss ih
      ]

  join_one-skipped :
      (d : RecoveryDecision) (rs : List PaymentRecord) (rest : List Joined)
      → q d ≡ false
      → count_if of_decision (join_one d rs rest) ≡ count_if of_decision rest
  unfolding count_if join_one
  join_one-skipped d [] rest e = refl
  join_one-skipped d (r ∷ rs) rest e =
      let ih = join_one-skipped d rs rest e in
      elim (Bool-cases (is_payment_of d r)) [ inl hit ↦ rw hit (rw e ih) | inr miss ↦ rw miss ih ]

  -- Counting joined rows by their decision is counting decisions.
  join-counted :
      (ds : List RecoveryDecision) (rs : List PaymentRecord)
      → All (λ d. count_if (is_payment_of d) rs ≡ 1) ds
      → count_if of_decision (join ds rs) ≡ count_if q ds
  unfolding count_if join
  join-counted [] rs h = refl
  join-counted (d ∷ ds) rs h =
      let ih = join-counted ds rs h.1 in
      elim (Bool-cases (q d)) [
        | inl hit ↦ rw hit (omega (arith, join_one-counted d rs (join ds rs) hit, h.0, ih))
        | inr miss ↦ rw miss (join_one-skipped d rs (join ds rs) miss ∙ ih)
      ]

and_left : (a b : Bool) → (a && b) ≡ true → a ≡ true
and_left a b h = ground arith

arms_disjoint :
    (ds : List RecoveryDecision)
    → count_if (in_arm Variant.control) ds + count_if (in_arm Variant.treatment) ds ≤ length ds
unfolding count_if
arms_disjoint [] = omega arith
arms_disjoint (d ∷ ds) =
    let ih = arms_disjoint ds in
    elim (Bool-cases (in_arm Variant.control d)) [
      | inl is_control ↦ rw is_control (rw (not_both d is_control) (omega (arith, ih)))
      | inr other ↦ elim (Bool-cases (in_arm Variant.treatment d)) [
        | inl is_treatment ↦ rw (other, is_treatment) (omega (arith, ih))
        | inr neither ↦ rw (other, neither) (omega (arith, ih))
      ]
    ]
  where
    not_both :
        (d : RecoveryDecision)
        → in_arm Variant.control d ≡ true
        → in_arm Variant.treatment d ≡ false
    not_both d h = ground arith

-- The counts of the two arms fit each other and the table: no more recoveries than decisions in
-- either arm, no more interventions than decisions of treatment, and no decision in both arms.
pub record IsShare (db : Database) (m : ExperimentMetrics) : Type 0 where
  pub control_part : m.control_recovered ≤ m.control_n
  pub treatment_part : m.treatment_recovered ≤ m.treatment_n
  pub interventions_part : interventions db ≤ m.treatment_n
  pub arms : m.control_n + m.treatment_n ≤ length db.recovery_decisions

-- Where every decision has exactly one payment record, the counts of which the experiment's rates
-- are ratios are shares: in each arm the recovered decisions are no more than the decisions, the
-- interventions are no more than the decisions of treatment, and the two arms together are no more
-- than all decisions.
pub get_experiment_metrics-IsShare :
    (fl : FloatOps) (db : Database) → IsJoined db → IsShare db (get_experiment_metrics fl db)
unfolding get_experiment_metrics arm_stats interventions
get_experiment_metrics-IsShare fl db joined =
    let rows = join db.recovery_decisions db.payment_records in
    let control_count =
      join-counted (in_arm Variant.control) db.recovery_decisions db.payment_records joined in
    let treatment_count =
      join-counted (in_arm Variant.treatment) db.recovery_decisions db.payment_records joined in
    record {
      control_part =
          count_if-implies (λ j. in_arm Variant.control j.decision && is_recovered_condition j)
            (λ j. in_arm Variant.control j.decision) (λ j h. and_left _ _ h) rows;
      treatment_part =
          count_if-implies (λ j. in_arm Variant.treatment j.decision && is_recovered_condition j)
            (λ j. in_arm Variant.treatment j.decision) (λ j h. and_left _ _ h) rows;
      interventions_part = rw treatment_count (
          count_if-implies (λ d. in_arm Variant.treatment d && is_executed_link d)
            (in_arm Variant.treatment) (λ d h. and_left _ _ h) db.recovery_decisions);
      arms = rw (control_count, treatment_count) (arms_disjoint db.recovery_decisions);
    }
