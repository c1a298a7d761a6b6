-- ===== src/Analysis/Sweep.antt =====
-- The sweep over whole columns, and the evaluation of the same decisions record by record.
use payment_recovery_opportu.Base.{
  ℕ, ◌+◌, ◌≡◌, ◌∙◌, refl, sym, ap, inl, inr, Bool, some, List, [], ◌∷◌, map, Bool-cases, arith,
}
use payment_recovery_opportu.Models.{Float, ℤ, pos}
use payment_recovery_opportu.Models.Integers.{◌+ℤ◌, +ℤ_assoc}
use payment_recovery_opportu.Floats.{FloatOps, in_rupees}
use payment_recovery_opportu.Numpy.{Numpy}
use payment_recovery_opportu.Policy.{action_for, intervention_cost}
use payment_recovery_opportu.Simulator.{SimulatedContext, GroundTruth, SimulatedRecord}
use payment_recovery_opportu.Simulator.Runner.{outcome_of, record_of}
use payment_recovery_opportu.Simulator.Evaluator.{
  emp_inc_gross, emp_inc_net, Totals, no_totals, Metrics, add_record, add_records, report,
  evaluate_metrics,
}
use payment_recovery_opportu.Analysis.Sensitivity.{
  Row, row_of, SweepResult, sum_ints, sum_counts, cost_paise, row_inc_gross, row_inc_net, send_link,
  evaluate_threshold,
}

-- A synthetic payment, its truth, and the two probabilities that the learner gave it.
abbrev pub Estimated : Type 0
Estimated = SimulatedContext × GroundTruth × Float × Float

abbrev pub estimated_row : Estimated → Row
estimated_row (c, gt, p0, p1) = row_of c gt p0 p1

-- The record of a payment on which a decision is taken.
abbrev pub decided_record : (Row → Bool) → Estimated → SimulatedRecord
decided_record send (c, gt, p0, p1) = record_of c gt (action_for (send (row_of c gt p0 p1)))

-- The figures of a batch that both compute in paise.
pub record AgreesWith (s : SweepResult) (m : Metrics) : Type 0 where
  pub same_cost : s.cost_inr ≡ m.intervention_cost_inr
  pub same_gross : s.emp_inc_gross_inr ≡ m.empirical_incremental_gross_inr
  pub same_net : s.emp_inc_net_inr ≡ m.empirical_incremental_net_inr

+ℤ_zero : (z : ℤ) → z ≡ z +ℤ pos 0
+ℤ_zero z = ground arith

module _ (send : Row → Bool) where
  decided-cost :
      (x : Estimated)
      → (decided_record send x).intervention_cost_paise ≡ cost_paise send (estimated_row x)
  unfolding record_of intervention_cost
  decided-cost (c, gt, p0, p1) = elim (Bool-cases (send (row_of c gt p0 p1))) [
    | inl sends ↦ rw sends refl
    | inr keeps ↦ rw keeps refl
  ]

  decided-gross :
      (x : Estimated) → emp_inc_gross (decided_record send x) ≡ row_inc_gross send (estimated_row x)
  unfolding record_of outcome_of emp_inc_gross row_of
  decided-gross (c, gt, p0, p1) = elim (Bool-cases (send (row_of c gt p0 p1))) [
    | inl sends ↦ rw sends refl
    | inr keeps ↦ rw keeps refl
  ]

  decided-net :
      (x : Estimated) → emp_inc_net (decided_record send x) ≡ row_inc_net send (estimated_row x)
  unfolding emp_inc_net
  decided-net x = rw (decided-gross x, decided-cost x) refl

  module _ (fl : FloatOps) where
    total-cost :
        (xs : List Estimated) (t : Totals)
        → (add_records fl t (map (decided_record send) xs)).intervention_cost_paise
          ≡ t.intervention_cost_paise + sum_counts (map (cost_paise send) (map estimated_row xs))
    unfolding add_records add_record sum_counts
    total-cost [] t = omega arith
    total-cost (x ∷ xs) t =
        omega (arith, total-cost xs (add_record fl t (decided_record send x)), decided-cost x)

    total-gross :
        (xs : List Estimated) (t : Totals)
        → (add_records fl t (map (decided_record send) xs)).empirical_incremental_gross_paise
          ≡ t.empirical_incremental_gross_paise
            +ℤ sum_ints (map (row_inc_gross send) (map estimated_row xs))
    unfolding add_records add_record sum_ints
    total-gross [] t = +ℤ_zero _
    total-gross (x ∷ xs) t =
        total-gross xs (add_record fl t (decided_record send x))
        ∙ +ℤ_assoc t.empirical_incremental_gross_paise (emp_inc_gross (decided_record send x)) _
        ∙ ap
            (λ z.
              t.empirical_incremental_gross_paise
              +ℤ (z +ℤ sum_ints (map (row_inc_gross send) (map estimated_row xs))))
            (decided-gross x)

    total-net :
        (xs : List Estimated) (t : Totals)
        → (add_records fl t (map (decided_record send) xs)).empirical_incremental_net_paise
          ≡ t.empirical_incremental_net_paise
            +ℤ sum_ints (map (row_inc_net send) (map estimated_row xs))
    unfolding add_records add_record sum_ints
    total-net [] t = +ℤ_zero _
    total-net (x ∷ xs) t =
        total-net xs (add_record fl t (decided_record send x))
        ∙ +ℤ_assoc t.empirical_incremental_net_paise (emp_inc_net (decided_record send x)) _
        ∙ ap
            (λ z.
              t.empirical_incremental_net_paise
              +ℤ (z +ℤ sum_ints (map (row_inc_net send) (map estimated_row xs))))
            (decided-net x)

no_cost : (n : ℕ) → 0 + n ≡ n
no_cost n = omega arith

pos_zero : (z : ℤ) → pos 0 +ℤ z ≡ z
pos_zero z = ground arith

-- The sweep over the columns of a batch that is not empty reports the same intervention cost, the
-- same empirical incremental gross and the same empirical incremental net as the evaluator does on
-- the records of the same decisions, at every threshold, to the last bit.
pub evaluate_threshold-AgreesWith :
    (np : Numpy) (min_p1 : Float) (x : Estimated) (xs : List Estimated)
    → (m : Metrics) × (evaluate_metrics np.floats
          (map (decided_record (send_link np min_p1)) (x ∷ xs))
        ≡ some m)
      × AgreesWith (evaluate_threshold np min_p1 (map estimated_row (x ∷ xs))) m
unfolding evaluate_metrics evaluate_threshold report
evaluate_threshold-AgreesWith np min_p1 x xs =
    let fl = np.floats in
    let send = send_link np min_p1 in
    let batch = x ∷ xs in
    (
      _,
      refl,
      record {
        same_cost =
            ap (λ n. in_rupees fl (pos n)) (sym (total-cost send fl batch no_totals ∙ no_cost _));
        same_gross = ap (in_rupees fl) (sym (total-gross send fl batch no_totals ∙ pos_zero _));
        same_net = ap (in_rupees fl) (sym (total-net send fl batch no_totals ∙ pos_zero _));
      },
    )
