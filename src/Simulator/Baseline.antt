-- ===== src/Simulator/Baseline.antt =====
-- A policy against the policy that does nothing, on one population.
use payment_recovery_opportu.Base.{
  ℕ, ◌*◌, ◌≡◌, ◌∙◌, refl, sym, ap, Bool, true, false, List, [], ◌∷◌, arith,
}
use payment_recovery_opportu.Base.Table.{some-eq, All}
use payment_recovery_opportu.Models.{ℤ, pos}
use payment_recovery_opportu.Models.Integers.{minus, int_of, ◌+ℤ◌, ◌*ℤ◌}
use payment_recovery_opportu.Session.{ok}
use payment_recovery_opportu.Session.Yields.{ok-eq}
use payment_recovery_opportu.Floats.{FloatOps}
use payment_recovery_opportu.Policy.{intervention_cost}
use payment_recovery_opportu.Simulator.{SimulatedContext, SimulatedRecord}
use payment_recovery_opportu.Simulator.Random.{Randomness}
use payment_recovery_opportu.Simulator.Engine.{generate_contexts}
use payment_recovery_opportu.Simulator.Runner.{record_of, outcome_of, evaluate_policy}
use payment_recovery_opportu.Simulator.Evaluator.{
  emp_inc_gross, Totals, no_totals, add_record, add_records,
}
use payment_recovery_opportu.Simulator.Balance.{baseline_paise, all_records-IsBalanced}
use payment_recovery_opportu.Simulator.Population.{
  Predictor, IsReplayed, AreReplayed, evaluate_policy-AreReplayed,
}
use payment_recovery_opportu.Scripts.EvaluatePhase3.{always_do_nothing}

-- What the evaluator adds up for some records.
abbrev pub totals : FloatOps → List SimulatedRecord → Totals
totals fl rs = add_records fl no_totals rs

-- A record of no action costs nothing and changes nothing.
abbrev IsIdle : SimulatedRecord → Type 0
IsIdle r = (emp_inc_gross r ≡ pos 0) × (r.intervention_cost_paise ≡ 0)

same_outcome : (y : Bool) (amount : ℕ) → minus (int_of y) (int_of y) *ℤ amount ≡ pos 0
same_outcome true amount = ground arith
same_outcome false amount = ground arith

add_zero : (z : ℤ) → z +ℤ pos 0 ≡ z
add_zero z = ground arith

add_idle_records :
    (fl : FloatOps) (rs : List SimulatedRecord) (t : Totals)
    → All IsIdle rs
    → ((add_records fl t rs).empirical_incremental_gross_paise
        ≡ t.empirical_incremental_gross_paise)
      × ((add_records fl t rs).intervention_cost_paise ≡ t.intervention_cost_paise)
unfolding add_records add_record
add_idle_records fl [] t h = (refl, refl)
add_idle_records fl (r ∷ rs) t ((unchanged, free), more) =
    let (gross, cost) = add_idle_records fl rs (add_record fl t r) more in
    (gross ∙ rw unchanged (add_zero _), omega (arith, cost, free))

module _ {S : Type 0} (rng : Randomness S) where
  nothing-IsIdle :
      (c : SimulatedContext) (r : SimulatedRecord) → IsReplayed rng always_do_nothing c r → IsIdle r
  unfolding always_do_nothing record_of outcome_of intervention_cost emp_inc_gross
  nothing-IsIdle c r h =
      let same : _ ≡ h.prediction = some-eq (ok-eq h.predicted) in
      rw h.recorded (rw (← same) (same_outcome h.truth.y_do_nothing c.amount_paise, refl))

  nothing_throughout :
      (cs : List SimulatedContext) (rs : List SimulatedRecord)
      → AreReplayed rng always_do_nothing cs rs
      → All IsIdle rs
  nothing_throughout [] [] h = tt
  nothing_throughout [] (r ∷ rs) h = absurd h
  nothing_throughout (c ∷ cs) [] h = absurd h
  nothing_throughout (c ∷ cs) (r ∷ rs) (one, others) =
      (nothing-IsIdle c r one, nothing_throughout cs rs others)

  -- Two policies meet the same context and the same truth.
  same_baseline :
      (p q : Predictor) (c : SimulatedContext) (r r' : SimulatedRecord)
      → IsReplayed rng p c r
      → IsReplayed rng q c r'
      → int_of r.ground_truth.y_do_nothing * r.context.amount_paise
        ≡ int_of r'.ground_truth.y_do_nothing * r'.context.amount_paise
  unfolding record_of
  same_baseline p q c r r' h k =
      let same : h.truth ≡ k.truth = ok-eq (sym h.drawn ∙ k.drawn) in
      rw h.recorded (rw k.recorded (rw same refl))

  same_baselines :
      (p q : Predictor) (cs : List SimulatedContext) (rs rs' : List SimulatedRecord)
      → AreReplayed rng p cs rs
      → AreReplayed rng q cs rs'
      → baseline_paise rs ≡ baseline_paise rs'
  unfolding baseline_paise
  same_baselines p q [] [] [] h k = refl
  same_baselines p q [] [] (r ∷ rs') h k = absurd k
  same_baselines p q [] (r ∷ rs) rs' h k = absurd h
  same_baselines p q (c ∷ cs) [] rs' h k = absurd h
  same_baselines p q (c ∷ cs) (r ∷ rs) [] h k = absurd k
  same_baselines p q (c ∷ cs) (r ∷ rs) (r' ∷ rs') (h, hs) (k, ks) =
      omega (arith, same_baseline p q c r r' h k, same_baselines p q cs rs rs' hs ks)

pos-eq : (m n : ℕ) → pos 0 +ℤ pos m ≡ pos n → m ≡ n
pos-eq m n h = ground arith

-- A policy that is evaluated against the policy that always does nothing, on as many transactions
-- and from the same seed: the latter costs nothing and its incremental gross is 0, and the
-- incremental gross of the policy is to the paise what it recovers more, or less, than the latter.
pub evaluate_policy-incremental :
    {S : Type 0} (rng : Randomness S) (fl : FloatOps) (predict : Predictor) (n seed : ℕ)
    (rs nothing : List SimulatedRecord)
    → evaluate_policy rng predict n seed ≡ ok rs
    → evaluate_policy rng always_do_nothing n seed ≡ ok nothing
    → ((totals fl nothing).empirical_incremental_gross_paise ≡ pos 0)
      × ((totals fl nothing).intervention_cost_paise ≡ 0)
      × ((totals fl rs).empirical_incremental_gross_paise
            +ℤ pos (totals fl nothing).gross_recovery_paise
          ≡ pos (totals fl rs).gross_recovery_paise)
evaluate_policy-incremental rng fl predict n seed rs nothing returned idle =
    let cs = generate_contexts rng n seed in
    let replayed = (evaluate_policy-AreReplayed rng predict n seed rs).0 returned in
    let idled = (evaluate_policy-AreReplayed rng always_do_nothing n seed nothing).0 idle in
    let (gross, cost) =
      add_idle_records fl nothing no_totals (nothing_throughout rng cs nothing idled) in
    let balanced = all_records-IsBalanced fl rs in
    let balanced_idle = all_records-IsBalanced fl nothing in
    let recovered =
      pos-eq (baseline_paise nothing) (totals fl nothing).gross_recovery_paise
        (ap (λ z. z +ℤ pos (baseline_paise nothing)) (sym gross) ∙ balanced_idle.gross) in
    let same = same_baselines rng predict always_do_nothing cs rs nothing replayed idled in
    (
      gross,
      cost,
      ap (λ k. (totals fl rs).empirical_incremental_gross_paise +ℤ pos k) (sym (same ∙ recovered))
          ∙ balanced.gross,
    )
