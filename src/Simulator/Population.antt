-- ===== src/Simulator/Population.antt =====
-- The population that a policy is evaluated on: it is drawn before the policy is asked.
use payment_recovery_opportu.Base.{
  ℕ, ◌≡◌, ◌↔◌, ◌∙◌, refl, sym, ap, subst, Option, none, some, List, [], ◌∷◌,
}
use payment_recovery_opportu.Models.{RecoveryAction}
use payment_recovery_opportu.Session.{Result, ok}
use payment_recovery_opportu.Session.Yields.{ok-eq, err≢ok}
use payment_recovery_opportu.Json.{bind-ok}
use payment_recovery_opportu.Crud.{PolicyPrediction}
use payment_recovery_opportu.Features.{PaymentFeatures}
use payment_recovery_opportu.Simulator.{
  SimulatedContext, GroundTruth, SimulatedRecord, to_payment_features,
}
use payment_recovery_opportu.Simulator.Random.{Randomness}
use payment_recovery_opportu.Simulator.Engine.{generate_contexts, generate_ground_truth}
use payment_recovery_opportu.Simulator.Runner.{
  record_of, selected, evaluate_context, evaluate_contexts, evaluate_policy,
}

-- A predictor, as the runner takes it.
abbrev pub Predictor : Type 0
Predictor = PaymentFeatures → Result (Option PolicyPrediction)

module _ {S : Type 0} (rng : Randomness S) where
  -- The record of a context: its hidden truth, the action that the policy selects on its features
  -- alone, and the outcome and the cost of that action.
  pub record IsReplayed (predict : Predictor) (c : SimulatedContext) (r : SimulatedRecord)
      : Type 0 where
    pub truth : GroundTruth
    pub prediction : PolicyPrediction
    pub drawn : generate_ground_truth rng c ≡ ok truth
    pub predicted : predict (to_payment_features c) ≡ ok (some prediction)
    pub recorded : r ≡ record_of c truth prediction.selected_action

  abbrev pub AreReplayed : Predictor → List SimulatedContext → List SimulatedRecord → Type 0
  AreReplayed predict [] [] = Unit
  AreReplayed predict [] (r ∷ rs) = ⊥
  AreReplayed predict (c ∷ cs) [] = ⊥
  AreReplayed predict (c ∷ cs) (r ∷ rs) = IsReplayed predict c r × AreReplayed predict cs rs

  selected-ok :
      (o : Option PolicyPrediction) (kind : RecoveryAction)
      → selected o ≡ ok kind
      → (p : PolicyPrediction) × (o ≡ some p) × (p.selected_action ≡ kind)
  selected-ok none kind h = absurd (err≢ok h)
  selected-ok (some p) kind h = (p, refl, ok-eq h)

  evaluate_context-IsReplayed :
      (predict : Predictor) (c : SimulatedContext) (r : SimulatedRecord)
      → evaluate_context rng predict c ≡ ok r
      → IsReplayed predict c r
  unfolding evaluate_context
  evaluate_context-IsReplayed predict c r h =
      let (truth, drawn, rest) = bind-ok (generate_ground_truth rng c) _ r h in
      let (o, answered, rest) = bind-ok (predict (to_payment_features c)) _ r rest in
      let (kind, chosen, made) = bind-ok (selected o) _ r rest in
      let (p, same, action) = selected-ok o kind chosen in
      record {
        truth = truth;
        prediction = p;
        drawn = drawn;
        predicted = answered ∙ ap ok same;
        recorded = sym (ok-eq made) ∙ ap (record_of c truth) (sym action);
      }

  IsReplayed-evaluate_context :
      (predict : Predictor) (c : SimulatedContext) (r : SimulatedRecord)
      → IsReplayed predict c r
      → evaluate_context rng predict c ≡ ok r
  unfolding evaluate_context
  IsReplayed-evaluate_context predict c r h = rw h.drawn (rw h.predicted (ap ok (sym h.recorded)))

  evaluate_contexts-AreReplayed :
      (predict : Predictor) (cs : List SimulatedContext) (rs : List SimulatedRecord)
      → evaluate_contexts rng predict cs ≡ ok rs
      → AreReplayed predict cs rs
  unfolding evaluate_contexts
  evaluate_contexts-AreReplayed predict [] rs h = subst (AreReplayed predict []) (ok-eq h) tt
  evaluate_contexts-AreReplayed predict (c ∷ cs) rs h =
      let (r, one, rest) = bind-ok (evaluate_context rng predict c) _ rs h in
      let (more, others, made) = bind-ok (evaluate_contexts rng predict cs) _ rs rest in
      subst (AreReplayed predict (c ∷ cs)) (ok-eq made) (
        evaluate_context-IsReplayed predict c r one,
        evaluate_contexts-AreReplayed predict cs more others,
      )

  AreReplayed-evaluate_contexts :
      (predict : Predictor) (cs : List SimulatedContext) (rs : List SimulatedRecord)
      → AreReplayed predict cs rs
      → evaluate_contexts rng predict cs ≡ ok rs
  unfolding evaluate_contexts
  AreReplayed-evaluate_contexts predict [] [] h = refl
  AreReplayed-evaluate_contexts predict [] (r ∷ rs) h = absurd h
  AreReplayed-evaluate_contexts predict (c ∷ cs) [] h = absurd h
  AreReplayed-evaluate_contexts predict (c ∷ cs) (r ∷ rs) (one, others) =
      rw (IsReplayed-evaluate_context predict c r one)
        (rw (AreReplayed-evaluate_contexts predict cs rs others) refl)

-- The evaluation of a policy returns some records exactly if they are those of its population: one
-- record for each generated context, in their order, with the context, its hidden truth, the action
-- that the predictor selects on the features alone, and the outcome and the cost of that action.
-- The contexts and the truths do not depend on the predictor.
pub evaluate_policy-AreReplayed :
    {S : Type 0} (rng : Randomness S) (predict : Predictor) (n seed : ℕ) (rs : List SimulatedRecord)
    → (evaluate_policy rng predict n seed ≡ ok rs)
      ↔ AreReplayed rng predict (generate_contexts rng n seed) rs
unfolding evaluate_policy
evaluate_policy-AreReplayed rng predict n seed rs = (
  evaluate_contexts-AreReplayed rng predict (generate_contexts rng n seed) rs,
  AreReplayed-evaluate_contexts rng predict (generate_contexts rng n seed) rs,
)
