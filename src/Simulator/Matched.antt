-- ===== src/Simulator/Matched.antt =====
-- Two policies on one population: the records that their evaluations make of the same payments.
use payment_recovery_opportu.Base.{
  ℕ, zero, suc, ◌≡◌, ◌∙◌, refl, sym, ap, subst, Bool, some, List, [], ◌∷◌,
}
use payment_recovery_opportu.Base.Table.{length}
use payment_recovery_opportu.Models.{RecoveryAction}
use payment_recovery_opportu.Session.{ok}
use payment_recovery_opportu.Session.Yields.{ok-eq}
use payment_recovery_opportu.Crud.{PolicyPrediction}
use payment_recovery_opportu.Policy.{intervention_cost}
use payment_recovery_opportu.Simulator.{
  SimulatedContext, GroundTruth, SimulatedRecord, to_payment_features,
}
use payment_recovery_opportu.Simulator.Random.{Randomness}
use payment_recovery_opportu.Simulator.Engine.{contexts_from, generate_contexts}
use payment_recovery_opportu.Simulator.Runner.{outcome_of, record_of, evaluate_policy}
use payment_recovery_opportu.Simulator.Population.{
  Predictor, IsReplayed, AreReplayed, evaluate_policy-AreReplayed,
}

-- What an action leads to, by the truth: whether the payment is recovered, and the cost in paise.
pub data LeadsTo (gt : GroundTruth) : RecoveryAction → Bool → ℕ → Type 0 where
  untouched : LeadsTo gt RecoveryAction.no_action gt.y_do_nothing 0
  linked : LeadsTo gt RecoveryAction.send_payment_link gt.y_link 300
  discounted : LeadsTo gt RecoveryAction.send_payment_link_with_discount gt.y_discount 300

-- A record in which the policy has chosen on the features, and its action has led to what the truth
-- says.
pub record IsPlayed (predict : Predictor) (r : SimulatedRecord) : Type 0 where
  pub prediction : PolicyPrediction
  pub predicted : predict (to_payment_features r.context) ≡ ok (some prediction)
  pub acted : r.assigned_action ≡ prediction.selected_action
  pub led : LeadsTo r.ground_truth r.assigned_action r.observed_outcome r.intervention_cost_paise

-- Two records of one payment with one truth, each played by its policy.
pub record IsMatched (p q : Predictor) (r r' : SimulatedRecord) : Type 0 where
  pub same_context : r.context ≡ r'.context
  pub same_truth : r.ground_truth ≡ r'.ground_truth
  pub first_played : IsPlayed p r
  pub second_played : IsPlayed q r'

abbrev pub AreMatched : Predictor → Predictor → List SimulatedRecord → List SimulatedRecord → Type 0
AreMatched p q [] [] = Unit
AreMatched p q [] (r ∷ rs) = ⊥
AreMatched p q (r ∷ rs) [] = ⊥
AreMatched p q (r ∷ rs) (r' ∷ rs') = IsMatched p q r r' × AreMatched p q rs rs'

action_leads :
    (gt : GroundTruth) (kind : RecoveryAction)
    → LeadsTo gt kind (outcome_of gt kind) (intervention_cost kind)
unfolding outcome_of intervention_cost
action_leads gt RecoveryAction.no_action = LeadsTo.untouched
action_leads gt RecoveryAction.send_payment_link = LeadsTo.linked
action_leads gt RecoveryAction.send_payment_link_with_discount = LeadsTo.discounted

module _ {S : Type 0} (rng : Randomness S) where
  replayed-IsPlayed :
      (predict : Predictor) (c : SimulatedContext) (r : SimulatedRecord)
      → IsReplayed rng predict c r
      → IsPlayed predict r
  unfolding record_of
  replayed-IsPlayed predict c r h = subst (IsPlayed predict) (sym h.recorded) (record {
    prediction = h.prediction;
    predicted = h.predicted;
    acted = refl;
    led = action_leads h.truth h.prediction.selected_action;
  })

  replayed-IsMatched :
      (p q : Predictor) (c : SimulatedContext) (r r' : SimulatedRecord)
      → IsReplayed rng p c r
      → IsReplayed rng q c r'
      → IsMatched p q r r'
  unfolding record_of
  replayed-IsMatched p q c r r' h k =
      let same : h.truth ≡ k.truth = ok-eq (sym h.drawn ∙ k.drawn) in
      record {
        same_context = ap (λ x. x.context) h.recorded ∙ ap (λ x. x.context) (sym k.recorded);
        same_truth =
            ap (λ x. x.ground_truth) h.recorded ∙ same ∙ ap (λ x. x.ground_truth) (sym k.recorded);
        first_played = replayed-IsPlayed p c r h;
        second_played = replayed-IsPlayed q c r' k;
      }

  replayed-AreMatched :
      (p q : Predictor) (cs : List SimulatedContext) (rs rs' : List SimulatedRecord)
      → AreReplayed rng p cs rs
      → AreReplayed rng q cs rs'
      → AreMatched p q rs rs' × (length rs ≡ length cs)
  replayed-AreMatched p q [] [] [] h k = (tt, refl)
  replayed-AreMatched p q [] [] (r' ∷ rs') h k = absurd k
  replayed-AreMatched p q [] (r ∷ rs) rs' h k = absurd h
  replayed-AreMatched p q (c ∷ cs) [] rs' h k = absurd h
  replayed-AreMatched p q (c ∷ cs) (r ∷ rs) [] h k = absurd k
  replayed-AreMatched p q (c ∷ cs) (r ∷ rs) (r' ∷ rs') (h, hs) (k, ks) =
      let (matched, as_many) = replayed-AreMatched p q cs rs rs' hs ks in
      ((replayed-IsMatched p q c r r' h k, matched), ap suc as_many)

  length-contexts_from : (seed i n : ℕ) (s : S) → length (contexts_from rng seed i n s) ≡ n
  unfolding contexts_from
  length-contexts_from seed i zero s = refl
  length-contexts_from seed i (suc n) s = ap suc (length-contexts_from seed (suc i) n _)

-- Two policies that are evaluated on as many transactions from the same seed are compared payment by
-- payment: both make one record for each of the transactions, the records in the same place are of
-- one context with one hidden truth, and in each the action is the one that its policy selects on
-- the features, and has led to the outcome that the truth holds for that action, at no cost for no
-- action and at 300 paise for a link.
pub evaluate_policy-AreMatched :
    {S : Type 0} (rng : Randomness S) (p q : Predictor) (n seed : ℕ) (rs rs' : List SimulatedRecord)
    → evaluate_policy rng p n seed ≡ ok rs
    → evaluate_policy rng q n seed ≡ ok rs'
    → AreMatched p q rs rs' × (length rs ≡ n)
unfolding generate_contexts
evaluate_policy-AreMatched rng p q n seed rs rs' first second =
    let cs = generate_contexts rng n seed in
    let (matched, as_many) =
      replayed-AreMatched rng p q cs rs rs' ((evaluate_policy-AreReplayed rng p n seed rs).0 first)
        ((evaluate_policy-AreReplayed rng q n seed rs').0 second) in
    (matched, as_many ∙ length-contexts_from rng seed 0 n _)
