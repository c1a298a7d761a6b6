-- ===== src/Analysis/Learnt.antt =====
-- The sweep against the evaluation of the policy that the service decides with.
use payment_recovery_opportu.Base.{
  ℕ, ◌≡◌, ◌∙◌, refl, sym, ap, subst, String, Bool, true, some, List, [], ◌∷◌, map,
}
use payment_recovery_opportu.Base.Table.{some-eq, none≢some}
use payment_recovery_opportu.Models.{Float}
use payment_recovery_opportu.Session.{ok}
use payment_recovery_opportu.Features.{PaymentFeatures}
use payment_recovery_opportu.Numpy.{Numpy}
use payment_recovery_opportu.Learner.{SLearner, predict_probabilities}
use payment_recovery_opportu.Policy.{
  EconomicPolicy, expected_net, is_positive, action_for, economic_predict, always-ok,
  economic_predict-IsEconomic, economic_policy_predictor,
}
use payment_recovery_opportu.Simulator.{
  SimulatedContext, GroundTruth, SimulatedRecord, to_payment_features,
}
use payment_recovery_opportu.Simulator.Random.{Randomness}
use payment_recovery_opportu.Simulator.Engine.{generate_contexts, generate_ground_truth}
use payment_recovery_opportu.Simulator.Runner.{record_of, evaluate_policy}
use payment_recovery_opportu.Simulator.Evaluator.{Metrics, evaluate_metrics}
use payment_recovery_opportu.Simulator.Population.{
  Predictor, IsReplayed, AreReplayed, evaluate_policy-AreReplayed,
}
use payment_recovery_opportu.Analysis.Sensitivity.{Row, row_of, send_link, evaluate_threshold}
use payment_recovery_opportu.Analysis.Sweep.{
  Estimated, estimated_row, decided_record, AgreesWith, evaluate_threshold-AgreesWith,
}

-- The policy of the service, on numpy's floats.
abbrev pub policy_of :
    Numpy → (PaymentFeatures → Float → Float → String) → SLearner → EconomicPolicy
policy_of np describe s = record { model = s; floats = np.floats; describe = describe }

-- Each probability of a recovery with a link that the learner gives reaches the threshold.
abbrev pub Reaches : Numpy → SLearner → Float → Type 0
Reaches np s min_p1 =
    (f : PaymentFeatures) (p0 p1 : Float)
    → predict_probabilities s f ≡ ok (p0, p1)
    → np.le min_p1 p1 ≡ true

module _ {S : Type 0} (rng : Randomness S) (s : SLearner) where
  -- A context with its hidden truth and the probabilities that the learner gives its features.
  abbrev pub IsEstimated : SimulatedContext → Estimated → Type 0
  IsEstimated c (c', gt, p0, p1) =
      (c' ≡ c)
      × (generate_ground_truth rng c ≡ ok gt)
      × (predict_probabilities s (to_payment_features c) ≡ ok (p0, p1))

  abbrev pub AreEstimated : List SimulatedContext → List Estimated → Type 0
  AreEstimated [] [] = Unit
  AreEstimated [] (x ∷ xs) = ⊥
  AreEstimated (c ∷ cs) [] = ⊥
  AreEstimated (c ∷ cs) (x ∷ xs) = IsEstimated c x × AreEstimated cs xs

module _ {S : Type 0} (rng : Randomness S) (np : Numpy)
    (describe : PaymentFeatures → Float → Float → String) (s : SLearner) (min_p1 : Float)
    (reaches : Reaches np s min_p1) where
  abbrev send : Row → Bool
  send = send_link np min_p1

  abbrev predict_with : Predictor
  predict_with = (economic_policy_predictor (policy_of np describe s)).predict

  -- The threshold does not hold a link back, so the decision is the policy's.
  send_link-economic :
      (c : SimulatedContext) (gt : GroundTruth) (p0 p1 : Float)
      → predict_probabilities s (to_payment_features c) ≡ ok (p0, p1)
      → send (row_of c gt p0 p1)
        ≡ is_positive np.floats (expected_net np.floats c.amount_paise p0 p1)
  unfolding send_link row_of
  send_link-economic c gt p0 p1 learnt = rw (reaches (to_payment_features c) p0 p1 learnt) refl

  replayed-estimated :
      (c : SimulatedContext) (r : SimulatedRecord)
      → IsReplayed rng predict_with c r
      → (x : Estimated) × IsEstimated rng s c x × (r ≡ decided_record send x)
  unfolding economic_policy_predictor to_payment_features
  replayed-estimated c r h =
      let e = policy_of np describe s in
      let made =
        economic_predict-IsEconomic e (to_payment_features c) h.prediction
          (always-ok (economic_predict e (to_payment_features c)) h.prediction h.predicted) in
      (
        (c, h.truth, made.p0, made.p1),
        (refl, h.drawn, made.learnt),
        h.recorded
            ∙ ap (record_of c h.truth) (
                made.maximizes
                ∙ ap action_for (sym (send_link-economic c h.truth made.p0 made.p1 made.learnt))),
      )

  replayed-AreEstimated :
      (cs : List SimulatedContext) (rs : List SimulatedRecord)
      → AreReplayed rng predict_with cs rs
      → (xs : List Estimated) × AreEstimated rng s cs xs × (rs ≡ map (decided_record send) xs)
  replayed-AreEstimated [] [] h = ([], tt, refl)
  replayed-AreEstimated [] (r ∷ rs) h = absurd h
  replayed-AreEstimated (c ∷ cs) [] h = absurd h
  replayed-AreEstimated (c ∷ cs) (r ∷ rs) (one, others) =
      let (x, estimated, decided) = replayed-estimated c r one in
      let (xs, rest, same) = replayed-AreEstimated cs rs others in
      (
        x ∷ xs,
        (estimated, rest),
        ap (λ y. y ∷ rs) decided ∙ ap (λ ys. decided_record send x ∷ ys) same,
      )

  -- The figures of a batch, if it has any.
  swept-AgreesWith :
      (xs : List Estimated) (m : Metrics)
      → evaluate_metrics np.floats (map (decided_record send) xs) ≡ some m
      → AgreesWith (evaluate_threshold np min_p1 (map estimated_row xs)) m
  unfolding evaluate_metrics
  swept-AgreesWith [] m h = absurd (none≢some h)
  swept-AgreesWith (x ∷ xs) m h =
      let (m', computed, agrees) = evaluate_threshold-AgreesWith np min_p1 x xs in
      subst (AgreesWith (evaluate_threshold np min_p1 (map estimated_row (x ∷ xs))))
        (some-eq (sym computed ∙ h)) agrees

-- At a threshold that no probability of the learner stays below, the sweep judges the policy of the
-- service: where that policy was evaluated on a population, with metrics to report, the sweep over
-- the columns of the same contexts, with their hidden truths and the learner's probabilities,
-- reports the same intervention cost, empirical incremental gross and empirical incremental net.
pub evaluate_policy-AgreesWith :
    {S : Type 0} (rng : Randomness S) (np : Numpy)
    (describe : PaymentFeatures → Float → Float → String) (s : SLearner) (min_p1 : Float)
    (n seed : ℕ) (rs : List SimulatedRecord) (m : Metrics)
    → Reaches np s min_p1
    → evaluate_policy rng (economic_policy_predictor (policy_of np describe s)).predict n seed
      ≡ ok rs
    → evaluate_metrics np.floats rs ≡ some m
    → (xs : List Estimated) × AreEstimated rng s (generate_contexts rng n seed) xs
      × AgreesWith (evaluate_threshold np min_p1 (map estimated_row xs)) m
evaluate_policy-AgreesWith rng np describe s min_p1 n seed rs m reaches evaluated metrics =
    let predict = (economic_policy_predictor (policy_of np describe s)).predict in
    let replayed = (evaluate_policy-AreReplayed rng predict n seed rs).0 evaluated in
    let (xs, estimated, same) =
      replayed-AreEstimated rng np describe s min_p1 reaches (generate_contexts rng n seed) rs
        replayed in
    (
      xs,
      estimated,
      swept-AgreesWith rng np describe s min_p1 reaches xs m
          (ap (evaluate_metrics np.floats) (sym same) ∙ metrics),
    )
