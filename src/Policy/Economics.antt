-- ===== src/Policy/Economics.antt =====
-- What a payment link of the economic policy says of the learner's probabilities.
use payment_recovery_opportu.Base.{
  ℕ, ◌≡◌, refl, sym, ◌∙◌, subst, inl, inr, Bool, true, false, none, some, Bool-cases, Option-cases,
}
use payment_recovery_opportu.Models.{RecoveryAction, DecisionStatus, Float, ℤ, pos}
use payment_recovery_opportu.Session.{Error, Result, ok, err}
use payment_recovery_opportu.Session.Yields.{Result-cases}
use payment_recovery_opportu.Crud.{PolicyPrediction}
use payment_recovery_opportu.Features.{PaymentFeatures}
use payment_recovery_opportu.Floats.{FloatOps}
use payment_recovery_opportu.Learner.{predict_probabilities}
use payment_recovery_opportu.Policy.{
  EconomicPolicy, expected_net, intervention_cost, is_positive, action_for, economic_predict,
  economic_predict-IsEconomic,
}

-- Where the signs of binary64 results come from. All of it holds with NaNs and infinities too: a
-- difference is positive only if the first number is larger, a product with a count only if the
-- other factor is, and what is left after a cost only if what was there is.
pub record HasSigns (fl : FloatOps) : Type 0 where
  pub positive_sub : (x y : Float) → is_positive fl (fl.sub x y) ≡ true → fl.lt y x ≡ true
  pub positive_mul :
      (n : ℕ) (x : Float)
      → is_positive fl (fl.mul (fl.of_int (pos n)) x) ≡ true
      → is_positive fl x ≡ true
  pub positive_less :
      (n : ℕ) (x : Float)
      → is_positive fl (fl.sub x (fl.of_int (pos n))) ≡ true
      → is_positive fl x ≡ true

action_for-link : (b : Bool) → action_for b ≡ RecoveryAction.send_payment_link → b ≡ true
action_for-link true h = refl
action_for-link false h = cc

-- The economic policy sends a link only where the learner expects a higher probability of recovery
-- with it than without.
pub economic_predict-uplift :
    (e : EconomicPolicy) (f : PaymentFeatures) (p : PolicyPrediction)
    → HasSigns e.floats
    → economic_predict e f ≡ ok p
    → p.selected_action ≡ RecoveryAction.send_payment_link
    → (p0 p1 : Float) × (predict_probabilities e.model f ≡ ok (p0, p1)) × (e.floats.lt p0 p1 ≡ true)
unfolding expected_net intervention_cost
economic_predict-uplift e f p signs returned link =
    let q = economic_predict-IsEconomic e f p returned in
    let positive = action_for-link _ (sym q.maximizes ∙ link) in
    (
      q.p0,
      q.p1,
      q.learnt,
      signs.positive_sub q.p1 q.p0
          (signs.positive_mul f.amount_paise _ (signs.positive_less 300 _ positive)),
    )

-- The value in paise that a link is expected to add: what the payment brings in at the higher
-- probability, more than at the lower one, less the 300 paise of a link.
abbrev pub added_value : FloatOps → ℕ → Float → Float → Float
added_value fl amount p0 p1 =
    fl.sub (fl.mul (fl.of_int (pos amount)) (fl.sub p1 p0)) (fl.of_int (pos 300))

-- The two ways to decide, by that value.
pub data IsWorth (fl : FloatOps) (value : Float) : RecoveryAction → Type 0 where
  gain : fl.lt (fl.of_int (pos 0)) value ≡ true → IsWorth fl value RecoveryAction.send_payment_link
  no_gain : fl.lt (fl.of_int (pos 0)) value ≡ false → IsWorth fl value RecoveryAction.no_action

action_for-IsWorth :
    (fl : FloatOps) (value : Float) → IsWorth fl value (action_for (is_positive fl value))
action_for-IsWorth fl value = elim (Bool-cases (fl.lt (fl.of_int (pos 0)) value)) [
  | inl more ↦ rw more (IsWorth.gain more)
  | inr less ↦ rw less (IsWorth.no_gain less)
]

-- A prediction that says what it has cost and what it will bring.
pub record IsAccounted (e : EconomicPolicy) (f : PaymentFeatures) (p : PolicyPrediction)
    : Type 0 where
  pub p0 : Float
  pub p1 : Float
  pub learnt : predict_probabilities e.model f ≡ ok (p0, p1)
  pub settled : p.decision_status ≡ DecisionStatus.decided
  pub worth : IsWorth e.floats (added_value e.floats f.amount_paise p0 p1) p.selected_action
  pub recorded :
      (p.predicted_p0 ≡ some p0)
      × (p.predicted_p1 ≡ some p1)
      × (p.predicted_uplift ≡ some (e.floats.sub p1 p0))
      × (p.expected_incremental_net_paise
          ≡ e.floats.trunc (added_value e.floats f.amount_paise p0 p1))

economic_predict-IsAccounted :
    (e : EconomicPolicy) (f : PaymentFeatures) (p : PolicyPrediction)
    → economic_predict e f ≡ ok p
    → IsAccounted e f p
unfolding expected_net intervention_cost
economic_predict-IsAccounted e f p returned =
    let q = economic_predict-IsEconomic e f p returned in
    let value = added_value e.floats f.amount_paise q.p0 q.p1 in
    record {
      p0 = q.p0;
      p1 = q.p1;
      learnt = q.learnt;
      settled = q.is_decided;
      worth = subst (IsWorth e.floats value) (sym q.maximizes) (action_for-IsWorth e.floats value);
      recorded = (q.recorded_p0, q.recorded_p1, q.recorded_uplift, q.recorded_net);
    }

-- All that a call of the economic policy comes to: the error of the learner, the error of a value
-- that is no number of paise, or a prediction.
pub data IsVerdict (e : EconomicPolicy) (f : PaymentFeatures)
    : Result PolicyPrediction → Type 0 where
  unlearnt : {x : Error} → predict_probabilities e.model f ≡ err x → IsVerdict e f (err x)
  not_whole :
      {p0 p1 : Float} {x : Error}
      → predict_probabilities e.model f ≡ ok (p0, p1)
      → e.floats.trunc (added_value e.floats f.amount_paise p0 p1) ≡ none
      → IsVerdict e f (err x)
  accounted : {p : PolicyPrediction} → IsAccounted e f p → IsVerdict e f (ok p)

module _ (e : EconomicPolicy) (f : PaymentFeatures) where
  economic_predict-unlearnt :
      (x : Error) → predict_probabilities e.model f ≡ err x → economic_predict e f ≡ err x
  unfolding economic_predict
  economic_predict-unlearnt x failed = rw failed refl

  economic_predict-not_whole :
      (p0 p1 : Float)
      → predict_probabilities e.model f ≡ ok (p0, p1)
      → e.floats.trunc (added_value e.floats f.amount_paise p0 p1) ≡ none
      → (x : Error) × (economic_predict e f ≡ err x)
  unfolding economic_predict expected_net intervention_cost
  economic_predict-not_whole p0 p1 learnt endless = rw learnt (rw endless (_, refl))

  economic_predict-whole :
      (p0 p1 : Float) (paise : ℤ)
      → predict_probabilities e.model f ≡ ok (p0, p1)
      → e.floats.trunc (added_value e.floats f.amount_paise p0 p1) ≡ some paise
      → (p : PolicyPrediction) × (economic_predict e f ≡ ok p)
  unfolding economic_predict expected_net intervention_cost
  economic_predict-whole p0 p1 paise learnt whole = rw learnt (rw whole (_, refl))

-- The economic policy answers with a prediction unless the learner raises, or the value of a link, the
-- amount times the uplift less the 300 paise of a link, is no number that can be truncated to paise;
-- then it raises. A prediction is DECIDED; where that value is above 0 it sends a payment link, and
-- where it is not it takes no action, so that it never offers a discount; and it records the learner's
-- probabilities, their difference, and that value truncated to paise.
pub economic_predict-IsVerdict :
    (e : EconomicPolicy) (f : PaymentFeatures) → IsVerdict e f (economic_predict e f)
economic_predict-IsVerdict e f = elim (Result-cases (predict_probabilities e.model f)) [
  | inl (x, failed) ↦
      subst (IsVerdict e f) (sym (economic_predict-unlearnt e f x failed))
        (IsVerdict.unlearnt failed)
  | inr ((p0, p1), learnt) ↦
      elim (Option-cases (e.floats.trunc (added_value e.floats f.amount_paise p0 p1))) [
        | inl endless ↦
            let (x, raised) = economic_predict-not_whole e f p0 p1 learnt endless in
            subst (IsVerdict e f) (sym raised) (IsVerdict.not_whole learnt endless)
        | inr (paise, whole) ↦
            let (p, returned) = economic_predict-whole e f p0 p1 paise learnt whole in
            subst (IsVerdict e f) (sym returned)
              (IsVerdict.accounted (economic_predict-IsAccounted e f p returned))
      ]
]
