-- ===== src/Simulator/Outcomes.antt =====
-- The sampled outcomes of a payment, by the quadrant that it is said to belong to.
use payment_recovery_opportu.Base.{
  ◌≡◌, ◌∙◌, inl, inr, refl, sym, subst, String, Bool, true, false, ◌&&◌, not, Bool-cases, text_eq,
  text_eq_iff,
}
use payment_recovery_opportu.Models.{Float}
use payment_recovery_opportu.Session.{ok}
use payment_recovery_opportu.Session.Yields.{ok-eq}
use payment_recovery_opportu.Json.{bind-ok}
use payment_recovery_opportu.Floats.{FloatOps}
use payment_recovery_opportu.Simulator.{SimulatedContext, GroundTruth}
use payment_recovery_opportu.Simulator.Random.{Randomness}
use payment_recovery_opportu.Simulator.Constants.{
  minus_0_05, float_0_1, float_0_5, float_1, float_1_5,
}
use payment_recovery_opportu.Simulator.Engine.{
  base_logits, sigmoid, derive_quadrant, truth_of, truth_from, generate_ground_truth,
}

-- Comparisons and differences of binary64 numbers. All of it holds with NaNs and infinities too.
pub record IsOrdered (fl : FloatOps) : Type 0 where
  pub lt_trans : (x y z : Float) → fl.lt x y ≡ true → fl.lt y z ≡ true → fl.lt x z ≡ true
  pub sub_above : (x y : Float) → fl.lt float_0_1 (fl.sub x y) ≡ true → fl.lt y x ≡ true
  pub sub_below : (x y : Float) → fl.lt (fl.sub x y) minus_0_05 ≡ true → fl.lt x y ≡ true

-- The outcomes are drawn together: nobody who is called Persuadable pays only without a link, and no
-- Sleeping Dog only with one.
pub record IsMonotone (gt : GroundTruth) : Type 0 where
  pub persuadable :
      (text_eq gt.derived_quadrant "Persuadable" && gt.y_do_nothing && not gt.y_link) ≡ false
  pub sleeping_dog :
      (text_eq gt.derived_quadrant "Sleeping Dog" && gt.y_link && not gt.y_do_nothing) ≡ false
  pub no_discount : gt.y_discount ≡ false

never : (a b c : Bool) → (a ≡ true → b ≡ true → c ≡ true) → (a && b && not c) ≡ false
never true true c imp = rw (imp refl refl) refl
never true false c imp = refl
never false b c imp = refl

texts_differ : (s t : String) → text_eq s t ≡ false → s ≡ t → ⊥
texts_differ s t differ e = false≢true (sym differ ∙ (text_eq_iff s t).1 e)
  where
    false≢true : false ≡ true → ⊥
    false≢true p = cc

module _ {S : Type 0} (rng : Randomness S) where
  derive_quadrant-persuadable :
      (uplift p0 : Float)
      → derive_quadrant rng uplift p0 ≡ "Persuadable"
      → rng.floats.lt float_0_1 uplift ≡ true
  unfolding derive_quadrant text_eq
  derive_quadrant-persuadable uplift p0 h = elim (Bool-cases (rng.floats.lt uplift minus_0_05)) [
    | inl below ↦ absurd (texts_differ "Sleeping Dog" "Persuadable" refl (rw below at h))
    | inr not_below ↦ elim (Bool-cases (rng.floats.lt float_0_1 uplift)) [
      | inl above ↦ above
      | inr not_above ↦ elim (Bool-cases (rng.floats.lt float_0_5 p0)) [
        | inl likely ↦ absurd (
            texts_differ "Sure Thing" "Persuadable" refl
              (rw likely at (rw not_above at (rw not_below at h))))
        | inr unlikely ↦ absurd (
            texts_differ "Lost Cause" "Persuadable" refl
              (rw unlikely at (rw not_above at (rw not_below at h))))
      ]
    ]
  ]

  derive_quadrant-sleeping_dog :
      (uplift p0 : Float)
      → derive_quadrant rng uplift p0 ≡ "Sleeping Dog"
      → rng.floats.lt uplift minus_0_05 ≡ true
  unfolding derive_quadrant text_eq
  derive_quadrant-sleeping_dog uplift p0 h = elim (Bool-cases (rng.floats.lt uplift minus_0_05)) [
    | inl below ↦ below
    | inr not_below ↦ elim (Bool-cases (rng.floats.lt float_0_1 uplift)) [
      | inl above ↦
          absurd (texts_differ "Persuadable" "Sleeping Dog" refl (rw above at (rw not_below at h)))
      | inr not_above ↦ elim (Bool-cases (rng.floats.lt float_0_5 p0)) [
        | inl likely ↦ absurd (
            texts_differ "Sure Thing" "Sleeping Dog" refl
              (rw likely at (rw not_above at (rw not_below at h))))
        | inr unlikely ↦ absurd (
            texts_differ "Lost Cause" "Sleeping Dog" refl
              (rw unlikely at (rw not_above at (rw not_below at h))))
      ]
    ]
  ]

  truth_of-IsMonotone :
      (responsiveness annoyance p0 p1 : Float) (s : S)
      → IsOrdered rng.floats
      → IsMonotone (truth_of rng responsiveness annoyance p0 p1 s)
  unfolding truth_of
  truth_of-IsMonotone responsiveness annoyance p0 p1 s order =
      let fl = rng.floats in
      let uplift = fl.sub p1 p0 in
      let quadrant = derive_quadrant rng uplift p0 in
      let named = λ (t : String) (q : text_eq quadrant t ≡ true). (text_eq_iff quadrant t).0 q in
      record {
        persuadable = never _ _ _ λ q paid.
            order.lt_trans _ p0 p1 paid (
              order.sub_above p1 p0
                (derive_quadrant-persuadable uplift p0 (named "Persuadable" q)));
        sleeping_dog = never _ _ _ λ q paid. order.lt_trans _ p1 p0 paid (
            order.sub_below p1 p0
              (derive_quadrant-sleeping_dog uplift p0 (named "Sleeping Dog" q)));
        no_discount = refl;
      }

  truth_from-IsMonotone :
      (responsiveness annoyance : Float) (logits : Float × Float) (s : S) (gt : GroundTruth)
      → IsOrdered rng.floats
      → truth_from rng responsiveness annoyance logits s ≡ ok gt
      → IsMonotone gt
  unfolding truth_from
  truth_from-IsMonotone responsiveness annoyance (b0, b1) s gt order h =
      let fl = rng.floats in
      let z0 = fl.add b0 (fl.mul responsiveness float_0_5) in
      let z1 = fl.sub (fl.add b1 (fl.mul responsiveness float_1)) (fl.mul annoyance float_1_5) in
      let (p0, at_p0, rest) = bind-ok (sigmoid rng z0) _ gt h in
      let (p1, at_p1, last) = bind-ok (sigmoid rng (fl.add z0 z1)) _ gt rest in
      subst IsMonotone (ok-eq last) (truth_of-IsMonotone responsiveness annoyance p0 p1 s order)

-- The outcomes of a generated truth fit its quadrant, draw by draw and not only on average: a
-- payment that is called Persuadable and would be recovered without a link is recovered with one
-- too, and one that is called a Sleeping Dog and would be recovered with a link is recovered
-- without. None is recovered by a discount.
pub generate_ground_truth-IsMonotone :
    {S : Type 0} (rng : Randomness S) (c : SimulatedContext) (gt : GroundTruth)
    → IsOrdered rng.floats
    → generate_ground_truth rng c ≡ ok gt
    → IsMonotone gt
unfolding generate_ground_truth
generate_ground_truth-IsMonotone rng c gt order h =
    let (logits, base, rest) = bind-ok (base_logits rng c) _ gt h in
    truth_from-IsMonotone rng _ _ logits _ gt order rest
