-- ===== src/Processor/FailedClosed.antt =====
-- The handler of payment.failed makes only changes that the specification knows.
use payment_recovery_opportu.Base.{
  ℕ, Bool, true, false, Option, some, ◌≡◌, ◌⊎◌, inl, refl, subst, arith,
}
use payment_recovery_opportu.Base.Table.{some-eq}
use payment_recovery_opportu.Models.{
  Database, PaymentRecord, DecisionStatus, Variant, control, treatment,
}
use payment_recovery_opportu.Schemas.{RazorpayPaymentEntity}
use payment_recovery_opportu.Session.{Result, ok, err}
use payment_recovery_opportu.Session.Keeps.{
  Keeps, Keeps-bind, Keeps-gets, Keeps-pure, Keeps-raise, keeps_rules,
}
use payment_recovery_opportu.Session.Yields.{
  Yields, Yields-pure, Yields-raise, Yields-or_raise, Yields-bind, Yields-then, Keeps-bind-Yields,
}
use payment_recovery_opportu.Crud.{PolicyPrediction}
use payment_recovery_opportu.Change.{IsClosed}
use payment_recovery_opportu.Change.Closed.{append_audit_log-Keeps}
use payment_recovery_opportu.Change.PaymentClosed.{upsert_payment_record_from_failed-Keeps}
use payment_recovery_opportu.Change.DecisionClosed.{
  get_decision-Keeps, claim_decision_for_execution-Keeps, create_recovery_decision-Keeps,
}
use payment_recovery_opportu.Features.{PaymentFeatures}
use payment_recovery_opportu.App.{App}
use payment_recovery_opportu.Guardrails.{evaluate}
use payment_recovery_opportu.Execution.Closed.{execute_recovery_decision-Keeps}
use payment_recovery_opportu.Processor.PaymentFailed.{
  lift, predict_for, execute_if_claimed, claim_and_execute, decide, guard, recover_payment,
  handle_failed_payment,
}

-- The status of a prediction from which a decision is made.
abbrev Made : PolicyPrediction → Type 0
Made p =
    (p.decision_status ≡ DecisionStatus.decided)
    ⊎ (p.decision_status ≡ DecisionStatus.pending_policy)

abbrev MadeIfAny : Option PolicyPrediction → Type 0
MadeIfAny o = (p : PolicyPrediction) → o ≡ some p → Made p

-- No rule touches the status.
evaluate-Made :
    (app : App) (now : ℕ) (db : Database) (r : PaymentRecord) (p : PolicyPrediction)
    → Made p
    → Made (evaluate app.lower app.cooldown_hours now db r (some p))
unfolding evaluate
evaluate-Made app now db r p made = ground arith

lift-Made :
    (r : Result (Option PolicyPrediction))
    → ((p : PolicyPrediction) → r ≡ ok (some p) → Made p)
    → Yields MadeIfAny (lift r)
lift-Made (ok o) made = Yields-pure MadeIfAny o (λ p e. made p (rw e))
lift-Made (err e) made = Yields-raise MadeIfAny e

predict_for-Made :
    (app : App) (v : Variant) (f : PaymentFeatures) → Yields MadeIfAny (predict_for app v f)
unfolding predict_for
predict_for-Made app control f = Yields-pure MadeIfAny _ (λ p e. subst Made (some-eq e) (inl refl))
predict_for-Made app treatment f = lift-Made (app.predictor.predict f) (app.predictor.status_made f)

guard-Made :
    (app : App) (r : PaymentRecord) (o : Option PolicyPrediction)
    → MadeIfAny o
    → Yields Made (guard app r o)
unfolding guard
guard-Made app r o made = Yields-bind Made Made _ _ (Yields-or_raise Made o _ made) λ p m.
    Yields-then Made _ _ λ db.
      Yields-then Made _ _
        λ t. Yields-then Made _ _ λ _. Yields-pure Made _ (evaluate-Made app t db r p m)

module _ {P : Database → Type 0} (closed : IsClosed P) where
  lift-Keeps : (r : Result (Option PolicyPrediction)) → Keeps P (lift r)
  lift-Keeps (ok o) = Keeps-pure o
  lift-Keeps (err e) = Keeps-raise e

  predict_for-Keeps :
      (app : App) (v : Variant) (f : PaymentFeatures) → Keeps P (predict_for app v f)
  unfolding predict_for
  predict_for-Keeps app control f = Keeps-pure _
  predict_for-Keeps app treatment f = lift-Keeps (app.predictor.predict f)

  guard-Keeps :
      (app : App) (r : PaymentRecord) (o : Option PolicyPrediction) → Keeps P (guard app r o)
  unfolding guard
  guard-Keeps app r o = search keeps_rules depth 9

  execute_if_claimed-Keeps :
      (app : App) (id : ℕ) (r : PaymentRecord) (claimed : Bool)
      → Keeps P (execute_if_claimed app id r claimed)
  unfolding execute_if_claimed
  execute_if_claimed-Keeps app id r true =
      search (keeps_rules, get_decision-Keeps, execute_recovery_decision-Keeps closed) depth 8
  execute_if_claimed-Keeps app id r false = search (keeps_rules, append_audit_log-Keeps closed)

  claim_and_execute-Keeps :
      (app : App) (id : ℕ) (r : PaymentRecord) → Keeps P (claim_and_execute app id r)
  unfolding claim_and_execute
  claim_and_execute-Keeps app id r =
      search (keeps_rules, claim_decision_for_execution-Keeps closed, execute_if_claimed-Keeps)

  decide-Keeps :
      (app : App) (r : PaymentRecord) (v : Variant) (p : PolicyPrediction)
      → Made p
      → Keeps P (decide app r v p)
  unfolding decide
  decide-Keeps app r v p made =
      search
        (
          keeps_rules,
          create_recovery_decision-Keeps closed,
          append_audit_log-Keeps closed,
          claim_and_execute-Keeps,
        )
        depth 8

  recover_payment-Keeps : (app : App) (r : PaymentRecord) → Keeps P (recover_payment app r)
  unfolding recover_payment
  recover_payment-Keeps app r = Keeps-bind _ _ (Keeps-gets _) λ db.
      Keeps-bind _ _ (append_audit_log-Keeps closed _ _ _) λ _.
        Keeps-bind-Yields MadeIfAny _ _ (predict_for-Keeps app _ _) (predict_for-Made app _ _)
          λ o made.
            Keeps-bind-Yields Made _ _ (guard-Keeps app r o) (guard-Made app r o made)
              λ p m. decide-Keeps app r _ p m

  pub handle_failed_payment-Keeps :
      (app : App) (event : ℕ) (payment : RazorpayPaymentEntity)
      → Keeps P (handle_failed_payment app event payment)
  unfolding handle_failed_payment
  handle_failed_payment-Keeps app event payment =
      Keeps-bind _ _ (upsert_payment_record_from_failed-Keeps closed event payment) λ (r, created).
        Keeps-bind _ _ (append_audit_log-Keeps closed _ _ _) λ _. recover_payment-Keeps app r
