-- ===== src/Processor/Paid.antt =====
-- A payment link that is paid: it closes the decision that it was created for.
use payment_recovery_opportu.Base.{
  ℕ, ◌≡◌, ◌⊎◌, refl, ap, ◌∙◌, subst, String, true, false, Option, none, some, List, [], ◌∷◌, ◌==◌,
  text_eq, text_eq_iff, inl, inr, Bool-cases, arith,
}
use payment_recovery_opportu.Base.Table.{
  All, All-find, find_first, replace, find_first-holds, find_first-replace_self, some-eq,
}
use payment_recovery_opportu.Base.Text.{exec_reference, exec_reference_injective, truthy}
use payment_recovery_opportu.Models.{RecoveryDecision, PaymentRecord, DecisionStatus}
use payment_recovery_opportu.Schemas.{RazorpayPaymentLinkEntity}
use payment_recovery_opportu.Session.{Session, ok, ◌>>=◌, inc}
use text.Mathlib.TextLemmas.{append-eq-nil_iff}
use payment_recovery_opportu.Session.Yields.{ok-eq, err≢ok}
use payment_recovery_opportu.Crud.{
  has_id, has_reference, observed, update_recovery_decision_outcome, append_audit_log,
}
use payment_recovery_opportu.Invariant.Decisions.{IsValid, DecisionsValid}
use payment_recovery_opportu.Change.DecisionClosed.{has_id→eq}
use payment_recovery_opportu.Execution.Outcome.{HasRow}
use payment_recovery_opportu.Razorpay.Http.{RequestBody, build_request_body}
use payment_recovery_opportu.Processor.{note, observe_link, observe_reference, observe_outcome}

valid_reference :
    (d : RecoveryDecision)
    → IsValid d
    → (d.execution_reference_id ≡ none) ⊎ (d.execution_reference_id ≡ some (exec_reference d.id))
valid_reference d v = ground arith

distinct_reference :
    (m n : ℕ) → (m == n) ≡ false → text_eq (exec_reference m) (exec_reference n) ≡ false
distinct_reference m n differs = elim (Bool-cases (text_eq (exec_reference m) (exec_reference n))) [
  | inl same ↦
      let e = exec_reference_injective m n ((text_eq_iff _ _).0 same) in absurd (ground arith)
  | inr other ↦ other
]

-- Where every decision is valid, a reference is that of no other id.
other_reference :
    (id : ℕ) (d : RecoveryDecision)
    → IsValid d
    → has_id id d ≡ false
    → has_reference (exec_reference id) d ≡ false
other_reference id d v differs = elim (valid_reference d v) [
  | inl missing ↦ rw missing refl
  | inr own ↦ rw own (distinct_reference d.id id differs)
]

own_reference :
    (id : ℕ) (d : RecoveryDecision)
    → d.execution_reference_id ≡ some (exec_reference id)
    → has_reference (exec_reference id) d ≡ true
own_reference id d e = rw e ((text_eq_iff _ _).1 refl)

-- So a query by the reference of an executed decision, and a write at it, are by its id.
module _ (id : ℕ) (d : RecoveryDecision)
    (executed : d.execution_reference_id ≡ some (exec_reference id)) where
  find_by_reference :
      (ds : List RecoveryDecision)
      → All IsValid ds
      → find_first (has_id id) ds ≡ some d
      → find_first (has_reference (exec_reference id)) ds ≡ some d
  unfolding find_first
  find_by_reference [] v e = e
  find_by_reference (x ∷ xs) v e = elim (Bool-cases (has_id id x)) [
    | inl hit ↦
        let same : x ≡ d = some-eq (rw hit at e) in
        let own = own_reference id x (ap (λ y. y.execution_reference_id) same ∙ executed) in
        rw own (ap some same)
    | inr miss ↦ rw (other_reference id x v.0 miss) (find_by_reference xs v.1 (rw miss at e))
  ]

  replace_by_reference :
      (y : RecoveryDecision) (ds : List RecoveryDecision)
      → All IsValid ds
      → find_first (has_id id) ds ≡ some d
      → replace (has_reference (exec_reference id)) y ds ≡ replace (has_id id) y ds
  unfolding find_first replace
  replace_by_reference y [] v e = refl
  replace_by_reference y (x ∷ xs) v e = elim (Bool-cases (has_id id x)) [
    | inl hit ↦
        let same : x ≡ d = some-eq (rw hit at e) in
        let own = own_reference id x (ap (λ z. z.execution_reference_id) same ∙ executed) in
        rw own (rw hit refl)
    | inr miss ↦
        rw (other_reference id x v.0 miss)
          (rw miss (ap (λ zs. x ∷ zs) (replace_by_reference y xs v.1 (rw miss at e))))
  ]

false≢true : false ≡ true → ⊥
false≢true e = cc

reference_there : (id : ℕ) → truthy (some (exec_reference id)) ≡ true
unfolding exec_reference text_eq
reference_there id = elim (Bool-cases (text_eq (exec_reference id) "")) [
  | inl empty ↦
      absurd
        (false≢true (ap (λ t. text_eq t "") ((append-eq-nil_iff).0 ((text_eq_iff _ _).0 empty)).0))
  | inr there ↦ rw there refl
]

-- The notes that a link carries name the reference of the decision.
note-build_request_body :
    (d : RecoveryDecision) (r : Option PaymentRecord) (ref : String) (body : RequestBody)
    → build_request_body d r ref ≡ ok body
    → note "execution_reference_id" body.notes ≡ some ref
unfolding build_request_body note text_eq
note-build_request_body d none ref body built = absurd (err≢ok built)
note-build_request_body d (some r) ref body built =
    subst (λ b. note "execution_reference_id" b.notes ≡ some ref) (ok-eq built) refl

executed_reference :
    (d : RecoveryDecision)
    → IsValid d
    → d.decision_status ≡ DecisionStatus.executed
    → d.execution_reference_id ≡ some (exec_reference d.id)
executed_reference d v executed = ground arith

own_execution :
    (id : ℕ) (ds : List RecoveryDecision) (d : RecoveryDecision)
    → All IsValid ds
    → find_first (has_id id) ds ≡ some d
    → d.decision_status ≡ DecisionStatus.executed
    → d.execution_reference_id ≡ some (exec_reference id)
own_execution id ds d valid row executed =
    executed_reference d (All-find IsValid (has_id id) ds d valid row) executed
    ∙ ap (λ n. some (exec_reference n)) (has_id→eq id d (find_first-holds (has_id id) ds d row))

observe_outcome-paid :
    (id : ℕ) (d : RecoveryDecision) (s : Session)
    → d.execution_reference_id ≡ some (exec_reference id)
    → DecisionsValid s.current
    → HasRow id d s.current
    → ((observe_outcome (exec_reference id) d s).0 ≡ ok tt)
      × HasRow id (observed s.now d) (observe_outcome (exec_reference id) d s).1.current
unfolding observe_outcome update_recovery_decision_outcome append_audit_log inc ◌>>=◌
observe_outcome-paid id d s own valid row =
    let rows = s.current.recovery_decisions in
    rw (find_by_reference id d own rows valid row) (
      refl,
      rw (replace_by_reference id d own (observed s.now d) rows valid row) (
          find_first-replace_self (has_id id) (observed s.now d) rows d row
            (find_first-holds (has_id id) rows d row)),
    )

-- Where the notes of a paid link are those of the body that was sent for a decision, which is
-- EXECUTED by now under its own reference, in a table of valid decisions: the event is handled, the
-- decision becomes OUTCOME_OBSERVED, and nothing else in the row changes but the time of the outcome.
pub observe_link-paid :
    (d : RecoveryDecision) (r : Option PaymentRecord) (body : RequestBody)
    (link : RazorpayPaymentLinkEntity) (s : Session) (now_executed : RecoveryDecision)
    → build_request_body d r (exec_reference d.id) ≡ ok body
    → link.notes ≡ body.notes
    → DecisionsValid s.current
    → HasRow d.id now_executed s.current
    → now_executed.decision_status ≡ DecisionStatus.executed
    → ((observe_link link s).0 ≡ ok tt)
      × HasRow d.id (observed s.now now_executed) (observe_link link s).1.current
unfolding observe_link observe_reference ◌>>=◌
observe_link-paid d r body link s x built same valid row executed =
    let ref = exec_reference d.id in
    let own = own_execution d.id s.current.recovery_decisions x valid row executed in
    rw same (
      rw (note-build_request_body d r ref body built) (
        rw (reference_there d.id) (
          rw (find_by_reference d.id x own s.current.recovery_decisions valid row)
            (observe_outcome-paid d.id x s own valid row))))
