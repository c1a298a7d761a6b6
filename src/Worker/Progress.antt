-- ===== src/Worker/Progress.antt =====
-- What becomes of a candidate of a worker cycle.
use payment_recovery_opportu.Base.{
  ℕ, ◌+◌, ◌≡◌, refl, true, false, some, List, [], ◌∷◌, inl, inr, Bool-cases, subst,
}
use payment_recovery_opportu.Base.Table.{find_first, replace, none≢some, some-eq}
use payment_recovery_opportu.Models.{RecoveryDecision, PaymentRecord, DecisionStatus}
use payment_recovery_opportu.Session.{
  Session, Result, Done, ok, err, handle, ◌>>=◌, commit, rollback,
}
use payment_recovery_opportu.Crud.{
  has_id, is_claimable, claimed, update_where, write_decision, get_decision,
  claim_decision_for_execution,
}
use payment_recovery_opportu.App.{App}
use payment_recovery_opportu.Execution.{payment_of}
use payment_recovery_opportu.Execution.Outcome.{
  HasRow, IsSettled, create_reply, reconcile_reply, executed_to, written_row,
  execute_recovery_decision-IsSettled,
}
use payment_recovery_opportu.Worker.{in_session, execute_claimed, execute_candidate}

decided_claimable :
    (id : ℕ) (d : RecoveryDecision)
    → d.decision_status ≡ DecisionStatus.decided
    → has_id id d ≡ true
    → is_claimable id d ≡ true
decided_claimable id d waiting h = rw (h, waiting) refl

other_unclaimable :
    (id : ℕ) (d : RecoveryDecision) → has_id id d ≡ false → is_claimable id d ≡ false
other_unclaimable id d h = rw h refl

module _ (id : ℕ) (d : RecoveryDecision)
    (waiting : d.decision_status ≡ DecisionStatus.decided) where
  -- The first row of the id is the one that a claim meets.
  find_first-claimable :
      (ds : List RecoveryDecision)
      → find_first (has_id id) ds ≡ some d
      → find_first (is_claimable id) ds ≡ some d
  unfolding find_first
  find_first-claimable [] e = absurd (none≢some e)
  find_first-claimable (x ∷ xs) e = elim (Bool-cases (has_id id x)) [
    | inl hit ↦
        let same : x ≡ d = some-eq (rw hit at e) in
        rw same
          (rw (decided_claimable id d waiting (subst (λ y. has_id id y ≡ true) same hit)) refl)
    | inr miss ↦ rw (other_unclaimable id x miss) (find_first-claimable xs (rw miss at e))
  ]

  replace-claimable :
      (y : RecoveryDecision) (ds : List RecoveryDecision)
      → find_first (has_id id) ds ≡ some d
      → replace (is_claimable id) y ds ≡ replace (has_id id) y ds
  unfolding find_first replace
  replace-claimable y [] e = refl
  replace-claimable y (x ∷ xs) e = elim (Bool-cases (has_id id x)) [
    | inl hit ↦
        let same : x ≡ d = some-eq (rw hit at e) in
        let status : x.decision_status ≡ DecisionStatus.decided = rw same waiting in
        rw (decided_claimable id x status hit) (rw hit refl)
    | inr miss ↦
        rw (other_unclaimable id x miss) (rw miss (rw (replace-claimable y xs (rw miss at e)) refl))
  ]

  claimed-HasRow :
      (now : ℕ) (s : Session)
      → HasRow id d s.committed
      → HasRow id (claimed now d) (write_decision (is_claimable id) (claimed now d) s.committed)
  claimed-HasRow now s row =
      rw (replace-claimable (claimed now d) s.committed.recovery_decisions row)
        (written_row id d (claimed now d) s.committed row refl)

-- An execution that is caught: whatever it answers, what it has committed stands.
caught-IsSettled :
    (id : ℕ) (answer : Result Done) (status : DecisionStatus) (r : Result Done × Session)
    → IsSettled id (answer, status) r
    → IsSettled id
        (ok tt, status)
        (let (r', s') = handle r.0 (λ _. rollback) r.1 in (r', (rollback s').1))
unfolding rollback ◌>>=◌
caught-IsSettled id answer status (ok tt, s) (same, d, row, at) = (refl, d, row, at)
caught-IsSettled id answer status (err e, s) (same, d, row, at) = (refl, d, row, at)

-- The session in which a candidate is executed: the claim is committed.
abbrev pub claimed_session : ℕ → RecoveryDecision → Session → Session
claimed_session id d s =
    let db = write_decision (is_claimable id) (claimed s.now d) s.committed in
    record s { committed = db; current = db }

-- A DECIDED decision that the worker takes up, and whose payment is there, is claimed and executed:
-- it is left, committed, in the status that the provider's two answers make of an execution with one
-- more attempt. The step returns, whatever the execution raises.
pub execute_candidate-IsSettled :
    (app : App) (id : ℕ) (d : RecoveryDecision) (payment : PaymentRecord) (s : Session)
    → HasRow id d s.committed
    → d.decision_status ≡ DecisionStatus.decided
    → payment_of d s.committed ≡ some payment
    → IsSettled id
        (
          ok tt,
          (executed_to
              (d.execution_attempts + 1)
              (create_reply app id (claimed s.now d) (claimed_session id d s))
              (reconcile_reply app id (claimed s.now d) (claimed_session id d s))).1,
        )
        (execute_candidate app id s)
unfolding execute_candidate in_session execute_claimed claim_decision_for_execution update_where
    get_decision commit rollback ◌>>=◌
execute_candidate-IsSettled app id d payment s row waiting paid =
    let claimed_row = claimed-HasRow id d waiting s.now s row in
    let settled =
      execute_recovery_decision-IsSettled app id (claimed s.now d) payment (claimed_session id d s)
        claimed_row refl in
    rw (find_first-claimable id d waiting s.committed.recovery_decisions row)
      (rw claimed_row (rw paid (caught-IsSettled id _ _ _ settled)))
