-- ===== src/Worker/Starvation.antt =====
-- The loop over stale decisions, where the provider is down and answers too late.
use payment_recovery_opportu.Base.{
  ℕ, zero, suc, ◌+◌, ◌-◌, ◌*◌, ◌<◌, ◌==◌, ◌≡◌, refl, ap, String, true, false, Option, some, [], ◌∷◌,
  ltb, lt→ltb, arith,
}
use payment_recovery_opportu.Base.Table.{find_first, replace}
use payment_recovery_opportu.Models.{RecoveryDecision, DecisionStatus, PaymentRecord}
use payment_recovery_opportu.Session.{
  Session, Done, Result, ok, err, transient, ◌>>=◌, commit, rollback, outside,
}
use payment_recovery_opportu.Crud.{
  update_where, get_decision, reclaim, claim_stale_execution, update_execution_error_only,
  append_audit_log, with_error, has_id, write_decision,
}
use payment_recovery_opportu.App.{App}
use payment_recovery_opportu.Stale.{
  reconcile_stale_decision, recover_link, on_recovery_error, on_lookup_failure, audit_stale,
}
use payment_recovery_opportu.Worker.{in_session, recover_claimed, stale_round, recover_stale}

-- A decision that is in EXECUTING since a time.
abbrev pub executing_since : ℕ → RecoveryDecision → RecoveryDecision
executing_since t d = record d {
  decision_status = DecisionStatus.executing;
  execution_started_at = some t;
}

-- A session that begins in a database with one decision, in EXECUTING since `t`.
abbrev pub IsStuck : ℕ → RecoveryDecision → Session → Type 0
IsStuck t d s = s.committed.recovery_decisions ≡ executing_since t d ∷ []

same_number : (n : ℕ) → (n == n) ≡ true
same_number n = ground arith

-- The only decision, as the session sees it.
abbrev Sees : RecoveryDecision → Session → Type 0
Sees d s = s.current.recovery_decisions ≡ d ∷ []

abbrev with_only : RecoveryDecision → Session → Session
with_only d s = record s { current = record s.current { recovery_decisions = d ∷ [] } }

get_decision-only :
    (d : RecoveryDecision) (s : Session) → Sees d s → get_decision d.id s ≡ (ok d, s)
unfolding get_decision ◌>>=◌ find_first
get_decision-only d s only = rw only (rw (same_number d.id) refl)

write-only :
    (d e : RecoveryDecision) (s : Session)
    → Sees d s
    → record s { current = write_decision (has_id d.id) e s.current } ≡ with_only e s
unfolding replace
write-only d e s only = rw only (rw (same_number d.id) refl)

claim-only :
    (seconds t : ℕ) (d : RecoveryDecision) (s : Session)
    → Sees (executing_since t d) s
    → ltb t (s.now - seconds * 1000000) ≡ true
    → claim_stale_execution seconds s ≡ (ok (some d.id), with_only (executing_since s.now d) s)
unfolding claim_stale_execution reclaim update_where ◌>>=◌ find_first replace
claim-only seconds t d s only stale =
    rw only
      (rw stale (rw (same_number d.id, same_number t) (rw (same_number d.id, same_number t) refl)))

module _ (app : App) (msg type : String)
    (down : (k : ℕ) (d : RecoveryDecision) (p : Option PaymentRecord) (ref : String)
      → app.executor.reconcile_duplicate_reference k d p ref ≡ err (transient msg type)) where
  -- What a recovery leaves behind whose lookup fails.
  record IsLeft (d : RecoveryDecision) (s : Session) (answer : Result Done × Session) : Type 0 where
    returned : answer.0 ≡ ok tt
    left : answer.1.committed.recovery_decisions ≡ with_error msg (some type) d ∷ []
    took : answer.1.now ≡ s.now + app.executor.elapsed s.ticks

  recover_link-down :
      (d : RecoveryDecision) (s : Session)
      → Sees d s
      → recover_link app d.id s ≡ (
        err (transient msg type),
        record s { now = s.now + app.executor.elapsed s.ticks; ticks = suc s.ticks },
      )
  unfolding recover_link ◌>>=◌ outside
  recover_link-down d s only = rw (get_decision-only d s only) (rw (down s.ticks) refl)

  audit_stale-only :
      (d : RecoveryDecision) (event_type action : String) (s : Session)
      → Sees d s
      → ((audit_stale d.id event_type action s).0 ≡ ok tt)
        × ((audit_stale d.id event_type action s).1.committed.recovery_decisions ≡ d ∷ [])
        × ((audit_stale d.id event_type action s).1.now ≡ s.now)
  unfolding audit_stale append_audit_log ◌>>=◌ commit
  audit_stale-only d event_type action s only = rw (get_decision-only d s only) (refl, only, refl)

  update_execution_error_only-only :
      (d : RecoveryDecision) (s : Session)
      → Sees d s
      → update_execution_error_only d.id msg (some type) s
        ≡ (ok tt, with_only (with_error msg (some type) d) s)
  unfolding update_execution_error_only ◌>>=◌
  update_execution_error_only-only d s only =
      rw (get_decision-only d s only)
        (ap (λ x. (ok tt, x)) (write-only d (with_error msg (some type) d) s only))

  reconcile_stale_decision-down :
      (d : RecoveryDecision) (s : Session)
      → Sees d s
      → IsLeft d s (reconcile_stale_decision app d.id s)
  unfolding reconcile_stale_decision on_recovery_error on_lookup_failure ◌>>=◌
  reconcile_stale_decision-down d s only =
      let s' : Session = record s {
        now = s.now + app.executor.elapsed s.ticks;
        ticks = suc s.ticks;
      } in
      let e = with_error msg (some type) d in
      let (done, kept, same) =
        audit_stale-only e "ACTION_EXECUTION_FAILED" "STALE_RECOVERY_LOOKUP_FAILED" (with_only e s')
          refl in
      rw (recover_link-down d s only) (
        rw (update_execution_error_only-only d s' only)
          (record { returned = done; left = kept; took = same }))

  -- A round claims the decision again, and leaves it in EXECUTING.
  round-left :
      (t : ℕ) (d : RecoveryDecision) (s : Session)
      → IsStuck t d s
      → ltb t (s.now - app.execution_stale_after_seconds * 1000000) ≡ true
      → ((stale_round app s).0 ≡ ok true)
        × IsStuck s.now (with_error msg (some type) d) (stale_round app s).1
        × ((stale_round app s).1.now ≡ s.now + app.executor.elapsed s.ticks)
  unfolding stale_round in_session recover_claimed ◌>>=◌ commit rollback
  round-left t d s only stale =
      let s1 : Session = record s { current = s.committed } in
      let e = executing_since s.now d in
      let s2 : Session = with_only e s1 in
      let s3 : Session = record s2 { committed = s2.current } in
      let answer = reconcile_stale_decision-down e s3 refl in
      rw (claim-only app.execution_stale_after_seconds t d s1 only stale)
        (rw (get_decision-only e s3 refl) (rw answer.returned (refl, answer.left, answer.took)))

stale_again : (now elapsed limit : ℕ) → limit < elapsed → ltb now (now + elapsed - limit) ≡ true
stale_again now elapsed limit slow = lt→ltb now (now + elapsed - limit) (omega (arith, slow))

-- Where a provider is down, and each of its calls takes longer than the staleness threshold, the loop
-- over stale decisions does not come to its break however many rounds it has: with one decision in
-- the database, in EXECUTING and stale, every round claims it again and leaves it there, so that the
-- cycle never reaches its candidates.
pub recover_stale-never_ends :
    (rounds : ℕ) (app : App) (msg type : String) (t : ℕ) (d : RecoveryDecision) (s : Session)
    → ((k : ℕ) → app.execution_stale_after_seconds * 1000000 < app.executor.elapsed k)
    → ((k : ℕ) (d : RecoveryDecision) (p : Option PaymentRecord) (ref : String)
        → app.executor.reconcile_duplicate_reference k d p ref ≡ err (transient msg type))
    → IsStuck t d s
    → ltb t (s.now - app.execution_stale_after_seconds * 1000000) ≡ true
    → ((recover_stale rounds app s).0 ≡ ok false)
      × (u : ℕ) × (e : RecoveryDecision) × IsStuck u e (recover_stale rounds app s).1
unfolding recover_stale ◌>>=◌
recover_stale-never_ends zero app msg type t d s slow down only stale = (refl, t, d, only)
recover_stale-never_ends (suc rounds) app msg type t d s slow down only stale =
    let (more, left, took) = round-left app msg type down t d s only stale in
    let limit = app.execution_stale_after_seconds * 1000000 in
    rw more (
      recover_stale-never_ends rounds app msg type s.now (with_error msg (some type) d)
        (stale_round app s).1 slow down left
        (rw took (stale_again s.now (app.executor.elapsed s.ticks) limit (slow s.ticks))))
