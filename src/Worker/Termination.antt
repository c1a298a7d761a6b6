-- ===== src/Worker/Termination.antt =====
-- The loop over the stale decisions comes to its `break`, where the provider is not too slow.
use payment_recovery_opportu.Base.{
  ℕ, zero, suc, ◌+◌, ◌-◌, ◌*◌, ◌≤◌, ◌≡◌, ◌⊎◌, inl, inr, refl, subst, Bool, true, false, Option,
  none, some, Option-cases, arith,
}
use native.Mathlib.Nat.{mul-suc}
use payment_recovery_opportu.Base.Table.{find_first, find_first-holds, count_if}
use payment_recovery_opportu.Base.Count.{count_if-replace_out}
use payment_recovery_opportu.Models.{RecoveryDecision}
use payment_recovery_opportu.Session.{
  Session, M, Result, ok, err, ◌>>=◌, ◌>>◌, pure, commit, rollback, try_except, handle,
}
use payment_recovery_opportu.Session.Leads.{Leads, Leads-bind, Leads-then, Leads-try, Leads-pure}
use payment_recovery_opportu.Crud.{
  is_stale, is_unchanged, restarted, update_where, get_decision, reclaim, claim_stale_execution,
}
use payment_recovery_opportu.App.{App}
use payment_recovery_opportu.Stale.{reconcile_stale_decision}
use payment_recovery_opportu.Stale.Pace.{stale_count, Paced, rollback-Paced, get_decision-Paced}
use payment_recovery_opportu.Stale.Timing.{Paced-later, reconcile_stale_decision-Paced}
use payment_recovery_opportu.Worker.{in_session, recover_claimed, stale_round, recover_stale}

stale_since :
    (early late : ℕ) (d : RecoveryDecision)
    → early ≤ late
    → is_stale early d ≡ true
    → is_stale late d ≡ true
stale_since early late d le h = ground arith

unchanged_stale :
    (start : ℕ) (c d : RecoveryDecision)
    → is_unchanged c d ≡ true
    → is_stale start c ≡ true
    → is_stale start d ≡ true
unchanged_stale start c d same h = ground arith

restarted_fresh :
    (start now : ℕ) (d : RecoveryDecision) → start ≤ now → is_stale start (restarted now d) ≡ false
restarted_fresh start now d le = ground arith

-- The claim has been written, and is not committed yet.
record Claimed (start n latest : ℕ) (s : Session) : Type 0 where
  in_current : stale_count start s.current ≤ n
  begun : start ≤ s.now
  in_time : s.now ≤ latest

-- A claim takes one of the stale decisions, or there is none to take.
ClaimAnswer : (start n latest : ℕ) → Result (Option ℕ) × Session → Type 0
ClaimAnswer start n latest (r, s) =
    (r ≡ ok none)
    ⊎ ((id : ℕ) × (m : ℕ) × (n ≡ suc m) × (r ≡ ok (some id)) × Claimed start m latest s)

module _ (start n latest : ℕ) where
  one_less : (count m : ℕ) → suc count ≡ m → m ≤ n → (k : ℕ) × (n ≡ suc k) × (count ≤ k)
  one_less count m e le = (n - 1, omega (arith, e, le), omega (arith, e, le))

  reclaim-ClaimAnswer :
      (candidate : RecoveryDecision) (s : Session)
      → is_stale start candidate ≡ true
      → Paced start n latest s
      → ClaimAnswer start n latest (reclaim candidate s)
  unfolding reclaim update_where ◌>>=◌ ClaimAnswer
  reclaim-ClaimAnswer candidate s stale h =
      elim (Option-cases (find_first (is_unchanged candidate) s.current.recovery_decisions)) [
        | inl missing ↦ rw missing (inl refl)
        | inr (d, e) ↦
            let was = unchanged_stale start candidate d (find_first-holds _ _ _ e) stale in
            let fewer =
              count_if-replace_out (is_stale start) (is_unchanged candidate) d (restarted s.now d)
                s.current.recovery_decisions e was (restarted_fresh start s.now d h.begun) in
            let (m, same, le) = one_less _ _ fewer h.in_current in
            rw e (
              inr (
                candidate.id,
                m,
                same,
                refl,
                record { in_current = le; begun = h.begun; in_time = h.in_time },
              ))
      ]

  claim_stale_execution-ClaimAnswer :
      (seconds : ℕ) (s : Session)
      → latest ≤ start + seconds * 1000000
      → Paced start n latest s
      → ClaimAnswer start n latest (claim_stale_execution seconds s)
  unfolding claim_stale_execution ◌>>=◌ ClaimAnswer
  claim_stale_execution-ClaimAnswer seconds s soon h =
      let threshold = s.now - seconds * 1000000 in
      elim (Option-cases (find_first (is_stale threshold) s.current.recovery_decisions)) [
        | inl missing ↦ rw missing (inl refl)
        | inr (d, e) ↦ rw e (
            reclaim-ClaimAnswer d s
              (stale_since threshold start d (omega (arith, soon, h.in_time))
                (find_first-holds _ _ _ e))
              h)
      ]

try-falls : (m : M Bool) (s : Session) → (b : Bool) × ((try_except m (λ _. pure false) s).0 ≡ ok b)
unfolding ◌>>=◌
try-falls m s = falls (m s)
  where
    falls : (x : Result Bool × Session) → (b : Bool) × ((handle x.0 (λ _. pure false) x.1).0 ≡ ok b)
    falls (ok b, s') = (b, refl)
    falls (err e, s') = (false, refl)

-- A provider whose calls take at most `slowest`.
module _ (app : App) (slowest : ℕ) (quick : (k : ℕ) → app.executor.elapsed k ≤ slowest) where
  commit-Claimed :
      (start n latest : ℕ) → Leads (Claimed start n latest) (Paced start n latest) commit
  unfolding commit
  commit-Claimed start n latest = record {
    at = λ s h. record {
      in_committed = h.in_current;
      in_current = h.in_current;
      begun = h.begun;
      in_time = h.in_time;
    };
  }

  recover_claimed-Paced :
      (start n latest id : ℕ)
      → Leads
          (Claimed start n latest)
          (Paced start n (latest + slowest))
          (recover_claimed app (some id))
  unfolding recover_claimed ◌>>=◌
  recover_claimed-Paced start n latest id = record {
    at =
        (Leads-then commit (λ _. get_decision id >> (reconcile_stale_decision app id >> pure true))
          (Paced-later start n latest slowest) (commit-Claimed start n latest)
          λ _.
            Leads-then (get_decision id) _ (Paced-later start n latest slowest)
              (get_decision-Paced start n latest id)
              λ _.
                Leads-bind (reconcile_stale_decision app id) _
                  (reconcile_stale_decision-Paced start n latest slowest app id quick)
                  λ _. Leads-pure true).at;
  }

  -- A round answers that it is the last one, or has one stale decision less.
  RoundAnswer : (start n latest : ℕ) → Result Bool × Session → Type 0
  RoundAnswer start n latest (r, s) =
      (r ≡ ok false)
      ⊎ ((b : Bool) × (m : ℕ) × (n ≡ suc m) × (r ≡ ok b) × Paced start m (latest + slowest) s)

  caught-RoundAnswer :
      (start n latest : ℕ) (s : Session) (answer : Result (Option ℕ) × Session)
      → claim_stale_execution app.execution_stale_after_seconds s ≡ answer
      → ClaimAnswer start n latest answer
      → RoundAnswer start n latest (
          try_except
            (claim_stale_execution app.execution_stale_after_seconds >>= recover_claimed app)
            (λ _. pure false)
            s)
  unfolding ClaimAnswer RoundAnswer recover_claimed ◌>>=◌
  caught-RoundAnswer start n latest s (r, s') at (inl nothing) = inl (rw at (rw nothing refl))
  caught-RoundAnswer start n latest s (r, s') at (inr (id, m, same, taken, claimed)) =
      let (b, falls) =
        try-falls (claim_stale_execution app.execution_stale_after_seconds >>= recover_claimed app)
          s in
      let caught =
        Leads-try (recover_claimed app (some id)) (λ _. pure false)
          (recover_claimed-Paced start m latest id) (λ _. Leads-pure false) in
      inr (b, m, same, falls, rw at (rw taken (caught.at s' claimed)))

  in_session-RoundAnswer :
      (start n latest : ℕ) (m : M Bool) (s : Session)
      → RoundAnswer start n latest (m (record s { current = s.committed }))
      → RoundAnswer start n latest (in_session m s)
  unfolding in_session rollback RoundAnswer ◌>>=◌
  in_session-RoundAnswer start n latest m s (inl last) = inl last
  in_session-RoundAnswer start n latest m s (inr (b, k, same, answer, h)) =
      inr (b, k, same, answer, (rollback-Paced start k (latest + slowest)).at _ h)

  stale_round-RoundAnswer :
      (start n latest : ℕ) (s : Session)
      → latest ≤ start + app.execution_stale_after_seconds * 1000000
      → Paced start n latest s
      → RoundAnswer start n latest (stale_round app s)
  unfolding stale_round
  stale_round-RoundAnswer start n latest s soon h =
      let s' : Session = record s { current = s.committed } in
      let h' : Paced start n latest s' = record {
        in_committed = h.in_committed;
        in_current = h.in_committed;
        begun = h.begun;
        in_time = h.in_time;
      } in
      in_session-RoundAnswer start n latest _ s (
        caught-RoundAnswer start n latest s' _ refl (
          claim_stale_execution-ClaimAnswer start n latest app.execution_stale_after_seconds s' soon
            h'))

  recover_stale-ends :
      (start n latest : ℕ) (s : Session)
      → latest + slowest * n ≤ start + app.execution_stale_after_seconds * 1000000
      → Paced start n latest s
      → (recover_stale (suc n) app s).0 ≡ ok true
  unfolding recover_stale RoundAnswer ◌>>=◌
  recover_stale-ends start zero latest s soon h =
      elim (stale_round-RoundAnswer start zero latest s (omega (arith, soon)) h) [
        | inl last ↦ rw last refl
        | inr (b, m, same, answer, h') ↦ absurd (omega (arith, same))
      ]
  recover_stale-ends start (suc n) latest s soon h =
      elim (stale_round-RoundAnswer start (suc n) latest s (omega (arith, soon)) h) [
        | inl last ↦ rw last refl
        | inr (false, m, same, answer, h') ↦ rw answer refl
        | inr (true, m, same, answer, h') ↦ rw answer (
            recover_stale-ends start n (latest + slowest) (stale_round app s).1
              (omega (arith, soon, mul-suc slowest n))
              (subst (λ k. Paced start k (latest + slowest) (stale_round app s).1)
                (omega (arith, same)) h'))
      ]

-- The loop over the stale decisions ends: if a call of the provider takes at most `slowest`, and as
-- many calls as there are decisions in EXECUTING since before the loop take together no longer
-- than the threshold of the staleness, it comes to its `break` in at most one round more than there
-- are such decisions, whatever the provider answers.
pub recover_stale-ends_in_time :
    (app : App) (slowest : ℕ)
    → ((k : ℕ) → app.executor.elapsed k ≤ slowest)
    → (s : Session) (n : ℕ) → count_if (is_stale s.now) s.committed.recovery_decisions ≤ n
    → slowest * n ≤ app.execution_stale_after_seconds * 1000000
    → (recover_stale (suc n) app s).0 ≡ ok true
unfolding recover_stale stale_round in_session rollback ◌>>=◌
recover_stale-ends_in_time app slowest quick s n few soon =
    recover_stale-ends app slowest quick s.now n s.now (record s { current = s.committed })
      (omega (arith, soon))
      (record { in_committed = few; in_current = few; begun = omega arith; in_time = omega arith })
