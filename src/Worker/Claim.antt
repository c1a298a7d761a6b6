-- ===== src/Worker/Claim.antt =====
-- The claim of a decision before its execution.
use payment_recovery_opportu.Base.{
  ℕ, ◌≤◌, ◌≡◌, refl, Bool, true, false, none, some, List, [], ◌∷◌, inl, inr, Bool-cases,
  Option-cases, arith,
}
use payment_recovery_opportu.Base.Table.{find_first, replace, count_if, none≢some}
use payment_recovery_opportu.Models.{RecoveryDecision}
use payment_recovery_opportu.Session.{Session, ok, ◌>>=◌}
use payment_recovery_opportu.Crud.{
  has_id, is_claimable, claimed, update_where, claim_decision_for_execution,
}

claimable-has_id : (id : ℕ) (d : RecoveryDecision) → is_claimable id d ≡ true → has_id id d ≡ true
claimable-has_id id d h = ground arith

claimed-claimable : (id now : ℕ) (d : RecoveryDecision) → is_claimable id (claimed now d) ≡ false
claimed-claimable id now d = ground arith

counted_once :
    (id : ℕ) (x : RecoveryDecision) (xs : List RecoveryDecision)
    → count_if (has_id id) (x ∷ xs) ≤ 1
    → has_id id x ≡ true
    → count_if (has_id id) xs ≡ 0
unfolding count_if
counted_once id x xs one hit = omega (arith, rw hit at one)

counted_more :
    (id : ℕ) (x : RecoveryDecision) (xs : List RecoveryDecision)
    → count_if (has_id id) (x ∷ xs) ≤ 1
    → count_if (has_id id) xs ≤ 1
unfolding count_if
counted_more id x xs one = ground arith

module _ (id : ℕ) (condition : RecoveryDecision → Bool)
    (by_id : (d : RecoveryDecision) → condition d ≡ true → has_id id d ≡ true) where
  -- No row meets a condition on an id where there is no row of it.
  absent-unmet :
      (ds : List RecoveryDecision) → count_if (has_id id) ds ≡ 0 → find_first condition ds ≡ none
  unfolding count_if find_first
  absent-unmet [] e = refl
  absent-unmet (d ∷ ds) e = elim (Bool-cases (has_id id d)) [
    | inl hit ↦ absurd (omega (arith, rw hit at e))
    | inr miss ↦ elim (Bool-cases (condition d)) [
      | inl met ↦ absurd (true≢false (rw (by_id d met) at miss))
      | inr unmet ↦ rw unmet (absent-unmet ds (rw miss at e))
    ]
  ]
    where
      true≢false : true ≡ false → ⊥
      true≢false p = cc

  -- A row that is written so that it does not meet the condition any more is not found by it again.
  pub written-once :
      (row : RecoveryDecision) (ds : List RecoveryDecision) (d : RecoveryDecision)
      → condition row ≡ false
      → count_if (has_id id) ds ≤ 1
      → find_first condition ds ≡ some d
      → find_first condition (replace condition row ds) ≡ none
  unfolding count_if find_first replace
  written-once row [] d written one e = absurd (none≢some e)
  written-once row (x ∷ xs) d written one e = elim (Bool-cases (condition x)) [
    | inl met ↦ rw met (rw written (absent-unmet xs (counted_once id x xs one (by_id x met))))
    | inr unmet ↦
        rw (unmet, unmet) (written-once row xs d written (counted_more id x xs one) (rw unmet at e))
  ]

claimed-once :
    (id now : ℕ) (d : RecoveryDecision) (ds : List RecoveryDecision)
    → count_if (has_id id) ds ≤ 1
    → find_first (is_claimable id) ds ≡ some d
    → find_first (is_claimable id) (replace (is_claimable id) (claimed now d) ds) ≡ none
claimed-once id now d ds one e =
    written-once id (is_claimable id) (claimable-has_id id) (claimed now d) ds d
      (claimed-claimable id now d) one e

false≢true : ok false ≡ ok true → ⊥
false≢true e = cc

-- Of two claims of one decision at most one succeeds: where no two rows have its id, a claim after
-- one that succeeded fails and writes nothing, however much later it comes.
pub claim-once :
    (id : ℕ) (s : Session) (later : ℕ)
    → count_if (has_id id) s.current.recovery_decisions ≤ 1
    → (claim_decision_for_execution id s).0 ≡ ok true
    → (let s' : Session = record ((claim_decision_for_execution id s).1) { now = later } in
        claim_decision_for_execution id s' ≡ (ok false, s'))
unfolding claim_decision_for_execution update_where ◌>>=◌
claim-once id s later one won =
    elim (Option-cases (find_first (is_claimable id) s.current.recovery_decisions)) [
      | inl missing ↦ absurd (false≢true (rw missing at won))
      | inr (d, e) ↦ rw e (rw (claimed-once id s.now d s.current.recovery_decisions one e) refl)
    ]
