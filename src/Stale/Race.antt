-- ===== src/Stale/Race.antt =====
-- Workers that race for one stale decision: each has read the same row before any of them writes.
use payment_recovery_opportu.Base.{
  ℕ, ◌+◌, ◌≤◌, ◌<◌, ◌≡◌, refl, true, false, Option, none, some, List, [], ◌∷◌, inl, inr,
  Option-cases, arith,
}
use payment_recovery_opportu.Base.Table.{find_first, count_if}
use payment_recovery_opportu.Models.{RecoveryDecision}
use payment_recovery_opportu.Session.{Session, Result, ok, ◌>>=◌}
use payment_recovery_opportu.Crud.{
  has_id, is_unchanged, restarted, update_where, reclaim, write_decision,
}
use payment_recovery_opportu.Worker.Claim.{written-once}

-- How often the workers win that come to their UPDATE at these times, each on what is stored then.
abbrev won : Result (Option ℕ) → ℕ
won (ok (some id)) = 1
won _ = 0

unfoldable pub wins : RecoveryDecision → List ℕ → Session → ℕ
wins candidate [] s = 0
wins candidate (t ∷ ts) s =
    let (r, s') = reclaim candidate (record s { now = t }) in won r + wins candidate ts s'

unchanged-has_id :
    (candidate d : RecoveryDecision)
    → is_unchanged candidate d ≡ true
    → has_id candidate.id d ≡ true
unchanged-has_id candidate d h = ground arith

-- A claim moves the start of the execution away from the time that the other workers have read.
restarted-unchanged :
    (candidate : RecoveryDecision) (started now : ℕ) (d : RecoveryDecision)
    → candidate.execution_started_at ≡ some started
    → started < now
    → is_unchanged candidate (restarted now d) ≡ false
restarted-unchanged candidate started now d e later = ground arith

reclaim-none :
    (candidate : RecoveryDecision) (s : Session)
    → find_first (is_unchanged candidate) s.current.recovery_decisions ≡ none
    → reclaim candidate s ≡ (ok none, s)
unfolding reclaim update_where ◌>>=◌
reclaim-none candidate s e = rw e refl

reclaim-some :
    (candidate d : RecoveryDecision) (s : Session)
    → find_first (is_unchanged candidate) s.current.recovery_decisions ≡ some d
    → reclaim candidate s ≡ (
      ok (some candidate.id),
      record s { current = write_decision (is_unchanged candidate) (restarted s.now d) s.current },
    )
unfolding reclaim update_where ◌>>=◌
reclaim-some candidate d s e = rw e refl

-- Nobody wins once the row is not as it was read.
wins-none :
    (candidate : RecoveryDecision) (ts : List ℕ) (s : Session)
    → find_first (is_unchanged candidate) s.current.recovery_decisions ≡ none
    → wins candidate ts s ≡ 0
unfolding wins
wins-none candidate [] s e = refl
wins-none candidate (t ∷ ts) s e =
    rw (reclaim-none candidate (record s { now = t }) e)
      (omega (arith, wins-none candidate ts (record s { now = t }) e))

-- However many workers have read a stale decision, exactly one of them claims it if the row still
-- stands as they have read it when the first of them writes, and none if it does not: where no two
-- rows have its id and the first comes after the execution started that they have read, one of all
-- their updates succeeds, in whatever order and at whatever times the others come.
pub wins-exactly_one :
    (candidate : RecoveryDecision) (started t : ℕ) (ts : List ℕ) (s : Session)
    → candidate.execution_started_at ≡ some started
    → started < t
    → count_if (has_id candidate.id) s.current.recovery_decisions ≤ 1
    → wins candidate (t ∷ ts) s
      ≡ elim (find_first (is_unchanged candidate) s.current.recovery_decisions) [
        | none ↦ 0
        | some d ↦ 1
      ]
unfolding wins
wins-exactly_one candidate started t ts s e later one =
    let s' : Session = record s { now = t } in
    elim (Option-cases (find_first (is_unchanged candidate) s.current.recovery_decisions)) [
      | inl missing ↦ rw missing (wins-none candidate (t ∷ ts) s missing)
      | inr (d, found) ↦
          rw (found, reclaim-some candidate d s' found)
            (omega (
              arith,
              wins-none candidate ts
                  (record s' {
                    current = write_decision (is_unchanged candidate) (restarted t d) s.current;
                  })
                  (written-once candidate.id (is_unchanged candidate) (unchanged-has_id candidate)
                    (restarted t d) s.current.recovery_decisions d
                    (restarted-unchanged candidate started t d e later) one found),
            ))
    ]
