-- ===== src/Worker.antt =====
-- app/worker.py: one cycle of the background worker, and the loop of its thread.
pub mod Candidates
pub mod Claim
pub mod Termination
pub mod Progress
pub mod Closed
pub mod Starvation
use payment_recovery_opportu.Base.{
  ℕ, zero, suc, Bool, true, false, Option, List, [], ◌∷◌, map, if◌then◌else◌,
}
use payment_recovery_opportu.Models.{RecoveryDecision}
use payment_recovery_opportu.Session.{
  M, Done, Result, other, pure, or_raise, ◌>>=◌, ◌>>◌, try_except, if_none, commit, rollback,
  database,
}
use payment_recovery_opportu.Crud.{
  get_decision, claim_stale_execution, claim_decision_for_execution,
  get_eligible_recovery_decisions,
}
use payment_recovery_opportu.App.{App}
use payment_recovery_opportu.Execution.{execute_recovery_decision, payment_of}
use payment_recovery_opportu.Stale.{reconcile_stale_decision}

-- `with SessionLocal() as session:` begins at what is committed, and drops the rest at its end.
unfoldable pub in_session : {A : Type 0} → M A → M A
in_session m s = let (r, s') = (rollback >> m) s in (r, (rollback s').1)

-- The claim is committed before the provider is asked.
unfoldable pub recover_claimed : App → Option ℕ → M Bool
recover_claimed app claimed =
    if_none claimed (pure false)
      λ id. do commit; _ ← get_decision id; reconcile_stale_decision app id; pure true

-- One round of `while True`: whether there is another one.
unfoldable pub stale_round : App → M Bool
unfolding in_session recover_claimed
stale_round app = in_session (
    try_except (claim_stale_execution app.execution_stale_after_seconds >>= recover_claimed app)
      (λ _. pure false))

-- `while True`, for at most so many rounds: whether it came to its `break`.
unfoldable pub recover_stale : ℕ → App → M Bool
unfolding stale_round
recover_stale zero app = pure false
recover_stale (suc rounds) app =
    let rest = recover_stale rounds app in
    (stale_round app >>= λ more. if more then rest else pure true)

-- What is done with a claimed candidate.
unfoldable pub execute_claimed : App → ℕ → Bool → M Done
execute_claimed app id false = pure tt
execute_claimed app id true = do
  commit
  d ← get_decision id
  db ← database
  payment ← or_raise (payment_of d db) (other "AttributeError")
  execute_recovery_decision app id payment

-- A candidate is claimed, and the claim is committed, before it is executed.
unfoldable pub execute_candidate : App → ℕ → M Done
unfolding in_session execute_claimed
execute_candidate app id =
    in_session
      (try_except (claim_decision_for_execution id >>= execute_claimed app id) (λ _. rollback))

unfoldable pub execute_candidates : App → List ℕ → M Done
unfolding execute_candidate
execute_candidates app [] = pure tt
execute_candidates app (id ∷ ids) =
    let rest = execute_candidates app ids in execute_candidate app id >> rest

abbrev pub ids_of : List RecoveryDecision → List ℕ
ids_of = map (λ d. d.id)

-- The second step: an error ends the cycle.
unfoldable pub candidate_ids : App → M (List ℕ)
unfolding in_session
candidate_ids app = in_session (
    try_except (get_eligible_recovery_decisions app.worker_batch_size >>= λ ds. pure (ids_of ds))
      (λ _. pure []))

unfoldable pub run_worker_cycle : ℕ → App → M Done
unfolding recover_stale execute_candidates candidate_ids
run_worker_cycle rounds app = do
  _ ← recover_stale rounds app
  ids ← candidate_ids app
  execute_candidates app ids

-- `start_worker`, told to stop after so many polls; an error in a cycle does not end the loop.
unfoldable pub start_worker : ℕ → ℕ → App → M Done
unfolding run_worker_cycle
start_worker zero rounds app = pure tt
start_worker (suc polls) rounds app =
    let rest = start_worker polls rounds app in
    try_except (run_worker_cycle rounds app) (λ _. pure tt) >> rest
