-- ===== src/Worker/Closed.antt =====
-- A cycle of the worker makes only changes that the specification knows.
use payment_recovery_opportu.Base.{ℕ, zero, suc, Bool, true, false, Option, List, [], ◌∷◌}
use payment_recovery_opportu.Models.{Database}
use payment_recovery_opportu.Session.{M, rollback}
use payment_recovery_opportu.Session.Keeps.{
  Keeps, Keeps-bind, Keeps-pure, Keeps-if, Keeps-rollback, keeps_rules,
}
use payment_recovery_opportu.Change.{IsClosed}
use payment_recovery_opportu.Change.DecisionClosed.{
  get_decision-Keeps, claim_decision_for_execution-Keeps, claim_stale_execution-Keeps,
  get_eligible_recovery_decisions-Keeps,
}
use payment_recovery_opportu.App.{App}
use payment_recovery_opportu.Execution.Closed.{execute_recovery_decision-Keeps}
use payment_recovery_opportu.Stale.Closed.{reconcile_stale_decision-Keeps}
use payment_recovery_opportu.Worker.{
  in_session, recover_claimed, stale_round, recover_stale, execute_claimed, execute_candidate,
  execute_candidates, candidate_ids, run_worker_cycle,
}

module _ {P : Database → Type 0} where
  pub in_session-Keeps : {A : Type 0} (m : M A) → Keeps P m → Keeps P (in_session m)
  unfolding in_session
  in_session-Keeps m km = record {
    at =
        λ s h. Keeps-rollback.at _ ((Keeps-bind rollback (λ _. m) Keeps-rollback (λ _. km)).at s h);
  }

module _ {P : Database → Type 0} (closed : IsClosed P) where
  recover_claimed-Keeps : (app : App) (claimed : Option ℕ) → Keeps P (recover_claimed app claimed)
  unfolding recover_claimed
  recover_claimed-Keeps app claimed =
      search (keeps_rules, get_decision-Keeps, reconcile_stale_decision-Keeps closed) depth 8

  stale_round-Keeps : (app : App) → Keeps P (stale_round app)
  unfolding stale_round
  stale_round-Keeps app =
      in_session-Keeps _
        (search (keeps_rules, claim_stale_execution-Keeps closed, recover_claimed-Keeps))

  pub recover_stale-Keeps : (rounds : ℕ) (app : App) → Keeps P (recover_stale rounds app)
  unfolding recover_stale
  recover_stale-Keeps zero app = Keeps-pure false
  recover_stale-Keeps (suc rounds) app =
      Keeps-bind (stale_round app) _ (stale_round-Keeps app)
        λ more. Keeps-if more _ _ (recover_stale-Keeps rounds app) (Keeps-pure true)

  execute_claimed-Keeps :
      (app : App) (id : ℕ) (claimed : Bool) → Keeps P (execute_claimed app id claimed)
  unfolding execute_claimed
  execute_claimed-Keeps app id false = Keeps-pure tt
  execute_claimed-Keeps app id true =
      search (keeps_rules, get_decision-Keeps, execute_recovery_decision-Keeps closed) depth 8

  pub execute_candidate-Keeps : (app : App) (id : ℕ) → Keeps P (execute_candidate app id)
  unfolding execute_candidate
  execute_candidate-Keeps app id =
      in_session-Keeps _
        (search (keeps_rules, claim_decision_for_execution-Keeps closed, execute_claimed-Keeps))

  execute_candidates-Keeps : (app : App) (ids : List ℕ) → Keeps P (execute_candidates app ids)
  unfolding execute_candidates
  execute_candidates-Keeps app [] = Keeps-pure tt
  execute_candidates-Keeps app (id ∷ ids) =
      Keeps-bind (execute_candidate app id) _ (execute_candidate-Keeps app id)
        λ _. execute_candidates-Keeps app ids

  candidate_ids-Keeps : (app : App) → Keeps P (candidate_ids app)
  unfolding candidate_ids
  candidate_ids-Keeps app =
      in_session-Keeps _ (search (keeps_rules, get_eligible_recovery_decisions-Keeps))

  pub run_worker_cycle-Keeps : (rounds : ℕ) (app : App) → Keeps P (run_worker_cycle rounds app)
  unfolding run_worker_cycle
  run_worker_cycle-Keeps rounds app =
      search (keeps_rules, recover_stale-Keeps, candidate_ids-Keeps, execute_candidates-Keeps)
