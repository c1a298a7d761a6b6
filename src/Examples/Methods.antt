-- ===== src/Examples/Methods.antt =====
-- Single methods: the retry policy, an execution, a claim, the guardrails, the variant.
use payment_recovery_opportu.Base.{List, [], ◌∷◌}
use payment_recovery_opportu.Models.{RecoveryDecision}
use payment_recovery_opportu.Crud.{get_eligible_recovery_decisions}
use payment_recovery_opportu.Worker.Candidates.{IsBatch, get_eligible_recovery_decisions-IsBatch}
use payment_recovery_opportu.Stale.{reconcile_stale_decision}
use payment_recovery_opportu.Stale.Outcome.{IsRecovered, reconcile_stale_decision-IsRecovered}
use payment_recovery_opportu.Executor.{mock_payment_link_provider}
use payment_recovery_opportu.Base.{
  text_eq, ◌*◌, ◌^◌, ◌≤◌, ◌≡◌, refl, true, false, none, some, ltb, if◌then◌else◌, arith,
}
use payment_recovery_opportu.Base.Table.{find_first, All, count_if}
use payment_recovery_opportu.Base.Text.{truthy}
use payment_recovery_opportu.Models.{
  DecisionStatus, is_no_action, pos, control, treatment, empty_database,
}
use payment_recovery_opportu.Session.{Session, ◌>>=◌, ok, transient}
use payment_recovery_opportu.Crud.{
  latest_recent, claim_decision_for_execution, has_id, is_unchanged,
}
use payment_recovery_opportu.Retry.{base_delay, calculate_retry}
use payment_recovery_opportu.Retry.Bounds.{Scheduled, calculate_retry_schedule}
use payment_recovery_opportu.Experiment.{experiment_engine, clamp_percentage, assign_variant}
use payment_recovery_opportu.Experiment.Share.{assign_variant_lem}
use payment_recovery_opportu.Guardrails.{normalized_identifier, blocks, evaluate}
use payment_recovery_opportu.Guardrails.Rules.{IsCooledDown, evaluate-allows, evaluate-executing}
use payment_recovery_opportu.Execution.{payment_of, execute_recovery_decision}
use payment_recovery_opportu.Execution.Outcome.{
  HasRow, IsSettled, execute_recovery_decision-IsSettled,
}
use payment_recovery_opportu.Worker.Claim.{claim-once}
use payment_recovery_opportu.Stale.Race.{wins, wins-exactly_one}
use payment_recovery_opportu.Worker.{execute_candidate}
use payment_recovery_opportu.Worker.Progress.{execute_candidate-IsSettled}
use payment_recovery_opportu.System.{session_at}
use payment_recovery_opportu.Examples.{
  send_link, predictor, app_with, old_payment, decision_in, database_with, stored,
}

stored-row : HasRow 1 (decision_in DecisionStatus.executing 1) stored
unfolding find_first
stored-row = refl

named : truthy (some "exp") ≡ true
unfolding text_eq
named = refl

calculate_retry_schedule_example :
    Scheduled
      (calculate_retry 2 (transient "timeout" "NETWORK_ERROR") 7 (2 ^ 52))
      7
      (base_delay * 2)
calculate_retry_schedule_example =
    calculate_retry_schedule 1 7 (2 ^ 52) "timeout" "NETWORK_ERROR" (omega arith) (omega arith)

execute_recovery_decision-IsSettled_example :
    IsSettled 1
      (ok tt, DecisionStatus.executed)
      (execute_recovery_decision (app_with predictor) 1 old_payment (session_at stored 0))
unfolding mock_payment_link_provider
execute_recovery_decision-IsSettled_example =
    execute_recovery_decision-IsSettled (app_with predictor) 1
      (decision_in DecisionStatus.executing 1) old_payment (session_at stored 0) stored-row refl

abbrev waiting : Session
waiting = session_at (database_with (decision_in DecisionStatus.decided 0)) 0

counted : count_if (has_id 1) waiting.current.recovery_decisions ≤ 1
unfolding count_if
counted = omega arith

won : (claim_decision_for_execution 1 waiting).0 ≡ ok true
unfolding claim_decision_for_execution ◌>>=◌ find_first
won = refl

claim-once_example :
    (let s' : Session = record ((claim_decision_for_execution 1 waiting).1) { now = 9 } in
      claim_decision_for_execution 1 s' ≡ (ok false, s'))
claim-once_example = claim-once 1 waiting 9 counted won

cheap :
    is_no_action
      (evaluate (λ t. t) 48 0 empty_database old_payment (some send_link)).selected_action
    ≡ false
unfolding evaluate find_first latest_recent normalized_identifier
cheap = refl

evaluate-allows_example :
    (some send_link ≡ some (evaluate (λ t. t) 48 0 empty_database old_payment (some send_link)))
    × All (λ d. blocks 1 d ≡ false) empty_database.recovery_decisions
    × IsCooledDown (λ t. t) 48 0 empty_database old_payment
evaluate-allows_example =
    evaluate-allows (λ t. t) 48 0 empty_database old_payment (some send_link) cheap

evaluate-executing_example : evaluate (λ t. t) 48 0 stored old_payment (some send_link) ≡ send_link
evaluate-executing_example =
    evaluate-executing (λ t. t) 48 0 stored old_payment send_link (refl, tt) refl

assign_variant_lem_example :
    assign_variant (λ t. 42) (experiment_engine (some "exp") (pos 150)) "a@b.c"
    ≡ (if ltb 42 (clamp_percentage (pos 150)) then control else treatment)
assign_variant_lem_example = assign_variant_lem (λ t. 42) "exp" (pos 150) "a@b.c" named

get_eligible_recovery_decisions-IsBatch_example :
    (ds : List RecoveryDecision) × (get_eligible_recovery_decisions 10 waiting ≡ (ok ds, waiting))
    × IsBatch 10 waiting ds
get_eligible_recovery_decisions-IsBatch_example = get_eligible_recovery_decisions-IsBatch 10 waiting

reconcile_stale_decision-IsRecovered_example :
    IsRecovered 1 stored
      (ok tt, DecisionStatus.executed)
      (reconcile_stale_decision (app_with predictor) 1 (session_at stored 0))
unfolding mock_payment_link_provider
reconcile_stale_decision-IsRecovered_example =
    reconcile_stale_decision-IsRecovered (app_with predictor) 1
      (decision_in DecisionStatus.executing 1) (session_at stored 0) stored-row refl

stored-once : count_if (has_id 1) stored.recovery_decisions ≤ 1
unfolding count_if
stored-once = omega arith

waiting-row : HasRow 1 (decision_in DecisionStatus.decided 0) waiting.committed
unfolding find_first
waiting-row = refl

waiting-paid :
    payment_of (decision_in DecisionStatus.decided 0) waiting.committed ≡ some old_payment
unfolding find_first
waiting-paid = refl

execute_candidate-IsSettled_example :
    IsSettled 1 (ok tt, DecisionStatus.executed) (execute_candidate (app_with predictor) 1 waiting)
unfolding mock_payment_link_provider
execute_candidate-IsSettled_example =
    execute_candidate-IsSettled (app_with predictor) 1 (decision_in DecisionStatus.decided 0)
      old_payment waiting waiting-row refl waiting-paid

wins-exactly_one_example :
    wins (decision_in DecisionStatus.executing 1) (5 ∷ 5 ∷ 9 ∷ []) (session_at stored 0)
    ≡ elim (find_first
        (is_unchanged (decision_in DecisionStatus.executing 1))
        (session_at stored 0).current.recovery_decisions) [ none ↦ 0 | some d ↦ 1 ]
wins-exactly_one_example =
    wins-exactly_one (decision_in DecisionStatus.executing 1) 0 5 (5 ∷ 9 ∷ []) (session_at stored 0)
      refl (omega arith) stored-once
