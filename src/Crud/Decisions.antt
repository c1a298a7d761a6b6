-- ===== src/Crud/Decisions.antt =====
-- Recovery decisions: creation, the two atomic claims, and the transitions out of EXECUTING.
use payment_recovery_opportu.Base.{
  ℕ, zero, suc, ◌+◌, ◌-◌, ◌*◌, String, Bool, true, false, ◌&&◌, not, Option, none, some, List, [],
  ◌∷◌, text_eq, ltb, leb, ◌==◌, if◌then◌else◌,
}
use payment_recovery_opportu.Base.Table.{length, append, find_first, replace}
use payment_recovery_opportu.Models.{
  RecoveryDecision, DecisionStatus, RecoveryAction, Variant, Float, ℤ, is_decided, is_executing,
  is_no_action, Database,
}
use payment_recovery_opportu.Session.{
  M, other, pure, or_raise, if_none, ◌>>=◌, ◌>>◌, update, clock, database,
}

-- The reasoning of a prediction, as far as the program tells it apart: the text of the predictor,
-- or one of the texts that app/guardrails.py and app/event_processor.py write.
pub data Reasoning : Type 0 where
  text : String → Reasoning
  model_unavailable control_group : Reasoning
  duplicate_prevented : RecoveryAction → Reasoning
  cooldown_active : ℕ → ℕ → Reasoning

-- `PolicyPrediction` of app/ml/predictor.py.
pub record PolicyPrediction : Type 0 where
  pub decision_status : DecisionStatus
  pub selected_action : RecoveryAction
  pub model_version : String
  pub reasoning : Reasoning
  pub predicted_p0 : Option Float
  pub predicted_p1 : Option Float
  pub predicted_uplift : Option Float
  pub expected_incremental_net_paise : Option ℤ

abbrev pub has_id : ℕ → RecoveryDecision → Bool
has_id id d = d.id == id

abbrev pub has_reference : String → RecoveryDecision → Bool
has_reference ref d = elim d.execution_reference_id [ none ↦ false | some r ↦ text_eq r ref ]

abbrev pub with_decision : RecoveryDecision → Database → Database
with_decision d db = record db { recovery_decisions = append db.recovery_decisions d }

abbrev pub write_decision : (RecoveryDecision → Bool) → RecoveryDecision → Database → Database
write_decision found d db = record db { recovery_decisions = replace found d db.recovery_decisions }

unfoldable pub new_decision :
    Database → ℕ → ℕ → PolicyPrediction → Option String → Option Variant → RecoveryDecision
new_decision db now payment_record_id prediction name variant = record {
  id = suc (length db.recovery_decisions);
  payment_record_id = payment_record_id;
  decision_status = prediction.decision_status;
  selected_action = prediction.selected_action;
  model_version = prediction.model_version;
  experiment_name = name;
  experiment_variant = variant;
  predicted_p0 = prediction.predicted_p0;
  predicted_p1 = prediction.predicted_p1;
  predicted_uplift = prediction.predicted_uplift;
  expected_incremental_net_paise = prediction.expected_incremental_net_paise;
  execution_attempts = 0;
  execution_started_at = none;
  last_error = none;
  last_error_type = none;
  next_retry_at = none;
  execution_reference_id = none;
  executed_at = none;
  outcome_observed_at = none;
  created_at = now;
}

unfoldable pub create_recovery_decision :
    ℕ → PolicyPrediction → Option String → Option Variant → M RecoveryDecision
create_recovery_decision payment_record_id prediction name variant = do
  db ← database
  t ← clock
  let d = new_decision db t payment_record_id prediction name variant
  update (with_decision d) >> pure d

-- The session object of a decision: its row.
unfoldable pub get_decision : ℕ → M RecoveryDecision
get_decision id = do
  db ← database
  or_raise (find_first (has_id id) db.recovery_decisions) (other "ObjectDeletedError")

-- `UPDATE recovery_decisions SET ... WHERE ...`, with a condition on the primary key: it meets one
-- row or none, and says which.
unfoldable pub update_where :
    (RecoveryDecision → Bool) → (RecoveryDecision → RecoveryDecision) → M Bool
update_where condition values = do
  db ← database
  if_none (find_first condition db.recovery_decisions) (pure false)
      λ d. update (write_decision condition (values d)) >> pure true

-- `next_retry_at` is NULL or has come.
abbrev pub is_due : ℕ → Option ℕ → Bool
is_due now none = true
is_due now (some t) = leb t now

unfoldable pub is_eligible : ℕ → RecoveryDecision → Bool
is_eligible now d =
    is_decided d.decision_status
    && not (is_no_action d.selected_action)
    && is_due now d.next_retry_at

abbrev pub insert_by_age : RecoveryDecision → List RecoveryDecision → List RecoveryDecision
insert_by_age d [] = d ∷ []
insert_by_age d (e ∷ es) =
    if leb d.created_at e.created_at then d ∷ e ∷ es else e ∷ insert_by_age d es

-- `filter(is_eligible).order_by(created_at.asc())`: rows of one age stay in the order of the table.
unfoldable pub eligible_by_age : ℕ → List RecoveryDecision → List RecoveryDecision
eligible_by_age now [] = []
eligible_by_age now (d ∷ ds) =
    let rest = eligible_by_age now ds in if is_eligible now d then insert_by_age d rest else rest

unfoldable pub limit {ℓ} : {A : Type ℓ} → ℕ → List A → List A
limit zero xs = []
limit (suc n) [] = []
limit (suc n) (x ∷ xs) = x ∷ limit n xs

unfoldable pub get_eligible_recovery_decisions : ℕ → M (List RecoveryDecision)
unfolding is_eligible eligible_by_age limit
get_eligible_recovery_decisions n = do
  db ← database
  t ← clock
  pure (limit n (eligible_by_age t db.recovery_decisions))

abbrev pub is_claimable : ℕ → RecoveryDecision → Bool
is_claimable id d = d.id == id && is_decided d.decision_status

abbrev pub claimed : ℕ → RecoveryDecision → RecoveryDecision
claimed now d = record d {
  decision_status = DecisionStatus.executing;
  execution_started_at = some now;
  execution_attempts = d.execution_attempts + 1;
}

unfoldable pub claim_decision_for_execution : ℕ → M Bool
unfolding update_where
claim_decision_for_execution id = do t ← clock; update_where (is_claimable id) (claimed t)

abbrev started_before : ℕ → Option ℕ → Bool
started_before threshold none = false
started_before threshold (some t) = ltb t threshold

abbrev pub is_stale : ℕ → RecoveryDecision → Bool
is_stale threshold d =
    is_executing d.decision_status && started_before threshold d.execution_started_at

abbrev same_time : Option ℕ → Option ℕ → Bool
same_time (some s) (some t) = s == t
same_time _ _ = false

-- The condition of the atomic claim: the row is still as it was read.
abbrev pub is_unchanged : RecoveryDecision → RecoveryDecision → Bool
is_unchanged candidate d =
    d.id == candidate.id
    && is_executing d.decision_status
    && same_time d.execution_started_at candidate.execution_started_at

abbrev pub restarted : ℕ → RecoveryDecision → RecoveryDecision
restarted now d = record d { execution_started_at = some now }

-- The second statement of `claim_stale_execution`.
unfoldable pub reclaim : RecoveryDecision → M (Option ℕ)
reclaim candidate = do
  now ← clock
  done ← update_where (is_unchanged candidate) (restarted now)
  if done then pure (some candidate.id) else pure none

-- The id of the decision that was claimed; the caller reloads the row.
unfoldable pub claim_stale_execution : ℕ → M (Option ℕ)
unfolding reclaim
claim_stale_execution stale_threshold_seconds = do
  db ← database
  t ← clock
  if_none (find_first (is_stale (t - stale_threshold_seconds * 1000000)) db.recovery_decisions)
      (pure none) reclaim
