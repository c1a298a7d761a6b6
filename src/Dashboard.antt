-- ===== src/Dashboard.antt =====
-- app/dashboard_metrics.py: the figures of the dashboard, each a query of the database. The `func.sum`
-- of no row at all is NULL, and counts as 0. The `ilike` on the free text of an audit row, which
-- the model does not keep, is a parameter.

pub mod Counts
pub mod Growth
pub mod Shares
pub mod Revenue
pub mod Page
use payment_recovery_opportu.Base.{
  ℕ, suc, ◌+◌, ◌-◌, ◌==◌, ltb, if◌then◌else◌, String, Bool, true, false, not, ◌&&◌, ◌||◌, Option,
  none, some, text_eq, List, [], ◌∷◌,
}
use payment_recovery_opportu.Base.Table.{length, count_if}
use payment_recovery_opportu.Models.{
  Database, RecoveryDecision, PaymentRecord, AuditLog, DecisionStatus, Variant, ℤ, pos, negsuc,
  Float, is_failed, is_captured, is_no_action,
}
use payment_recovery_opportu.Models.Integers.{◌+ℤ◌}
use payment_recovery_opportu.Floats.{FloatOps, in_rupees}

-- A row of the inner join of the two tables.
pub record Joined : Type 0 where
  pub decision : RecoveryDecision
  pub payment : PaymentRecord

abbrev pub is_payment_of : RecoveryDecision → PaymentRecord → Bool
is_payment_of d r = r.id == d.payment_record_id

unfoldable pub join_one : RecoveryDecision → List PaymentRecord → List Joined → List Joined
join_one d [] rest = rest
join_one d (r ∷ rs) rest =
    let more = join_one d rs rest in
    if is_payment_of d r then record { decision = d; payment = r } ∷ more else more

-- `RecoveryDecision` joined with `PaymentRecord` by the foreign key.
unfoldable pub join : List RecoveryDecision → List PaymentRecord → List Joined
unfolding join_one
join [] rs = []
join (d ∷ ds) rs = let rest = join ds rs in join_one d rs rest

-- `func.sum(f)` under a filter.
unfoldable pub sum_if : {A : Type 0} → (A → Bool) → (A → ℕ) → List A → ℕ
sum_if p f [] = 0
sum_if p f (x ∷ xs) = let n = sum_if p f xs in if p x then f x + n else n

abbrev pub is_observed : DecisionStatus → Bool
is_observed DecisionStatus.outcome_observed = true
is_observed _ = false

-- `in_([EXECUTED, OUTCOME_OBSERVED])`
abbrev pub is_carried_out : DecisionStatus → Bool
is_carried_out DecisionStatus.executed = true
is_carried_out DecisionStatus.outcome_observed = true
is_carried_out _ = false

abbrev pub is_recovered_condition : Joined → Bool
is_recovered_condition j = is_observed j.decision.decision_status || is_captured j.payment.status

abbrev pub is_paid_link : RecoveryDecision → Bool
is_paid_link d = is_observed d.decision_status

abbrev pub is_executed_link : RecoveryDecision → Bool
is_executed_link d = is_carried_out d.decision_status

pub record LiveSummary : Type 0 where
  pub total_failed : ℕ
  pub total_opportunities : ℕ
  pub links_executed : ℕ
  pub links_paid : ℕ
  pub recovered_revenue_inr : Float

unfoldable pub recovered_amount_paise : Database → ℕ
unfolding join sum_if
recovered_amount_paise db =
    sum_if is_recovered_condition (λ j. j.payment.amount)
      (join db.recovery_decisions db.payment_records)

unfoldable pub get_live_summary : FloatOps → Database → LiveSummary
unfolding recovered_amount_paise
get_live_summary fl db = record {
  total_failed = count_if (λ r. is_failed r.status) db.payment_records;
  total_opportunities = length db.recovery_decisions;
  links_executed = count_if is_executed_link db.recovery_decisions;
  links_paid = count_if is_paid_link db.recovery_decisions;
  recovered_revenue_inr = in_rupees fl (pos (recovered_amount_paise db));
}

abbrev pub is_arm : Variant → Option Variant → Bool
is_arm Variant.control (some Variant.control) = true
is_arm Variant.treatment (some Variant.treatment) = true
is_arm _ _ = false

abbrev pub in_arm : Variant → RecoveryDecision → Bool
in_arm v d = is_arm v d.experiment_variant

-- The row of the two aggregates of one arm.
pub record ArmStats : Type 0 where
  pub n : ℕ
  pub recovered : ℕ

unfoldable pub arm_stats : Variant → Database → ArmStats
unfolding join
arm_stats v db = record {
  n = count_if (λ j. in_arm v j.decision) (join db.recovery_decisions db.payment_records);
  recovered =
      count_if (λ j. in_arm v j.decision && is_recovered_condition j)
        (join db.recovery_decisions db.payment_records);
}

unfoldable pub interventions : Database → ℕ
interventions db =
    count_if (λ d. in_arm Variant.treatment d && is_executed_link d) db.recovery_decisions

pub record ExperimentMetrics : Type 0 where
  pub control_n : ℕ
  pub control_recovered : ℕ
  pub control_rate : Float
  pub treatment_n : ℕ
  pub treatment_recovered : ℕ
  pub treatment_rate : Float
  pub intervention_rate : Float
  pub observed_uplift : Option Float

-- The int 0 of an empty arm stands as the float that equals it.
abbrev pub rate : FloatOps → ℕ → ℕ → Float
rate fl part n = if ltb 0 n then fl.ratio (pos part) (pos n) else fl.of_int (pos 0)

unfoldable pub get_experiment_metrics : FloatOps → Database → ExperimentMetrics
unfolding arm_stats interventions
get_experiment_metrics fl db =
    let c = arm_stats Variant.control db in
    let t = arm_stats Variant.treatment db in
    let control_rate = rate fl c.recovered c.n in
    let treatment_rate = rate fl t.recovered t.n in
    record {
      control_n = c.n;
      control_recovered = c.recovered;
      control_rate = control_rate;
      treatment_n = t.n;
      treatment_recovered = t.recovered;
      treatment_rate = treatment_rate;
      intervention_rate = rate fl (interventions db) t.n;
      observed_uplift =
          if ltb 0 c.n && ltb 0 t.n then some (fl.sub treatment_rate control_rate) else none;
    }

-- The sum skips the rows whose column is NULL.
abbrev plus_column : Option ℤ → ℤ → ℤ
plus_column none total = total
plus_column (some n) total = n +ℤ total

unfoldable pub expected_incremental_paise : List RecoveryDecision → ℤ
expected_incremental_paise [] = pos 0
expected_incremental_paise (d ∷ ds) =
    let total = expected_incremental_paise ds in
    if is_executed_link d && not (is_no_action d.selected_action)
    then plus_column d.expected_incremental_net_paise total
    else total

unfoldable pub get_economic_impact : FloatOps → Database → Float
unfolding expected_incremental_paise
get_economic_impact fl db = fl.ratio (expected_incremental_paise db.recovery_decisions) (pos 100)

pub record GuardrailMetrics : Type 0 where
  pub duplicate_blocks : ℕ
  pub cooldown_blocks : ℕ
  pub fallback_blocks : ℕ

-- `ilike("%word%")` of the reason of a row.
abbrev override_blocks : (String → AuditLog → Bool) → String → List AuditLog → ℕ
override_blocks reason_like word =
    count_if (λ a. text_eq a.event_type "POLICY_DECISION" && reason_like word a)

unfoldable pub get_guardrail_metrics : (String → AuditLog → Bool) → Database → GuardrailMetrics
get_guardrail_metrics reason_like db = record {
  duplicate_blocks =
      count_if (λ a. text_eq a.action "SKIP_DUPLICATE" || text_eq a.action "IDEMPOTENT_ACK")
        db.audit_logs
      + override_blocks reason_like "duplicate" db.audit_logs;
  cooldown_blocks =
      count_if (λ a. text_eq a.event_type "GUARDRAIL_COOLDOWN") db.audit_logs
      + override_blocks reason_like "cooldown" db.audit_logs;
  fallback_blocks =
      count_if (λ a. text_eq a.event_type "GUARDRAIL_MODEL_FALLBACK") db.audit_logs
      + override_blocks reason_like "fallback" db.audit_logs;
}
