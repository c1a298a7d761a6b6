-- ===== src/Stale/Pace.antt =====
-- A stale recovery at the pace of the provider: how many stale decisions there are after it, and
-- how late it is then.
use native.Mathlib.Nat.{le_trans}
use payment_recovery_opportu.Base.{
  ℕ, ◌≤◌, ◌≡◌, refl, String, Bool, true, false, Option, some, inl, inr, Option-cases, Bool-cases,
  arith,
}
use payment_recovery_opportu.Base.Table.{find_first, count_if}
use payment_recovery_opportu.Base.Count.{count_if-replace_below}
use payment_recovery_opportu.Models.{Database, RecoveryDecision, is_executing}
use payment_recovery_opportu.Session.{
  Session, Error, ambiguous, reconciliation, transient, permanent, ◌>>=◌, commit, rollback, outside,
}
use payment_recovery_opportu.Session.Leads.{Leads, Leads-raise, leads_rules}
use payment_recovery_opportu.Crud.{
  has_id, is_stale, get_decision, leave_executing, mark_execution_successful, executed_with,
  failed_retryable, failed_permanent, mark_execution_failed_retryable,
  mark_execution_failed_permanent, update_execution_error_only, write_decision, with_error,
  append_audit_log,
}
use payment_recovery_opportu.Retry.{RetryResult}
use payment_recovery_opportu.App.{App}
use payment_recovery_opportu.Execution.{fail_by_policy, policy_for, random_draw, settle_failure}
use payment_recovery_opportu.Stale.{
  audit_stale, on_recovery_error, on_no_link, on_mismatch, on_lookup_failure,
}

abbrev pub stale_count : ℕ → Database → ℕ
stale_count start db = count_if (is_stale start) db.recovery_decisions

-- At most `n` decisions are in EXECUTING since before `start`, and the time is between `start` and
-- `latest`.
pub record Paced (start n latest : ℕ) (s : Session) : Type 0 where
  pub in_committed : stale_count start s.committed ≤ n
  pub in_current : stale_count start s.current ≤ n
  pub begun : start ≤ s.now
  pub in_time : s.now ≤ latest

not_stale :
    (start : ℕ) (d : RecoveryDecision)
    → is_executing d.decision_status ≡ false
    → is_stale start d ≡ true
    → ⊥
not_stale start d h k = ground arith

module _ (start n latest : ℕ) where
  abbrev Here : Session → Type 0
  Here = Paced start n latest

  pub commit-Paced : Leads Here Here commit
  unfolding commit
  commit-Paced = record {
    at = λ s h. record {
      in_committed = h.in_current;
      in_current = h.in_current;
      begun = h.begun;
      in_time = h.in_time;
    };
  }

  pub rollback-Paced : Leads Here Here rollback
  unfolding rollback
  rollback-Paced = record {
    at = λ s h. record {
      in_committed = h.in_committed;
      in_current = h.in_committed;
      begun = h.begun;
      in_time = h.in_time;
    };
  }

  pub get_decision-Paced : (id : ℕ) → Leads Here Here (get_decision id)
  unfolding get_decision
  get_decision-Paced id = search leads_rules

  append_audit_log-Paced :
      (event_type kind : String) (payment : Option ℕ)
      → Leads Here Here (append_audit_log event_type kind payment)
  unfolding append_audit_log ◌>>=◌
  append_audit_log-Paced event_type kind payment = record {
    at = λ s h. record {
      in_committed = h.in_committed;
      in_current = h.in_current;
      begun = h.begun;
      in_time = h.in_time;
    };
  }

  -- A row that is written over by one that is stale only if it was.
  written-Paced :
      (found : RecoveryDecision → Bool) (d d' : RecoveryDecision) (s : Session)
      → find_first found s.current.recovery_decisions ≡ some d
      → (is_stale start d' ≡ true → is_stale start d ≡ true)
      → Here s
      → Here (record s { current = write_decision found d' s.current })
  written-Paced found d d' s e stale_before h = record {
    in_committed = h.in_committed;
    in_current =
        le_trans (count_if-replace_below (is_stale start) found d d' _ e stale_before) h.in_current;
    begun = h.begun;
    in_time = h.in_time;
  }

  leave_executing-Paced :
      (id : ℕ) (values : RecoveryDecision → RecoveryDecision)
      → ((d : RecoveryDecision) → is_executing (values d).decision_status ≡ false)
      → Leads Here Here (leave_executing id values)
  unfolding leave_executing ◌>>=◌
  leave_executing-Paced id values leaves = record {
    at = λ s h. elim (Option-cases (find_first (has_id id) s.current.recovery_decisions)) [
      | inl missing ↦ rw missing h
      | inr (d, e) ↦ rw e (elim (Bool-cases (is_executing d.decision_status)) [
        | inl executing ↦ rw executing (
            written-Paced (has_id id) d (values d) s e
              (λ x. absurd (not_stale start (values d) (leaves d) x)) h)
        | inr other ↦ rw other h
      ])
    ];
  }

  pub mark_execution_successful-Paced :
      (id : ℕ) (ref : String) → Leads Here Here (mark_execution_successful id ref)
  unfolding mark_execution_successful ◌>>=◌
  mark_execution_successful-Paced id ref = record {
    at = λ s h. (leave_executing-Paced id (executed_with s.now ref) (λ d. refl)).at s h;
  }

  mark_execution_failed_retryable-Paced :
      (id : ℕ) (msg : String) (type : Option String) (at : Option ℕ)
      → Leads Here Here (mark_execution_failed_retryable id msg type at)
  unfolding mark_execution_failed_retryable
  mark_execution_failed_retryable-Paced id msg type at =
      leave_executing-Paced id (failed_retryable msg type at) (λ d. refl)

  mark_execution_failed_permanent-Paced :
      (id : ℕ) (msg : String) (type : Option String)
      → Leads Here Here (mark_execution_failed_permanent id msg type)
  unfolding mark_execution_failed_permanent
  mark_execution_failed_permanent-Paced id msg type =
      leave_executing-Paced id (failed_permanent msg type) (λ d. refl)

  update_execution_error_only-Paced :
      (id : ℕ) (msg : String) (type : Option String)
      → Leads Here Here (update_execution_error_only id msg type)
  unfolding update_execution_error_only ◌>>=◌
  update_execution_error_only-Paced id msg type = record {
    at = λ s h. elim (Option-cases (find_first (has_id id) s.current.recovery_decisions)) [
      | inl missing ↦ rw missing h
      | inr (d, e) ↦ rw e (written-Paced (has_id id) d (with_error msg type d) s e (λ x. x) h)
    ];
  }

  random_draw-Paced : (app : App) → Leads Here Here (random_draw app)
  unfolding random_draw outside
  random_draw-Paced app = record {
    at = λ s h. record {
      in_committed = h.in_committed;
      in_current = h.in_current;
      begun = omega (arith, h.begun);
      in_time = omega (arith, h.in_time);
    };
  }

  policy_for-Paced :
      (app : App) (attempts : ℕ) (e : Error) → Leads Here Here (policy_for app attempts e)
  unfolding policy_for
  policy_for-Paced app attempts e = search (leads_rules, random_draw-Paced)

  settle_failure-Paced :
      (id : ℕ) (msg : String) (type : Option String) (r : RetryResult)
      → Leads Here Here (settle_failure id msg type r)
  unfolding settle_failure
  settle_failure-Paced id msg type r =
      search
        (leads_rules, mark_execution_failed_retryable-Paced, mark_execution_failed_permanent-Paced)

  fail_by_policy-Paced :
      (app : App) (id : ℕ) (e : Error) (msg : String) (type : Option String)
      → Leads Here Here (fail_by_policy app id e msg type)
  unfolding fail_by_policy
  fail_by_policy-Paced app id e msg type =
      search (leads_rules, get_decision-Paced, policy_for-Paced, settle_failure-Paced)

  pub audit_stale-Paced :
      (id : ℕ) (event_type kind : String) → Leads Here Here (audit_stale id event_type kind)
  unfolding audit_stale
  audit_stale-Paced id event_type kind =
      search (leads_rules, get_decision-Paced, append_audit_log-Paced, commit-Paced)

  pub on_recovery_error-Paced :
      (app : App) (id : ℕ) (e : Error) → Leads Here Here (on_recovery_error app id e)
  unfolding on_recovery_error on_no_link on_mismatch on_lookup_failure
  on_recovery_error-Paced app id (ambiguous msg type) =
      search (leads_rules, fail_by_policy-Paced, audit_stale-Paced)
  on_recovery_error-Paced app id (reconciliation msg type) =
      search (leads_rules, mark_execution_failed_permanent-Paced, audit_stale-Paced)
  on_recovery_error-Paced app id (transient msg type) =
      search (leads_rules, update_execution_error_only-Paced, audit_stale-Paced)
  on_recovery_error-Paced app id (permanent msg type) =
      search (leads_rules, update_execution_error_only-Paced, audit_stale-Paced)
  on_recovery_error-Paced app id _ = Leads-raise _
