-- ===== src/Stale/Timing.antt =====
-- How late it is after a stale recovery: its one call of the provider takes time, nothing else.
use payment_recovery_opportu.Base.{ℕ, ◌+◌, ◌≤◌, arith}
use payment_recovery_opportu.Base.Text.{exec_reference}
use payment_recovery_opportu.Session.{Session, Result, outside, gets}
use payment_recovery_opportu.Session.Leads.{
  Leads, Leads-bind, Leads-then, Leads-try, Leads-gets, Leads-keep,
}
use payment_recovery_opportu.Crud.{get_decision}
use payment_recovery_opportu.App.{App}
use payment_recovery_opportu.Stale.{recover_link, reconcile_stale_decision}
use payment_recovery_opportu.Stale.Pace.{
  Paced, get_decision-Paced, mark_execution_successful-Paced, audit_stale-Paced,
  on_recovery_error-Paced,
}

-- A call of the provider takes at most `slowest`.
module _ (start n latest slowest : ℕ) where
  pub Paced-later : (s : Session) → Paced start n latest s → Paced start n (latest + slowest) s
  Paced-later s h = record {
    in_committed = h.in_committed;
    in_current = h.in_current;
    begun = h.begun;
    in_time = omega (arith, h.in_time);
  }

  outside-Paced :
      {A : Type 0} (elapsed : ℕ → ℕ) (reply : ℕ → Result A)
      → ((k : ℕ) → elapsed k ≤ slowest)
      → Leads (Paced start n latest) (Paced start n (latest + slowest)) (outside elapsed reply)
  unfolding outside
  outside-Paced elapsed reply quick = record {
    at = λ s h. record {
      in_committed = h.in_committed;
      in_current = h.in_current;
      begun = omega (arith, h.begun);
      in_time = omega (arith, h.in_time, quick s.ticks);
    };
  }

  recover_link-Paced :
      (app : App) (id : ℕ)
      → ((k : ℕ) → app.executor.elapsed k ≤ slowest)
      → Leads (Paced start n latest) (Paced start n (latest + slowest)) (recover_link app id)
  unfolding recover_link
  recover_link-Paced app id quick =
      Leads-then (get_decision id) _ Paced-later (get_decision-Paced start n latest id) λ d.
        Leads-then (gets (λ s. s.current)) _ Paced-later (Leads-gets _) λ db.
          Leads-bind _ _ (outside-Paced app.executor.elapsed _ quick) λ _.
            Leads-keep _ _
              (mark_execution_successful-Paced start n (latest + slowest) id (exec_reference id))
              λ _. audit_stale-Paced start n (latest + slowest) id _ _

  pub reconcile_stale_decision-Paced :
      (app : App) (id : ℕ)
      → ((k : ℕ) → app.executor.elapsed k ≤ slowest)
      → Leads
          (Paced start n latest)
          (Paced start n (latest + slowest))
          (reconcile_stale_decision app id)
  unfolding reconcile_stale_decision
  reconcile_stale_decision-Paced app id quick =
      Leads-try _ _ (recover_link-Paced app id quick)
        (on_recovery_error-Paced start n (latest + slowest) app id)
