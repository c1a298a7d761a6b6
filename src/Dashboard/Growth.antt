-- ===== src/Dashboard/Growth.antt =====
-- The figures of the funnel never fall while the service runs.
use native.Mathlib.Nat.{le_trans}
use payment_recovery_opportu.Base.{ℕ, ◌≤◌, ◌≡◌, refl, true, false, List, [], ◌∷◌, arith}
use payment_recovery_opportu.Base.Count.{count_if-append, count_if-replace}
use payment_recovery_opportu.Base.Table.{length, append, count_if, length-replace}
use payment_recovery_opportu.Models.{Database, RecoveryDecision}
use payment_recovery_opportu.Floats.{FloatOps}
use payment_recovery_opportu.Change.{
  Change, add_event, set_event_status, add_payment, advance_payment, add_decision, move_decision,
  add_audit, add_outreach, IsClosed, Transition, claim, restart, succeed, retry, give_up,
  note_error, observe,
}
use payment_recovery_opportu.Webhooks.{Endpoint}
use payment_recovery_opportu.System.{Call, run, session_at}
use payment_recovery_opportu.System.History.{run-committed}
use payment_recovery_opportu.Dashboard.{
  LiveSummary, get_live_summary, is_paid_link, is_executed_link,
}

false≢true : false ≡ true → ⊥
false≢true e = cc

length-append :
    (ds : List RecoveryDecision) (d : RecoveryDecision) → length ds ≤ length (append ds d)
length-append [] d = omega arith
length-append (x ∷ ds) d = omega (arith, length-append ds d)

-- No decision that the program moves on falls out of the counts of links executed and links paid.
module _ (d d' : RecoveryDecision) where
  Transition-paid : Transition d d' → is_paid_link d ≡ true → is_paid_link d' ≡ true
  Transition-paid (claim now status e) h = absurd (false≢true (rw status at h))
  Transition-paid (restart now status e) h = absurd (false≢true (rw status at h))
  Transition-paid (succeed now status e) h = absurd (false≢true (rw status at h))
  Transition-paid (retry msg type at status few e) h = absurd (false≢true (rw status at h))
  Transition-paid (give_up msg type status e) h = absurd (false≢true (rw status at h))
  Transition-paid (note_error msg type e) h = rw e h
  Transition-paid (observe now ref known e) h = rw e refl

  Transition-executed : Transition d d' → is_executed_link d ≡ true → is_executed_link d' ≡ true
  Transition-executed (claim now status e) h = absurd (false≢true (rw status at h))
  Transition-executed (restart now status e) h = absurd (false≢true (rw status at h))
  Transition-executed (succeed now status e) h = absurd (false≢true (rw status at h))
  Transition-executed (retry msg type at status few e) h = absurd (false≢true (rw status at h))
  Transition-executed (give_up msg type status e) h = absurd (false≢true (rw status at h))
  Transition-executed (note_error msg type e) h = rw e h
  Transition-executed (observe now ref known e) h = rw e refl

-- The counts of the funnel are at least the ones of a summary.
record Reaches (before : LiveSummary) (ds : List RecoveryDecision) : Type 0 where
  opportunities : before.total_opportunities ≤ length ds
  executed : before.links_executed ≤ count_if is_executed_link ds
  paid : before.links_paid ≤ count_if is_paid_link ds

module _ (before : LiveSummary) where
  abbrev Grown : Database → Type 0
  Grown db = Reaches before db.recovery_decisions

  Change-Grown : (db db' : Database) → Change db db' → Grown db → Grown db'
  Change-Grown db db' (add_event w free e) g = rw e g
  Change-Grown db db' (set_event_status found w status at e) g = rw e g
  Change-Grown db db' (add_payment r free e) g = rw e g
  Change-Grown db db' (advance_payment found r r' at same le e) g = rw e g
  Change-Grown db db' (add_decision d fresh id e) g = rw e (record {
    opportunities = le_trans g.opportunities (length-append db.recovery_decisions d);
    executed = le_trans g.executed (count_if-append is_executed_link db.recovery_decisions d);
    paid = le_trans g.paid (count_if-append is_paid_link db.recovery_decisions d);
  })
  Change-Grown db db' (move_decision found d d' at t e) g = rw e (record {
    opportunities = rw (length-replace found d' db.recovery_decisions) g.opportunities;
    executed = le_trans g.executed (
        count_if-replace is_executed_link found d d' db.recovery_decisions at
          (Transition-executed d d' t));
    paid = le_trans g.paid (
        count_if-replace is_paid_link found d d' db.recovery_decisions at (Transition-paid d d' t));
  })
  Change-Grown db db' (add_audit a e) g = rw e g
  Change-Grown db db' (add_outreach o e) g = rw e g

  Grown-closed : IsClosed Grown
  Grown-closed = record { keep = Change-Grown }

-- No figure of the funnel is below the one of an earlier summary.
pub record HasGrown (before after : LiveSummary) : Type 0 where
  pub opportunities : before.total_opportunities ≤ after.total_opportunities
  pub executed : before.links_executed ≤ after.links_executed
  pub paid : before.links_paid ≤ after.links_paid

Reaches-HasGrown :
    (fl : FloatOps) (before : LiveSummary) (db : Database)
    → Grown before db
    → HasGrown before (get_live_summary fl db)
unfolding get_live_summary
Reaches-HasGrown fl before db g = record {
  opportunities = g.opportunities;
  executed = g.executed;
  paid = g.paid;
}

Reaches-self : (fl : FloatOps) (db : Database) → Grown (get_live_summary fl db) db
unfolding get_live_summary
Reaches-self fl db = record {
  opportunities = omega arith;
  executed = omega arith;
  paid = omega arith;
}

-- Whatever is delivered and however often the worker runs, the summary never shows fewer
-- opportunities, fewer links executed or fewer links paid than it did before.
pub run-HasGrown :
    (fl : FloatOps) (e : Endpoint) (cs : List Call) (db : Database) (now : ℕ)
    → HasGrown
        (get_live_summary fl db)
        (get_live_summary fl (run e (session_at db now) cs).committed)
run-HasGrown fl e cs db now =
    Reaches-HasGrown fl (get_live_summary fl db) _
      (run-committed (Grown-closed (get_live_summary fl db)) e cs db now (Reaches-self fl db))
