-- ===== src/Invariant/Audit.antt =====
-- The audit trail and the outreach events only grow.
use payment_recovery_opportu.Base.{◌≡◌, List, [], ◌∷◌, ◌++◌, sym}
use mathlib.Core.List.{append_assoc, append-nil}
use payment_recovery_opportu.Models.{Database}
use payment_recovery_opportu.Change.{
  Change, add_event, set_event_status, add_payment, advance_payment, add_decision, move_decision,
  add_audit, add_outreach, IsClosed,
}

-- `ys` is `xs` with more rows behind them.
abbrev pub Extends : {A : Type 0} → List A → List A → Type 0
Extends {A} xs ys = (more : List A) × (ys ≡ xs ++ more)

pub Extends-refl : {A : Type 0} (xs : List A) → Extends xs xs
Extends-refl xs = ([], sym (append-nil xs))

Extends-append : {A : Type 0} (xs ys : List A) (y : A) → Extends xs ys → Extends xs (ys ++ y ∷ [])
Extends-append xs ys y (more, e) = (more ++ y ∷ [], rw e (append_assoc xs more (y ∷ [])))

abbrev pub TrailExtends : Database → Database → Type 0
TrailExtends before db =
    Extends before.audit_logs db.audit_logs × Extends before.outreach_events db.outreach_events

Change-TrailExtends :
    (before db db' : Database) → Change db db' → TrailExtends before db → TrailExtends before db'
Change-TrailExtends before db db' (add_event w free e) v = rw e v
Change-TrailExtends before db db' (set_event_status found w status at e) v = rw e v
Change-TrailExtends before db db' (add_payment r free e) v = rw e v
Change-TrailExtends before db db' (advance_payment found r r' at same le e) v = rw e v
Change-TrailExtends before db db' (add_decision d fresh id e) v = rw e v
Change-TrailExtends before db db' (move_decision found d d' at t e) v = rw e v
Change-TrailExtends before db db' (add_audit a e) v =
    rw e (Extends-append before.audit_logs db.audit_logs a v.0, v.1)
Change-TrailExtends before db db' (add_outreach o e) v =
    rw e (v.0, Extends-append before.outreach_events db.outreach_events o v.1)

pub TrailExtends-closed : (before : Database) → IsClosed (TrailExtends before)
TrailExtends-closed before = record { keep = Change-TrailExtends before }
