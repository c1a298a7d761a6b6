-- ===== src/Guardrails/Rules.antt =====
-- What the guardrails let through, and what they do not see.
use payment_recovery_opportu.Base.{
  ℕ, ◌≡◌, refl, sym, String, Bool, true, false, Option, none, some, List, [], ◌∷◌, inl, inr, ap,
  if◌then◌else◌, Bool-cases, arith,
}
use payment_recovery_opportu.Base.Table.{find_first, All, none≢some}
use payment_recovery_opportu.Models.{
  Database, PaymentRecord, RecoveryDecision, DecisionStatus, CustomerOutreachEvent, is_no_action,
}
use payment_recovery_opportu.Crud.{PolicyPrediction, is_recent, latest_recent}
use payment_recovery_opportu.Guardrails.{
  blocks, apply_duplicate, apply_cooldown, normalized_identifier, cooldown_since, recent_outreach,
  evaluate,
}

find_first-none :
    {A : Type 0} (p : A → Bool) (xs : List A) → find_first p xs ≡ none → All (λ x. p x ≡ false) xs
unfolding find_first
find_first-none p [] e = tt
find_first-none p (x ∷ xs) e = elim (Bool-cases (p x)) [
  | inl hit ↦ absurd (none≢some (sym (rw hit at e)))
  | inr miss ↦ (miss, find_first-none p xs (rw miss at e))
]

none-find_first :
    {A : Type 0} (p : A → Bool) (xs : List A) → All (λ x. p x ≡ false) xs → find_first p xs ≡ none
unfolding find_first
none-find_first p [] h = refl
none-find_first p (x ∷ xs) h = rw h.0 (none-find_first p xs h.1)

latest_recent-none :
    (customer : String) (since : ℕ) (os : List CustomerOutreachEvent)
    → latest_recent customer since os ≡ none
    → All (λ o. is_recent customer since o ≡ false) os
unfolding latest_recent
latest_recent-none customer since [] e = tt
latest_recent-none customer since (o ∷ os) e = elim (Bool-cases (is_recent customer since o)) [
  | inl hit ↦ absurd (none≢some (sym (rw hit at e)))
  | inr miss ↦ (miss, latest_recent-none customer since os (rw miss at e))
]

-- The customer, if there is one to be identified, has had no outreach since the cooldown began.
abbrev pub IsCooledDown : (String → String) → ℕ → ℕ → Database → PaymentRecord → Type 0
IsCooledDown lower cooldown_hours now db payment =
    (c : String)
    → normalized_identifier lower payment ≡ some c
    → All (λ o. is_recent c (cooldown_since cooldown_hours now) o ≡ false) db.outreach_events

recent_outreach-none :
    (lower : String → String) (cooldown_hours now : ℕ) (db : Database) (payment : PaymentRecord)
    → recent_outreach cooldown_hours now (normalized_identifier lower payment) db ≡ none
    → IsCooledDown lower cooldown_hours now db payment
recent_outreach-none lower cooldown_hours now db payment e c same =
    latest_recent-none c _ db.outreach_events (rw same at e)

true≢false : true ≡ false → ⊥
true≢false e = cc

-- The rules, over what the two queries find.
rules-allow :
    (hours : ℕ) (p : PolicyPrediction) (idle : Bool) (d : Option RecoveryDecision)
    (o : Option CustomerOutreachEvent)
    → is_no_action p.selected_action ≡ idle
    → is_no_action
        (if idle then p else apply_duplicate d p (apply_cooldown hours o p)).selected_action
      ≡ false
    → (p ≡ (if idle then p else apply_duplicate d p (apply_cooldown hours o p)))
      × (d ≡ none)
      × (o ≡ none)
rules-allow hours p true d o same acts = absurd (true≢false (rw same at acts))
rules-allow hours p false (some d) o same acts = absurd (true≢false acts)
rules-allow hours p false none (some o) same acts = absurd (true≢false acts)
rules-allow hours p false none none same acts = (refl, refl, refl)

-- An action other than NO_ACTION comes out of the guardrails only as the prediction that went in,
-- and only if no decision of the payment stands against it (a DECIDED, EXECUTED or OUTCOME_OBSERVED
-- one with an action) and the customer, if identified, has had no outreach within the cooldown.
pub evaluate-allows :
    (lower : String → String) (cooldown_hours now : ℕ) (db : Database) (payment : PaymentRecord)
    (prediction : Option PolicyPrediction)
    → is_no_action (evaluate lower cooldown_hours now db payment prediction).selected_action ≡ false
    → (prediction ≡ some (evaluate lower cooldown_hours now db payment prediction))
      × All (λ d. blocks payment.id d ≡ false) db.recovery_decisions
      × IsCooledDown lower cooldown_hours now db payment
unfolding evaluate
evaluate-allows lower cooldown_hours now db payment none acts = absurd (true≢false acts)
evaluate-allows lower cooldown_hours now db payment (some p) acts =
    let (same, free, cold) =
      rules-allow cooldown_hours p _ (find_first (blocks payment.id) db.recovery_decisions)
        (recent_outreach cooldown_hours now (normalized_identifier lower payment) db) refl acts in
    (
      ap some same,
      find_first-none (blocks payment.id) db.recovery_decisions free,
      recent_outreach-none lower cooldown_hours now db payment cold,
    )

executing-blocks :
    (payment : ℕ) (d : RecoveryDecision)
    → d.decision_status ≡ DecisionStatus.executing
    → blocks payment d ≡ false
executing-blocks payment d e = ground arith

unreached-recent_outreach :
    (hours now : ℕ) (customer : Option String) (db : Database)
    → db.outreach_events ≡ []
    → recent_outreach hours now customer db ≡ none
unfolding latest_recent
unreached-recent_outreach hours now none db e = refl
unreached-recent_outreach hours now (some c) db e = rw e refl

if-same : (b : Bool) (p : PolicyPrediction) → (if b then p else p) ≡ p
if-same true p = refl
if-same false p = refl

executing-block :
    (payment : ℕ) (ds : List RecoveryDecision)
    → All (λ d. d.decision_status ≡ DecisionStatus.executing) ds
    → All (λ d. blocks payment d ≡ false) ds
executing-block payment [] h = tt
executing-block payment (d ∷ ds) h =
    (executing-blocks payment d h.0, executing-block payment ds h.1)

-- A decision that is being executed stands against no other: where all decisions are EXECUTING and
-- no outreach has been recorded yet, every prediction is let through as it is, and so is a second
-- payment link for a payment whose first is on its way.
pub evaluate-executing :
    (lower : String → String) (cooldown_hours now : ℕ) (db : Database) (payment : PaymentRecord)
    (p : PolicyPrediction)
    → All (λ d. d.decision_status ≡ DecisionStatus.executing) db.recovery_decisions
    → db.outreach_events ≡ []
    → evaluate lower cooldown_hours now db payment (some p) ≡ p
unfolding evaluate
evaluate-executing lower cooldown_hours now db payment p executing unreached =
    rw
      (none-find_first (blocks payment.id) db.recovery_decisions
        (executing-block payment.id db.recovery_decisions executing))
      (rw
        (unreached-recent_outreach cooldown_hours now (normalized_identifier lower payment) db
          unreached)
        (if-same (is_no_action p.selected_action) p))
