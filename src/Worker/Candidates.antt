-- ===== src/Worker/Candidates.antt =====
-- The candidates of a worker cycle: which decisions they are, in which order, and how many.
use payment_recovery_opportu.Base.{
  ℕ, zero, suc, ◌≤◌, ◌≡◌, ◌∙◌, ◌⊎◌, refl, sym, ap, subst, min, Bool, true, false, not, ◌&&◌, Option,
  none, some, List, [], ◌∷◌, ◌++◌, leb, if◌then◌else◌, inl, inr, Bool-cases, arith,
}
use mathlib.Core.List.{Perm, perm_middle}
use mathlib.Core.List.Perm
use payment_recovery_opportu.Base.Table.{length, All}
use payment_recovery_opportu.Models.{
  RecoveryDecision, DecisionStatus, RecoveryAction, is_decided, is_no_action,
}
use payment_recovery_opportu.Session.{Session, ok, ◌>>=◌}
use payment_recovery_opportu.Crud.{
  get_eligible_recovery_decisions, is_due, is_eligible, insert_by_age, eligible_by_age, limit,
}

-- No decision is younger than one that comes after it.
abbrev pub IsByAge : List RecoveryDecision → Type 0
IsByAge [] = Unit
IsByAge (d ∷ ds) = All (λ e. d.created_at ≤ e.created_at) ds × IsByAge ds

module _ (P : RecoveryDecision → Type 0) where
  insert_by_age-All :
      (d : RecoveryDecision) (ds : List RecoveryDecision)
      → P d
      → All P ds
      → All P (insert_by_age d ds)
  insert_by_age-All d [] p h = (p, tt)
  insert_by_age-All d (e ∷ es) p h = elim (Bool-cases (leb d.created_at e.created_at)) [
    | inl older ↦ rw older (p, h)
    | inr younger ↦ rw younger (h.0, insert_by_age-All d es p h.1)
  ]

  limit-All : (n : ℕ) (ds : List RecoveryDecision) → All P ds → All P (limit n ds)
  unfolding limit
  limit-All zero ds h = tt
  limit-All (suc n) [] h = tt
  limit-All (suc n) (d ∷ ds) h = (h.0, limit-All n ds h.1)

All-map :
    {P Q : RecoveryDecision → Type 0}
    → ((d : RecoveryDecision) → P d → Q d)
    → (ds : List RecoveryDecision) → All P ds
    → All Q ds
All-map f [] h = tt
All-map f (d ∷ ds) h = (f d h.0, All-map f ds h.1)

All-le :
    (m n : ℕ) (ds : List RecoveryDecision)
    → m ≤ n
    → All (λ e. n ≤ e.created_at) ds
    → All (λ e. m ≤ e.created_at) ds
All-le m n [] le h = tt
All-le m n (d ∷ ds) le h = (omega (arith, h.0), All-le m n ds le h.1)

leb-le : (m n : ℕ) → leb m n ≡ true → m ≤ n
leb-le m n h = ground arith

leb-ge : (m n : ℕ) → leb m n ≡ false → n ≤ m
leb-ge m n h = ground arith

insert_by_age-IsByAge :
    (d : RecoveryDecision) (ds : List RecoveryDecision) → IsByAge ds → IsByAge (insert_by_age d ds)
insert_by_age-IsByAge d [] h = (tt, tt)
insert_by_age-IsByAge d (e ∷ es) h = elim (Bool-cases (leb d.created_at e.created_at)) [
  | inl older ↦
      let le = leb-le _ _ older in rw older ((le, All-le d.created_at e.created_at es le h.0), h)
  | inr younger ↦ rw younger (
    insert_by_age-All (λ x. e.created_at ≤ x.created_at) d es (leb-ge _ _ younger) h.0,
    insert_by_age-IsByAge d es h.1,
  )
]

eligible_by_age-All :
    (now : ℕ) (ds : List RecoveryDecision)
    → All (λ d. is_eligible now d ≡ true) (eligible_by_age now ds)
unfolding eligible_by_age
eligible_by_age-All now [] = tt
eligible_by_age-All now (d ∷ ds) = elim (Bool-cases (is_eligible now d)) [
  | inl due ↦ rw due (insert_by_age-All _ d _ due (eligible_by_age-All now ds))
  | inr rest ↦ rw rest (eligible_by_age-All now ds)
]

eligible_by_age-IsByAge : (now : ℕ) (ds : List RecoveryDecision) → IsByAge (eligible_by_age now ds)
unfolding eligible_by_age
eligible_by_age-IsByAge now [] = tt
eligible_by_age-IsByAge now (d ∷ ds) = elim (Bool-cases (is_eligible now d)) [
  | inl due ↦ rw due (insert_by_age-IsByAge d _ (eligible_by_age-IsByAge now ds))
  | inr rest ↦ rw rest (eligible_by_age-IsByAge now ds)
]

limit-length : (n : ℕ) (ds : List RecoveryDecision) → length (limit n ds) ≡ min n (length ds)
unfolding limit
limit-length zero ds = omega arith
limit-length (suc n) [] = omega arith
limit-length (suc n) (d ∷ ds) = omega (arith, limit-length n ds)

-- What a candidate is: it is DECIDED, it has an action, and it has no time of a next attempt or one
-- that has come.
pub record IsCandidate (now : ℕ) (d : RecoveryDecision) : Type 0 where
  pub is_decided : d.decision_status ≡ DecisionStatus.decided
  pub acts :
      (d.selected_action ≡ RecoveryAction.send_payment_link)
      ⊎ (d.selected_action ≡ RecoveryAction.send_payment_link_with_discount)
  pub due : (d.next_retry_at ≡ none) ⊎ ((t : ℕ) × (d.next_retry_at ≡ some t) × (t ≤ now))

acts_on :
    (a : RecoveryAction)
    → not (is_no_action a) ≡ true
    → (a ≡ RecoveryAction.send_payment_link) ⊎ (a ≡ RecoveryAction.send_payment_link_with_discount)
acts_on a h = ground arith

due_at :
    (now : ℕ) (o : Option ℕ)
    → is_due now o ≡ true
    → (o ≡ none) ⊎ ((t : ℕ) × (o ≡ some t) × (t ≤ now))
due_at now none h = inl refl
due_at now (some t) h = inr (t, refl, leb-le t now h)

decided_status :
    (status : DecisionStatus) → is_decided status ≡ true → status ≡ DecisionStatus.decided
decided_status status h = ground arith

both : (a b c : Bool) → (a && b && c) ≡ true → (a ≡ true) × (b ≡ true) × (c ≡ true)
both a b c h = ground arith

eligible-IsCandidate :
    (now : ℕ) (d : RecoveryDecision) → is_eligible now d ≡ true → IsCandidate now d
unfolding is_eligible
eligible-IsCandidate now d h =
    let (a, b, c) =
      both (is_decided d.decision_status) (not (is_no_action d.selected_action))
        (is_due now d.next_retry_at) h in
    record {
      is_decided = decided_status d.decision_status a;
      acts = acts_on d.selected_action b;
      due = due_at now d.next_retry_at c;
    }

is_due-true :
    (now : ℕ) (o : Option ℕ)
    → (o ≡ none) ⊎ ((t : ℕ) × (o ≡ some t) × (t ≤ now))
    → is_due now o ≡ true
is_due-true now o (inl e) = rw e refl
is_due-true now o (inr (t, e, le)) = rw e (ground arith)

acts-true :
    (a : RecoveryAction)
    → (a ≡ RecoveryAction.send_payment_link) ⊎ (a ≡ RecoveryAction.send_payment_link_with_discount)
    → not (is_no_action a) ≡ true
acts-true a (inl e) = rw e refl
acts-true a (inr e) = rw e refl

IsCandidate-eligible :
    (now : ℕ) (d : RecoveryDecision) → IsCandidate now d → is_eligible now d ≡ true
unfolding is_eligible
IsCandidate-eligible now d c =
    rw (c.is_decided, acts-true d.selected_action c.acts, is_due-true now d.next_retry_at c.due)
      refl

-- The rows that are left out, in the order of the table.
others : ℕ → List RecoveryDecision → List RecoveryDecision
others now [] = []
others now (d ∷ ds) = let rest = others now ds in if is_eligible now d then rest else d ∷ rest

insert_by_age-perm :
    (d : RecoveryDecision) (ds : List RecoveryDecision) → Perm (insert_by_age d ds) (d ∷ ds)
insert_by_age-perm d [] = Perm.rfl
insert_by_age-perm d (e ∷ es) = elim (Bool-cases (leb d.created_at e.created_at)) [
  | inl older ↦ rw older Perm.rfl
  | inr younger ↦ rw younger (Perm.trans (Perm.cons e (insert_by_age-perm d es)) (Perm.swap d e es))
]

-- Nothing is lost and nothing is made up.
eligible_by_age-perm :
    (now : ℕ) (ds : List RecoveryDecision) → Perm (eligible_by_age now ds ++ others now ds) ds
unfolding eligible_by_age others
eligible_by_age-perm now [] = Perm.rfl
eligible_by_age-perm now (d ∷ ds) = elim (Bool-cases (is_eligible now d)) [
  | inl due ↦ rw due (
      Perm.trans (Perm.append_right (others now ds) (insert_by_age-perm d (eligible_by_age now ds)))
        (Perm.cons d (eligible_by_age-perm now ds)))
  | inr left ↦ rw left (
      Perm.trans (perm_middle (eligible_by_age now ds) (others now ds))
        (Perm.cons d (eligible_by_age-perm now ds)))
]

others-All :
    (now : ℕ) (ds : List RecoveryDecision) → All (λ d. IsCandidate now d → ⊥) (others now ds)
unfolding others
others-All now [] = tt
others-All now (d ∷ ds) = elim (Bool-cases (is_eligible now d)) [
  | inl due ↦ rw due (others-All now ds)
  | inr left ↦
      rw left (λ c. true≢false (rw (IsCandidate-eligible now d c) at left), others-All now ds)
]
  where
    true≢false : true ≡ false → ⊥
    true≢false p = cc

-- What the limit leaves for later.
past : ℕ → List RecoveryDecision → List RecoveryDecision
past zero ds = ds
past (suc n) [] = []
past (suc n) (d ∷ ds) = past n ds

limit-past : (n : ℕ) (ds : List RecoveryDecision) → limit n ds ++ past n ds ≡ ds
unfolding limit past
limit-past zero ds = refl
limit-past (suc n) [] = refl
limit-past (suc n) (d ∷ ds) = ap (◌∷◌ d) (limit-past n ds)

All-past :
    (P : RecoveryDecision → Type 0) (n : ℕ) (ds : List RecoveryDecision)
    → All P ds
    → All P (past n ds)
unfolding past
All-past P zero ds h = h
All-past P (suc n) [] h = tt
All-past P (suc n) (d ∷ ds) h = All-past P n ds h.1

-- What a query of at most `n` candidates answers: the rows of the table are those of the answer, the
-- candidates that are left waiting, and the rows that are no candidates.
pub record IsBatch (n : ℕ) (s : Session) (ds : List RecoveryDecision) : Type 0 where
  pub waiting : List RecoveryDecision
  pub left_out : List RecoveryDecision
  pub same_rows : Perm ((ds ++ waiting) ++ left_out) s.current.recovery_decisions
  pub candidates : All (IsCandidate s.now) ds
  pub waiting_candidates : All (IsCandidate s.now) waiting
  pub no_candidates : All (λ d. IsCandidate s.now d → ⊥) left_out
  pub by_age : IsByAge (ds ++ waiting)
  pub limited : length ds ≡ min n (length (ds ++ waiting))

-- The query for candidates writes nothing and answers with the oldest candidates, the oldest first,
-- each as often as it stands in the table: its answer, the candidates that it leaves waiting and the
-- rows that are no candidates are together the rows of the table; no candidate that waits is older
-- than one of the answer; and there are as many as the table has or as the limit allows. A candidate
-- is DECIDED, has an action, and has no time of a next attempt or one that has come.
pub get_eligible_recovery_decisions-IsBatch :
    (n : ℕ) (s : Session)
    → (ds : List RecoveryDecision) × (get_eligible_recovery_decisions n s ≡ (ok ds, s))
      × IsBatch n s ds
unfolding get_eligible_recovery_decisions ◌>>=◌
get_eligible_recovery_decisions-IsBatch n s =
    let rows = s.current.recovery_decisions in
    let sorted = eligible_by_age s.now rows in
    let whole : limit n sorted ++ past n sorted ≡ sorted = limit-past n sorted in
    let all = All-map (eligible-IsCandidate s.now) sorted (eligible_by_age-All s.now rows) in
    (
      limit n sorted,
      refl,
      record {
        waiting = past n sorted;
        left_out = others s.now rows;
        same_rows =
            subst (λ ds. Perm (ds ++ others s.now rows) rows) (sym whole)
              (eligible_by_age-perm s.now rows);
        candidates = limit-All _ n sorted all;
        waiting_candidates = All-past _ n sorted all;
        no_candidates = others-All s.now rows;
        by_age = subst IsByAge (sym whole) (eligible_by_age-IsByAge s.now rows);
        limited = limit-length n sorted ∙ ap (λ ds. min n (length ds)) (sym whole);
      },
    )
