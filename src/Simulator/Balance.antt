-- ===== src/Simulator/Balance.antt =====
-- What the metrics of a batch add up to.
use payment_recovery_opportu.Base.{
  ℕ, suc, ◌+◌, ◌*◌, ◌≤◌, ◌≡◌, ◌∙◌, refl, ap, subst, String, Bool, true, false, ◌&&◌, some, List, [],
  ◌∷◌, text_eq, text_eq_iff, if◌then◌else◌, inl, inr, Bool-cases, arith,
}
use payment_recovery_opportu.Base.Table.{length, count_if}
use payment_recovery_opportu.Models.{ℤ, pos}
use payment_recovery_opportu.Models.Integers.{minus, int_of, ◌+ℤ◌, ◌-ℤ◌, ◌*ℤ◌}
use payment_recovery_opportu.Floats.{FloatOps}
use payment_recovery_opportu.Simulator.{SimulatedRecord}
use payment_recovery_opportu.Simulator.Evaluator.{
  QuadrantMetrics, new_quadrant, Quadrants, change_quadrant, is_link, emp_inc_gross, emp_inc_net,
  Totals, no_totals, Metrics, add_to_quadrant, add_record, add_records, report, evaluate_metrics,
}

-- The entry of a quadrant in the dictionary, or the one that it would start with.
unfoldable pub quadrant_of : String → Quadrants → QuadrantMetrics
quadrant_of q [] = new_quadrant
quadrant_of q ((k, m) ∷ rest) = if text_eq k q then m else quadrant_of q rest

module _ (k q : String) (f : QuadrantMetrics → QuadrantMetrics) where
  quadrant_of-changed :
      (qs : Quadrants) → quadrant_of k (change_quadrant k f qs) ≡ f (quadrant_of k qs)
  unfolding quadrant_of change_quadrant
  quadrant_of-changed [] = rw ((text_eq_iff k k).1 refl) refl
  quadrant_of-changed ((j, m) ∷ qs) = elim (Bool-cases (text_eq j k)) [
    | inl hit ↦ rw (hit, hit) refl
    | inr miss ↦ rw (miss, miss) (quadrant_of-changed qs)
  ]

  quadrant_of-other :
      (qs : Quadrants)
      → text_eq k q ≡ false
      → quadrant_of q (change_quadrant k f qs) ≡ quadrant_of q qs
  unfolding quadrant_of change_quadrant
  quadrant_of-other [] other = rw other refl
  quadrant_of-other ((j, m) ∷ qs) other = elim (Bool-cases (text_eq j k)) [
    | inl hit ↦
        let same : j ≡ k = (text_eq_iff j k).0 hit in
        let other_j : text_eq j q ≡ false = rw same other in rw hit (rw other_j refl)
    | inr miss ↦ rw miss (ap (λ x. if text_eq j q then m else x) (quadrant_of-other qs other))
  ]

net_step : (z g : ℤ) (cost c : ℕ) → z +ℤ (g -ℤ c) +ℤ pos (cost + c) ≡ z +ℤ pos cost +ℤ g
net_step z g cost c = ground arith

gross_step :
    (z : ℤ) (base recovered amount : ℕ) (y d : Bool)
    → z +ℤ pos base ≡ pos recovered
    → z +ℤ minus (int_of y) (int_of d) *ℤ amount +ℤ pos (base + int_of d * amount)
      ≡ pos (if y then recovered + amount else recovered)
gross_step z base recovered amount true true e = ground arith
gross_step z base recovered amount true false e = ground arith
gross_step z base recovered amount false true e = ground arith
gross_step z base recovered amount false false e = ground arith

abbrev pub in_quadrant : String → SimulatedRecord → Bool
in_quadrant q r = text_eq r.ground_truth.derived_quadrant q

abbrev pub is_link_in : String → SimulatedRecord → Bool
is_link_in q r = in_quadrant q r && is_link r.assigned_action

-- What would have been recovered without any action.
unfoldable pub baseline_paise : List SimulatedRecord → ℕ
baseline_paise [] = 0
baseline_paise (r ∷ rs) =
    int_of r.ground_truth.y_do_nothing * r.context.amount_paise + baseline_paise rs

-- The totals of some records: `base` is their baseline, `n` their number, and `c` and `l` count
-- the records and the links of a quadrant.
pub record IsBalanced (base n : ℕ) (c l : String → ℕ) (t : Totals) : Type 0 where
  pub net :
      t.empirical_incremental_net_paise +ℤ pos t.intervention_cost_paise
      ≡ t.empirical_incremental_gross_paise
  pub gross : t.empirical_incremental_gross_paise +ℤ pos base ≡ pos t.gross_recovery_paise
  pub recovered : t.recovered_count ≤ n
  pub counts : (q : String) → (quadrant_of q t.quadrants).count ≡ c q
  pub links : (q : String) → (quadrant_of q t.quadrants).assigned_links ≡ l q

cast :
    (base base' n n' : ℕ) (c c' l l' : String → ℕ) (t : Totals)
    → base ≡ base'
    → n ≡ n'
    → ((q : String) → c q ≡ c' q)
    → ((q : String) → l q ≡ l' q)
    → IsBalanced base n c l t
    → IsBalanced base' n' c' l' t
cast base base' n n' c c' l l' t same_base same_n same_c same_l b = record {
  net = b.net;
  gross =
      subst (λ x. t.empirical_incremental_gross_paise +ℤ pos x ≡ pos t.gross_recovery_paise)
        same_base b.gross;
  recovered = omega (arith, b.recovered, same_n);
  counts = λ q. b.counts q ∙ same_c q;
  links = λ q. b.links q ∙ same_l q;
}

-- A figure of a quadrant grows by `k` with a record of that quadrant, and not with another one.
changed-grows :
    (figure : QuadrantMetrics → ℕ) (k : ℕ) (f : QuadrantMetrics → QuadrantMetrics)
    → ((m : QuadrantMetrics) → figure (f m) ≡ figure m + k)
    → (j q : String) (qs : Quadrants)
    → figure (quadrant_of q (change_quadrant j f qs))
      ≡ figure (quadrant_of q qs) + (if text_eq j q then k else 0)
changed-grows figure k f grows j q qs = elim (Bool-cases (text_eq j q)) [
  | inl mine ↦
      let same : j ≡ q = (text_eq_iff j q).0 mine in
      rw mine (rw same (ap figure (quadrant_of-changed q q f qs) ∙ grows (quadrant_of q qs)))
  | inr other ↦ rw other (omega (arith, ap figure (quadrant_of-other j q f qs other)))
]

one_if : (b : Bool) → (if b then 1 else 0) ≡ int_of b
one_if b = ground arith

both_if : (a b : Bool) → (if a then int_of b else 0) ≡ int_of (a && b)
both_if a b = ground arith

count_if-int_of :
    (p : SimulatedRecord → Bool) (r : SimulatedRecord) (rs : List SimulatedRecord)
    → count_if p (r ∷ rs) ≡ int_of (p r) + count_if p rs
unfolding count_if
count_if-int_of p r rs = elim (Bool-cases (p r)) [
  | inl hit ↦ rw hit (omega arith)
  | inr miss ↦ rw miss (omega arith)
]

count_if-none : (p : SimulatedRecord → Bool) → count_if p [] ≡ 0
unfolding count_if
count_if-none p = refl

module _ (fl : FloatOps) where
  add_record-IsBalanced :
      (base n : ℕ) (c l : String → ℕ) (t : Totals) (r : SimulatedRecord)
      → IsBalanced base n c l t
      → IsBalanced
          (base + int_of r.ground_truth.y_do_nothing * r.context.amount_paise)
          (n + 1)
          (λ q. c q + int_of (in_quadrant q r))
          (λ q. l q + int_of (is_link_in q r))
          (add_record fl t r)
  unfolding add_record add_to_quadrant emp_inc_net emp_inc_gross
  add_record-IsBalanced base n c l t r b = record {
    net =
        net_step t.empirical_incremental_net_paise (emp_inc_gross r) t.intervention_cost_paise
          r.intervention_cost_paise
        ∙ ap (λ z. z +ℤ emp_inc_gross r) b.net;
    gross =
        gross_step t.empirical_incremental_gross_paise base t.gross_recovery_paise
          r.context.amount_paise r.observed_outcome r.ground_truth.y_do_nothing b.gross;
    recovered = recovered_step r.observed_outcome;
    counts = λ q. omega (
      arith,
      changed-grows (λ m. m.count) 1 (add_to_quadrant fl r) (λ m. refl)
          r.ground_truth.derived_quadrant q t.quadrants,
      one_if (in_quadrant q r),
      b.counts q,
    );
    links = λ q. omega (
      arith,
      changed-grows (λ m. m.assigned_links) (int_of (is_link r.assigned_action))
          (add_to_quadrant fl r) (λ m. refl) r.ground_truth.derived_quadrant q t.quadrants,
      both_if (in_quadrant q r) (is_link r.assigned_action),
      b.links q,
    );
  }
    where
      recovered_step : (y : Bool) → (if y then suc t.recovered_count else t.recovered_count) ≤ n + 1
      recovered_step true = omega (arith, b.recovered)
      recovered_step false = omega (arith, b.recovered)

  add_records-IsBalanced :
      (rs : List SimulatedRecord) (base n : ℕ) (c l : String → ℕ) (t : Totals)
      → IsBalanced base n c l t
      → IsBalanced
          (base + baseline_paise rs)
          (n + length rs)
          (λ q. c q + count_if (in_quadrant q) rs)
          (λ q. l q + count_if (is_link_in q) rs)
          (add_records fl t rs)
  unfolding add_records baseline_paise
  add_records-IsBalanced [] base n c l t b =
      cast base _ n _ c _ l _ t (omega arith) (omega arith)
        (λ q. none_counted (in_quadrant q) (c q)) (λ q. none_counted (is_link_in q) (l q)) b
    where
      none_counted : (p : SimulatedRecord → Bool) (k : ℕ) → k ≡ k + count_if p []
      none_counted p k = omega (arith, count_if-none p)
  add_records-IsBalanced (r ∷ rs) base n c l t b =
      cast _ _ _ _ _ _ _ _ _ (omega arith) (omega arith)
        (λ q. omega (arith, count_if-int_of (in_quadrant q) r rs))
        (λ q. omega (arith, count_if-int_of (is_link_in q) r rs))
        (add_records-IsBalanced rs
          (base + int_of r.ground_truth.y_do_nothing * r.context.amount_paise) (n + 1)
          (λ q. c q + int_of (in_quadrant q r)) (λ q. l q + int_of (is_link_in q r))
          (add_record fl t r) (add_record-IsBalanced base n c l t r b))

  pub all_records-IsBalanced :
      (rs : List SimulatedRecord)
      → IsBalanced
          (baseline_paise rs)
          (length rs)
          (λ q. count_if (in_quadrant q) rs)
          (λ q. count_if (is_link_in q) rs)
          (add_records fl no_totals rs)
  unfolding quadrant_of
  all_records-IsBalanced rs =
      cast _ _ _ _ _ _ _ _ _ (omega arith) (omega arith) (λ q. omega arith) (λ q. omega arith)
        (add_records-IsBalanced rs 0 0 (λ q. 0) (λ q. 0) no_totals
          (record {
            net = refl;
            gross = refl;
            recovered = omega arith;
            counts = λ q. refl;
            links = λ q. refl;
          }))

-- The metrics of a batch are the report of totals that balance.
pub record IsReport (fl : FloatOps) (rs : List SimulatedRecord) (m : Metrics) : Type 0 where
  pub totals : Totals
  pub reported : m ≡ report fl (length rs) totals
  pub balanced :
      IsBalanced
        (baseline_paise rs)
        (length rs)
        (λ q. count_if (in_quadrant q) rs)
        (λ q. count_if (is_link_in q) rs)
        totals

-- The metrics of a batch, if it is not empty, report totals that balance to the paise: the
-- incremental net and the intervention cost make the incremental gross, and that and what would
-- have been recovered without any action make the gross recovery. No more transactions count as
-- recovered than there are, and the entry of each quadrant counts its records and its links.
pub evaluate_metrics-IsReport :
    (fl : FloatOps) (r : SimulatedRecord) (rs : List SimulatedRecord)
    → (m : Metrics) × (evaluate_metrics fl (r ∷ rs) ≡ some m) × IsReport fl (r ∷ rs) m
unfolding evaluate_metrics
evaluate_metrics-IsReport fl r rs = (
  report fl (length (r ∷ rs)) (add_records fl no_totals (r ∷ rs)),
  refl,
  record {
    totals = add_records fl no_totals (r ∷ rs);
    reported = refl;
    balanced = all_records-IsBalanced fl (r ∷ rs);
  },
)
