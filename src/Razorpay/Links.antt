-- ===== src/Razorpay/Links.antt =====
-- What a link must be to be taken for the link of a decision, and what comes of a lookup that finds
-- none.
use Prim.Native.String.{◌++◌}
use payment_recovery_opportu.Base.{
  ℕ, zero, suc, ◌+◌, ◌≤◌, ◌<◌, ◌≡◌, refl, sym, ap, ◌∙◌, subst, String, true, false, Option, none,
  some, ltb, inl, inr, Bool-cases, arith,
}
use payment_recovery_opportu.Models.{RecoveryDecision, PaymentRecord}
use payment_recovery_opportu.Session.{Error, ok, err, ambiguous}
use payment_recovery_opportu.Session.Yields.{ok-eq, err≢ok}
use payment_recovery_opportu.Json.{
  Json, null, get, first, len, is_truthy, is_text, is_number, or_default, bind-ok, if-ok,
}
use payment_recovery_opportu.Razorpay.Http.{HttpClient, Reply, reference_of, link_id}
use payment_recovery_opportu.Razorpay.Reconcile.{
  fetched, poll, verify_terms, verify_link, single_link, reconcile_duplicate_reference,
}

-- No link after the attempts of a lookup.
abbrev pub missing_link : String → Error
missing_link ref =
    ambiguous ("No payment link found for reference_id=" ++ ref ++ " after 3 attempts")
      "MISSING_LINK"

-- A link of the decision: its reference, the amount and the currency of the payment, and an id.
pub record IsLinkOf (c : HttpClient) (d : RecoveryDecision) (r : PaymentRecord) (link : Json)
    (id : String) : Type 0 where
  pub reference :
      (v : Option Json) × (get "reference_id" link ≡ ok v) × (is_text (reference_of d.id) v ≡ true)
  pub amount :
      (v : Option Json) × (get "amount" link ≡ ok v) × (is_number c.floats r.amount v ≡ true)
  pub currency : (v : Option Json) × (get "currency" link ≡ ok v) × (is_text r.currency v ≡ true)
  pub named :
      (v : Option Json) × (get "id" link ≡ ok v)
      × (is_truthy c.floats (or_default v null) ≡ true)
      × (id ≡ c.str (or_default v null))

module _ (c : HttpClient) where
  -- The answers up to the one that holds something: where the lookup stopped.
  poll-found :
      (answer : ℕ → Reply) (ref : String) (left attempt : ℕ) (items : Json)
      → poll c answer ref left attempt ≡ ok items
      → (i : ℕ) × (i < attempt + left)
        × (fetched c (answer i) ≡ ok items)
        × (is_truthy c.floats items ≡ true)
  unfolding poll
  poll-found answer ref zero attempt items h = absurd (err≢ok h)
  poll-found answer ref (suc left) attempt items h =
      let (found, got, rest) = bind-ok (fetched c (answer attempt)) _ items h in
      elim (Bool-cases (is_truthy c.floats found)) [
        | inl holds ↦
            let same : found ≡ items = ok-eq (rw holds at rest) in
            (
              attempt,
              omega arith,
              got ∙ ap ok same,
              subst (λ x. is_truthy c.floats x ≡ true) same holds,
            )
        | inr empty ↦
            let (i, below, at, truth) =
              poll-found answer ref left (suc attempt) items (rw empty at rest) in
            (i, omega arith, at, truth)
      ]

  verify_terms-IsLinkOf :
      (d : RecoveryDecision) (r : Option PaymentRecord) (link : Json) (id : String)
      → ((v : Option Json) × (get "reference_id" link ≡ ok v)
          × (is_text (reference_of d.id) v ≡ true))
      → verify_terms c r link ≡ ok id
      → (p : PaymentRecord) × (r ≡ some p) × IsLinkOf c d p link id
  unfolding verify_terms link_id
  verify_terms-IsLinkOf d none link id ref h = absurd (err≢ok h)
  verify_terms-IsLinkOf d (some p) link id ref h =
      let (amount, got_amount, rest) = bind-ok (get "amount" link) _ id h in
      let (same_amount, rest) = if-ok (is_number c.floats p.amount amount) _ _ id rest in
      let (currency, got_currency, rest) = bind-ok (get "currency" link) _ id rest in
      let (same_currency, rest) = if-ok (is_text p.currency currency) _ _ id rest in
      let (v, got_id, rest) = bind-ok (get "id" link) _ id rest in
      let (truth, same) = if-ok (is_truthy c.floats (or_default v null)) _ _ id rest in
      (
        p,
        refl,
        record {
          reference = ref;
          amount = (amount, got_amount, same_amount);
          currency = (currency, got_currency, same_currency);
          named = (v, got_id, truth, sym (ok-eq same));
        },
      )

  single_link-IsLinkOf :
      (d : RecoveryDecision) (r : Option PaymentRecord) (items : Json) (id : String)
      → single_link c d r items ≡ ok id
      → (p : PaymentRecord) × (link : Json) × (r ≡ some p)
        × (first items ≡ ok link)
        × ((n : ℕ) × (len items ≡ ok n) × (n ≤ 1))
        × IsLinkOf c d p link id
  unfolding single_link verify_link
  single_link-IsLinkOf d r items id h =
      let (n, counted, rest) = bind-ok (len items) _ id h in
      elim (Bool-cases (ltb 1 n)) [
        | inl several ↦ absurd (err≢ok (rw several at rest))
        | inr single ↦
            let (link, at, rest) = bind-ok (first items) _ id (rw single at rest) in
            let (ref, got, rest) = bind-ok (get "reference_id" link) _ id rest in
            let (same, rest) = if-ok (is_text (reference_of d.id) ref) _ _ id rest in
            let (p, there, good) = verify_terms-IsLinkOf d r link id (ref, got, same) rest in
            (p, link, there, at, (n, counted, ground arith), good)
      ]

  -- What a lookup has seen when it returns the id of a link for a decision.
  pub record IsFound (k : ℕ) (d : RecoveryDecision) (r : PaymentRecord) (id : String) : Type 0 where
    pub attempt : ℕ
    pub within : attempt < 3
    pub items : Json
    pub fetched_items : fetched c (c.fetch k attempt (reference_of d.id)) ≡ ok items
    pub single : (n : ℕ) × (len items ≡ ok n) × (n ≤ 1)
    pub link : Json
    pub is_first : first items ≡ ok link
    pub of_decision : IsLinkOf c d r link id

  -- A lookup returns a link only if one of its at most three answers holds just that one link, and
  -- the link carries the reference of the decision, the amount and the currency of its payment, and
  -- a truthy id, the one returned.
  pub reconcile_duplicate_reference-IsFound :
      (k : ℕ) (d : RecoveryDecision) (r : Option PaymentRecord) (ref id : String)
      → reconcile_duplicate_reference c k d r ref ≡ ok id
      → (p : PaymentRecord) × (r ≡ some p) × IsFound k d p id
  unfolding reconcile_duplicate_reference
  reconcile_duplicate_reference-IsFound k d r ref id h =
      let answer : ℕ → Reply = λ i. c.fetch k i (reference_of d.id) in
      let (items, polled, rest) = bind-ok (poll c answer (reference_of d.id) 3 0) _ id h in
      let (i, below, at, _) = poll-found answer (reference_of d.id) 3 0 items polled in
      let (p, link, there, is_first, single, good) = single_link-IsLinkOf d r items id rest in
      (
        p,
        there,
        record {
          attempt = i;
          within = omega arith;
          items = items;
          fetched_items = at;
          single = single;
          link = link;
          is_first = is_first;
          of_decision = good;
        },
      )

  -- An answer with no link: it is there, and what it holds is empty.
  abbrev pub IsEmpty : Reply → Type 0
  IsEmpty a = (items : Json) × (fetched c a ≡ ok items) × (is_truthy c.floats items ≡ false)

  poll-empty :
      (answer : ℕ → Reply) (ref : String) (left attempt : ℕ)
      → ((i : ℕ) → i < attempt + left → IsEmpty (answer i))
      → poll c answer ref left attempt ≡ err (missing_link ref)
  unfolding poll
  poll-empty answer ref zero attempt empty = refl
  poll-empty answer ref (suc left) attempt empty =
      let (items, got, none_there) = empty attempt (omega arith) in
      rw (got, none_there)
        (poll-empty answer ref left (suc attempt) (λ i below. empty i (omega arith)))

  -- Three answers with no link are taken for an ambiguous state, whatever the payment is.
  pub reconcile_duplicate_reference-missing :
      (k : ℕ) (d : RecoveryDecision) (r : Option PaymentRecord) (ref : String)
      → ((i : ℕ) → i < 3 → IsEmpty (c.fetch k i (reference_of d.id)))
      → reconcile_duplicate_reference c k d r ref ≡ err (missing_link (reference_of d.id))
  unfolding reconcile_duplicate_reference
  reconcile_duplicate_reference-missing k d r ref empty =
      rw (poll-empty (λ i. c.fetch k i (reference_of d.id)) (reference_of d.id) 3 0 empty) refl
