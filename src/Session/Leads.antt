-- ===== src/Session/Leads.antt =====
-- What a method leads to from a condition on the session, whether it returns or raises: one rule
-- for each way to build a method, with a condition of the whole session, its clock included.
use payment_recovery_opportu.Base.{Bool, true, false, Option, none, some, if◌then◌else◌}
use payment_recovery_opportu.Session.{
  Error, Result, ok, err, Session, M, pure, raise, gets, or_raise, continue, if_none, ◌>>=◌, handle,
  try_except,
}

pub record Leads {A : Type 0} (Q R : Session → Type 0) (m : M A) : Type 0 where
  pub at : (s : Session) → Q s → R (m s).1

module _ {Q : Session → Type 0} {A : Type 0} where
  pub Leads-pure : (a : A) → Leads Q Q (pure a)
  unfolding pure
  Leads-pure a = record { at = λ s h. h }

  pub Leads-raise : (e : Error) → Leads Q Q (raise {A = A} e)
  unfolding raise
  Leads-raise e = record { at = λ s h. h }

  pub Leads-gets : (f : Session → A) → Leads Q Q (gets f)
  unfolding gets
  Leads-gets f = record { at = λ s h. h }

  pub Leads-or_raise : (o : Option A) (e : Error) → Leads Q Q (or_raise o e)
  unfolding or_raise
  Leads-or_raise none e = record { at = λ s h. h }
  Leads-or_raise (some a) e = record { at = λ s h. h }

  pub Leads-if : (b : Bool) (m n : M A) → Leads Q Q m → Leads Q Q n → Leads Q Q (if b then m else n)
  Leads-if true m n km kn = km
  Leads-if false m n km kn = kn

module _ {R : Session → Type 0} {A : Type 0} where
  Leads-handle :
      (r : Result A) (h : Error → M A) → ((e : Error) → Leads R R (h e)) → Leads R R (handle r h)
  unfolding handle
  Leads-handle (ok a) h kh = Leads-pure a
  Leads-handle (err e) h kh = kh e

module _ {Q R : Session → Type 0} {A : Type 0} where
  pub Leads-try :
      (m : M A) (h : Error → M A)
      → Leads Q R m
      → ((e : Error) → Leads R R (h e))
      → Leads Q R (try_except m h)
  unfolding try_except
  Leads-try m h km kh = record { at = λ s k. (Leads-handle (m s).0 h kh).at (m s).1 (km.at s k) }

module _ {R : Session → Type 0} {A B : Type 0} where
  Leads-continue :
      (r : Result A) (f : A → M B) → ((a : A) → Leads R R (f a)) → Leads R R (continue r f)
  unfolding continue
  Leads-continue (ok a) f kf = kf a
  Leads-continue (err e) f kf = Leads-raise e

module _ {Q R : Session → Type 0} {A B : Type 0} where
  -- The condition has changed after the first part.
  pub Leads-bind :
      (m : M A) (f : A → M B) → Leads Q R m → ((a : A) → Leads R R (f a)) → Leads Q R (m >>= f)
  unfolding ◌>>=◌
  Leads-bind m f km kf = record { at = λ s h. (Leads-continue (m s).0 f kf).at (m s).1 (km.at s h) }

  Leads-continue_weak :
      (r : Result A) (f : A → M B)
      → ((s : Session) → Q s → R s)
      → ((a : A) → Leads Q R (f a))
      → Leads Q R (continue r f)
  unfolding continue raise
  Leads-continue_weak (ok a) f weaker kf = kf a
  Leads-continue_weak (err e) f weaker kf = record { at = weaker }

module _ {Q R T : Session → Type 0} {A B : Type 0} where
  -- The condition changes in both parts, and the second one is not run if the first one raises.
  pub Leads-then :
      (m : M A) (f : A → M B)
      → ((s : Session) → R s → T s)
      → Leads Q R m
      → ((a : A) → Leads R T (f a))
      → Leads Q T (m >>= f)
  unfolding ◌>>=◌
  Leads-then m f weaker km kf = record {
    at = λ s h. (Leads-continue_weak (m s).0 f weaker kf).at (m s).1 (km.at s h);
  }

module _ {Q : Session → Type 0} {A B : Type 0} where
  pub Leads-if_none :
      (o : Option A) (m : M B) (f : A → M B)
      → Leads Q Q m
      → ((a : A) → Leads Q Q (f a))
      → Leads Q Q (if_none o m f)
  unfolding if_none
  Leads-if_none none m f km kf = km
  Leads-if_none (some a) m f km kf = kf a

  pub Leads-keep :
      (m : M A) (f : A → M B) → Leads Q Q m → ((a : A) → Leads Q Q (f a)) → Leads Q Q (m >>= f)
  Leads-keep m f km kf = Leads-bind m f km kf

pub ruleset leads_rules = (
  Leads-pure, Leads-raise, Leads-gets, Leads-or_raise, Leads-if_none, Leads-if, Leads-try,
  Leads-keep,
)
