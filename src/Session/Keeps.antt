-- ===== src/Session/Keeps.antt =====
-- What a method keeps, whether it returns or raises: a property of the committed tables and of
-- those that the session sees. One rule for each way to build a method.
use payment_recovery_opportu.Base.{Bool, true, false, ℕ, Option, none, some, if◌then◌else◌}
use payment_recovery_opportu.Models.{Database}
use payment_recovery_opportu.Session.{
  Error, Result, ok, err, Session, Metric, M, Done, pure, raise, gets, or_raise, continue, if_none,
  ◌>>=◌, handle, try_except, when, update, commit, rollback, inc, outside,
}

pub record Holds (P : Database → Type 0) (s : Session) : Type 0 where
  pub in_committed : P s.committed
  pub in_current : P s.current

pub record Keeps {A : Type 0} (P : Database → Type 0) (m : M A) : Type 0 where
  pub at : (s : Session) → Holds P s → Holds P (m s).1

module _ {P : Database → Type 0} where
  pub Keeps-commit : Keeps P commit
  unfolding commit
  Keeps-commit = record {
    at = λ s h. record { in_committed = h.in_current; in_current = h.in_current };
  }

  pub Keeps-rollback : Keeps P rollback
  unfolding rollback
  Keeps-rollback = record {
    at = λ s h. record { in_committed = h.in_committed; in_current = h.in_committed };
  }

  pub Keeps-inc : (m : Metric) → Keeps P (inc m)
  unfolding inc
  Keeps-inc m = record {
    at = λ s h. record { in_committed = h.in_committed; in_current = h.in_current };
  }

  pub Keeps-update :
      (f : Database → Database) → ((db : Database) → P db → P (f db)) → Keeps P (update f)
  unfolding update
  Keeps-update f k = record {
    at = λ s h. record { in_committed = h.in_committed; in_current = k s.current h.in_current };
  }

module _ {P : Database → Type 0} {A : Type 0} where
  pub Keeps-pure : (a : A) → Keeps P (pure a)
  unfolding pure
  Keeps-pure a = record { at = λ s h. h }

  pub Keeps-raise : (e : Error) → Keeps P (raise {A = A} e)
  unfolding raise
  Keeps-raise e = record { at = λ s h. h }

  pub Keeps-gets : (f : Session → A) → Keeps P (gets f)
  unfolding gets
  Keeps-gets f = record { at = λ s h. h }

  pub Keeps-or_raise : (o : Option A) (e : Error) → Keeps P (or_raise o e)
  unfolding or_raise
  Keeps-or_raise none e = record { at = λ s h. h }
  Keeps-or_raise (some a) e = record { at = λ s h. h }

  pub Keeps-outside : (elapsed : ℕ → ℕ) (reply : ℕ → Result A) → Keeps P (outside elapsed reply)
  unfolding outside
  Keeps-outside elapsed reply = record {
    at = λ s h. record { in_committed = h.in_committed; in_current = h.in_current };
  }

  pub Keeps-if : (b : Bool) (m n : M A) → Keeps P m → Keeps P n → Keeps P (if b then m else n)
  Keeps-if true m n km kn = km
  Keeps-if false m n km kn = kn

  Keeps-handle :
      (r : Result A) (h : Error → M A) → ((e : Error) → Keeps P (h e)) → Keeps P (handle r h)
  unfolding handle
  Keeps-handle (ok a) h kh = Keeps-pure a
  Keeps-handle (err e) h kh = kh e

  pub Keeps-try :
      (m : M A) (h : Error → M A)
      → Keeps P m
      → ((e : Error) → Keeps P (h e))
      → Keeps P (try_except m h)
  unfolding try_except
  Keeps-try m h km kh = record { at = λ s k. (Keeps-handle (m s).0 h kh).at (m s).1 (km.at s k) }

module _ {P : Database → Type 0} where
  pub Keeps-when : (b : Bool) (m : M Done) → Keeps P m → Keeps P (when b m)
  unfolding when
  Keeps-when true m km = km
  Keeps-when false m km = Keeps-pure tt

module _ {P : Database → Type 0} {A B : Type 0} where
  Keeps-continue : (r : Result A) (f : A → M B) → ((a : A) → Keeps P (f a)) → Keeps P (continue r f)
  unfolding continue
  Keeps-continue (ok a) f kf = kf a
  Keeps-continue (err e) f kf = Keeps-raise e

  pub Keeps-if_none :
      (o : Option A) (m : M B) (f : A → M B)
      → Keeps P m
      → ((a : A) → Keeps P (f a))
      → Keeps P (if_none o m f)
  unfolding if_none
  Keeps-if_none none m f km kf = km
  Keeps-if_none (some a) m f km kf = kf a

  -- The first part need keep `P` only where it is run.
  pub Keeps-bind-at :
      (m : M A) (f : A → M B) (s : Session)
      → Holds P (m s).1
      → ((a : A) → Keeps P (f a))
      → Holds P ((m >>= f) s).1
  unfolding ◌>>=◌
  Keeps-bind-at m f s h kf = (Keeps-continue (m s).0 f kf).at (m s).1 h

  pub Keeps-bind :
      (m : M A) (f : A → M B) → Keeps P m → ((a : A) → Keeps P (f a)) → Keeps P (m >>= f)
  Keeps-bind m f km kf = record { at = λ s h. Keeps-bind-at m f s (km.at s h) kf }

pub ruleset keeps_rules = (
  Keeps-pure, Keeps-raise, Keeps-gets, Keeps-or_raise, Keeps-outside, Keeps-commit, Keeps-rollback,
  Keeps-inc, Keeps-if_none, Keeps-when, Keeps-if, Keeps-try, Keeps-bind,
)
