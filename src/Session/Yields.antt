-- ===== src/Session/Yields.antt =====
-- What the value of a method has, where it returns one, and the rule of sequence that uses it.
use payment_recovery_opportu.Base.{◌≡◌, ◌⊎◌, inl, inr, refl, subst, Option, none, some}
use payment_recovery_opportu.Models.{Database}
use payment_recovery_opportu.Session.{
  Error, Result, ok, err, Session, M, pure, raise, or_raise, continue, ◌>>=◌,
}
use payment_recovery_opportu.Session.Keeps.{Keeps, Keeps-raise}

pub record Yields {A : Type 0} (Q : A → Type 0) (m : M A) : Type 0 where
  pub value : (s : Session) (a : A) → (m s).0 ≡ ok a → Q a

pub ok-eq : {A : Type 0} {a b : A} → ok a ≡ ok b → a ≡ b
ok-eq e = cc

pub Result-cases :
    {A : Type 0} (r : Result A) → ((e : Error) × (r ≡ err e)) ⊎ ((a : A) × (r ≡ ok a))
Result-cases (ok a) = inr (a, refl)
Result-cases (err e) = inl (e, refl)

pub err≢ok : {A : Type 0} {e : Error} {a : A} → ◌≡◌ {A = Result A} (err e) (ok a) → ⊥
err≢ok p = cc

module _ {A : Type 0} (Q : A → Type 0) where
  pub Yields-pure : (a : A) → Q a → Yields Q (pure a)
  unfolding pure
  Yields-pure a q = record { value = λ s b e. subst Q (ok-eq e) q }

  pub Yields-raise : (e : Error) → Yields Q (raise e)
  unfolding raise
  Yields-raise e = record { value = λ s b p. absurd (err≢ok p) }

  pub Yields-or_raise :
      (o : Option A) (e : Error) → ((a : A) → o ≡ some a → Q a) → Yields Q (or_raise o e)
  unfolding or_raise
  Yields-or_raise none e q = Yields-raise e
  Yields-or_raise (some a) e q = Yields-pure a (q a refl)

module _ {A B : Type 0} where
  Yields-continue :
      (R : B → Type 0) (r : Result A) (f : A → M B)
      → ((a : A) → r ≡ ok a → Yields R (f a))
      → Yields R (continue r f)
  unfolding continue
  Yields-continue R (ok a) f k = k a refl
  Yields-continue R (err e) f k = Yields-raise R e

  -- The rest of a block may use what the first part yields.
  pub Yields-bind :
      (Q : A → Type 0) (R : B → Type 0) (m : M A) (f : A → M B)
      → Yields Q m
      → ((a : A) → Q a → Yields R (f a))
      → Yields R (m >>= f)
  unfolding ◌>>=◌
  Yields-bind Q R m f y k = record {
    value = λ s. (Yields-continue R (m s).0 f (λ a e. k a (y.value s a e))).value (m s).1;
  }

  -- Where nothing is asked of the first part.
  pub Yields-then :
      (R : B → Type 0) (m : M A) (f : A → M B) → ((a : A) → Yields R (f a)) → Yields R (m >>= f)
  Yields-then R m f k =
      Yields-bind (λ _. Unit {0}) R m f (record { value = λ _ _ _. tt }) (λ a _. k a)

module _ {P : Database → Type 0} {A B : Type 0} where
  Keeps-continue_yields :
      (r : Result A) (f : A → M B) → ((a : A) → r ≡ ok a → Keeps P (f a)) → Keeps P (continue r f)
  unfolding continue
  Keeps-continue_yields (ok a) f k = k a refl
  Keeps-continue_yields (err e) f k = Keeps-raise e

  pub Keeps-bind-Yields :
      (Q : A → Type 0) (m : M A) (f : A → M B)
      → Keeps P m
      → Yields Q m
      → ((a : A) → Q a → Keeps P (f a))
      → Keeps P (m >>= f)
  unfolding ◌>>=◌
  Keeps-bind-Yields Q m f km y k = record {
    at = λ s h.
        (Keeps-continue_yields (m s).0 f (λ a e. k a (y.value s a e))).at (m s).1 (km.at s h);
  }
