-- ===== src/Base/Unique.antt =====
-- Rows with distinct keys: what a UNIQUE constraint promises.
use Prim.Native.String.{String}
use mathlib.Core.Path.{◌≡◌, refl, ap}
use mathlib.Core.Logic.{inl, inr}
use mathlib.Core.Bool.{Bool, false}
use mathlib.Core.Option.{none, some}
use mathlib.Core.List.{List, [], ◌∷◌}
use native.Mathlib.Omega.{arith}
use payment_recovery_opportu.Base.Tests.{text_eq, text_eq_iff, Bool-cases}
use payment_recovery_opportu.Base.Table.{append, find_first, replace, some-eq, find_first-append}

pub text_eq_sym : (s t : String) → text_eq s t ≡ text_eq t s
text_eq_sym s t = ground (arith, text_eq_iff s t, text_eq_iff t s)

module _ {A : Type 0} (key : A → String) where
  abbrev pub has_key : String → A → Bool
  has_key k x = text_eq (key x) k

  abbrev pub IsUnique : List A → Type 0
  IsUnique [] = Unit
  IsUnique (x ∷ xs) = (find_first (has_key (key x)) xs ≡ none) × IsUnique xs

  none-head : (p : A → Bool) (x : A) (xs : List A) → find_first p (x ∷ xs) ≡ none → p x ≡ false
  unfolding find_first
  none-head p x xs e = ground arith

  none-tail :
      (p : A → Bool) (x : A) (xs : List A) → find_first p (x ∷ xs) ≡ none → find_first p xs ≡ none
  unfolding find_first
  none-tail p x xs e = ground arith

  pub IsUnique-append :
      (xs : List A) (y : A)
      → IsUnique xs
      → find_first (has_key (key y)) xs ≡ none
      → IsUnique (append xs y)
  IsUnique-append [] y u free = (unfold find_first in refl, tt)
  IsUnique-append (x ∷ xs) y u free = (
    rw (find_first-append (has_key (key x)) xs y, u.0)
        (rw (text_eq_sym (key y) (key x), none-head (has_key (key y)) x xs free)),
    IsUnique-append xs y u.1 (none-tail (has_key (key y)) x xs free),
  )

  none-replace :
      (p q : A → Bool) (y : A) (xs : List A) (x : A)
      → find_first p xs ≡ some x
      → q y ≡ q x
      → find_first q xs ≡ none
      → find_first q (replace p y xs) ≡ none
  unfolding find_first replace
  none-replace p q y [] x e s free = refl
  none-replace p q y (w ∷ ws) x e s free = ground (arith, none-replace p q y ws x)

  pub IsUnique-replace :
      (p : A → Bool) (y : A) (xs : List A) (x : A)
      → IsUnique xs
      → find_first p xs ≡ some x
      → key y ≡ key x
      → IsUnique (replace p y xs)
  unfolding find_first replace
  IsUnique-replace p y [] x u e s = tt
  IsUnique-replace p y (w ∷ ws) x u e s = elim (Bool-cases (p w)) [
    | inl hit ↦ let same : key y ≡ key w = rw (some-eq (rw hit at e)) s in rw hit (rw same u.0, u.1)
    | inr miss ↦
        let rest = rw miss at e in
        rw miss (
          none-replace p (has_key (key w)) y ws x rest (ap (λ k. text_eq k (key w)) s) u.0,
          IsUnique-replace p y ws x u.1 rest s,
        )
  ]
