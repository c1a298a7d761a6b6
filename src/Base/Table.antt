-- ===== src/Base/Table.antt =====
-- A table of rows in the order of their insertion, read and written at the first row that a test
-- accepts, as `query(...).filter(...).first()` and an update by primary key do.
use Prim.Native.Nat.{ℕ, suc}
use mathlib.Core.Path.{◌≡◌, refl, subst}
use mathlib.Core.Logic.{◌⊎◌, inl, inr}
use mathlib.Core.Bool.{Bool, true, false}
use mathlib.Core.Option.{Option, none, some}
use mathlib.Core.List.{List, [], ◌∷◌, ◌++◌}
use native.Mathlib.Omega.{arith}
use payment_recovery_opportu.Base.Tests.{if◌then◌else◌, Bool-cases}

pub none≢some {ℓ} : {A : Type ℓ} {x : A} → ◌≡◌ {A = Option A} none (some x) → ⊥
none≢some e = cc

pub some-eq {ℓ} : {A : Type ℓ} {x y : A} → some x ≡ some y → x ≡ y
some-eq e = cc

module _ {ℓ} {A : Type ℓ} where
  abbrev pub length : List A → ℕ
  length [] = 0
  length (x ∷ xs) = suc (length xs)

  abbrev pub append : List A → A → List A
  append xs x = xs ++ x ∷ []

  -- `query(...).filter(p).first()`
  unfoldable pub find_first : (A → Bool) → List A → Option A
  find_first p [] = none
  find_first p (x ∷ xs) = if p x then some x else find_first p xs

  -- The first row that `p` accepts is written over.
  unfoldable pub replace : (A → Bool) → A → List A → List A
  replace p y [] = []
  replace p y (x ∷ xs) = if p x then y ∷ xs else x ∷ replace p y xs

  -- `query(...).filter(p).count()`
  unfoldable pub count_if : (A → Bool) → List A → ℕ
  count_if p [] = 0
  count_if p (x ∷ xs) = let n = count_if p xs in if p x then suc n else n

  abbrev pub All {κ} : (A → Type κ) → List A → Type κ
  All P [] = Unit
  All P (x ∷ xs) = P x × All P xs

  pub All-append {κ} : (P : A → Type κ) (xs : List A) (x : A) → All P xs → P x → All P (append xs x)
  All-append P [] x h p = (p, tt)
  All-append P (y ∷ ys) x h p = (h.0, All-append P ys x h.1 p)

  pub All-find {κ} :
      (P : A → Type κ) (p : A → Bool) (xs : List A) (x : A)
      → All P xs
      → find_first p xs ≡ some x
      → P x
  unfolding find_first
  All-find P p [] x h e = absurd (none≢some e)
  All-find P p (y ∷ ys) x h e = elim (Bool-cases (p y)) [
    | inl hit ↦ subst P (some-eq (rw hit at e)) h.0
    | inr miss ↦ All-find P p ys x h.1 (rw miss at e)
  ]

  -- What is written need have the property only if a row stands there to be written over.
  pub All-replace {κ} :
      (P : A → Type κ) (p : A → Bool) (y : A) (xs : List A)
      → All P xs
      → P y
      → All P (replace p y xs)
  unfolding replace
  All-replace P p y [] h k = tt
  All-replace P p y (x ∷ xs) h k = elim (Bool-cases (p x)) [
    | inl hit ↦ rw hit (k, h.1)
    | inr miss ↦ rw miss (h.0, All-replace P p y xs h.1 k)
  ]

  pub find_first-holds :
      (p : A → Bool) (xs : List A) (x : A) → find_first p xs ≡ some x → p x ≡ true
  unfolding find_first
  find_first-holds p [] x e = absurd (none≢some e)
  find_first-holds p (y ∷ ys) x e = elim (Bool-cases (p y)) [
    | inl hit ↦ subst (λ z. p z ≡ true) (some-eq (rw hit at e)) hit
    | inr miss ↦ find_first-holds p ys x (rw miss at e)
  ]

  pub find_first-append :
      (p : A → Bool) (xs : List A) (y : A)
      → find_first p (append xs y)
        ≡ elim (find_first p xs) [ none ↦ if p y then some y else none | some x ↦ some x ]
  unfolding find_first
  find_first-append p [] y = ground arith
  find_first-append p (x ∷ xs) y = elim (Bool-cases (p x)) [
    | inl hit ↦ rw hit
    | inr miss ↦ rw miss (find_first-append p xs y)
  ]

  -- A row that is found is found again after another row is appended.
  pub find_first-append_old :
      (p : A → Bool) (xs : List A) (x y : A)
      → find_first p xs ≡ some x
      → find_first p (append xs y) ≡ some x
  find_first-append_old p xs x y e = rw (find_first-append p xs y, e)

  pub find_first-append_new :
      (p : A → Bool) (xs : List A) (y : A)
      → find_first p xs ≡ none
      → p y ≡ true
      → find_first p (append xs y) ≡ some y
  find_first-append_new p xs y e h = rw (find_first-append p xs y, e, h)

  -- The row written under a key is the one found under it.
  pub find_first-replace_self :
      (p : A → Bool) (y : A) (xs : List A) (x : A)
      → find_first p xs ≡ some x
      → p y ≡ true
      → find_first p (replace p y xs) ≡ some y
  unfolding find_first replace
  find_first-replace_self p y [] x e h = absurd (none≢some e)
  find_first-replace_self p y (z ∷ zs) x e h = elim (Bool-cases (p z)) [
    | inl hit ↦ rw (hit, h)
    | inr miss ↦ rw (miss, miss) (find_first-replace_self p y zs x (rw miss at e) h)
  ]

  -- A row found under `q` stays if the row that `p` writes over, and the one written, fail `q`.
  pub find_first-replace_other :
      (p q : A → Bool) (y : A) (xs : List A)
      → ((x : A) → p x ≡ true → q x ≡ q y)
      → q y ≡ false
      → find_first q (replace p y xs) ≡ find_first q xs
  unfolding find_first replace
  find_first-replace_other p q y [] h k = refl
  find_first-replace_other p q y (x ∷ xs) h k = elim (Bool-cases (p x)) [
    | inl hit ↦ rw (hit, k, h x hit, k)
    | inr miss ↦ rw miss (rw (find_first-replace_other p q y xs h k))
  ]

  -- A row found under `q` is found again after a write, or it is the one that was written over.
  pub find_first-replace_cases :
      (p q : A → Bool) (y : A) (xs : List A) (x z : A)
      → find_first p xs ≡ some x
      → find_first q xs ≡ some z
      → q y ≡ q x
      → (find_first q (replace p y xs) ≡ some z)
        ⊎ ((find_first q (replace p y xs) ≡ some y) × (z ≡ x))
  unfolding find_first replace
  find_first-replace_cases p q y [] x z e f s = absurd (none≢some e)
  find_first-replace_cases p q y (w ∷ ws) x z e f s =
      ground (arith, find_first-replace_cases p q y ws x z)

  pub length-replace : (p : A → Bool) (y : A) (xs : List A) → length (replace p y xs) ≡ length xs
  unfolding replace
  length-replace p y [] = refl
  length-replace p y (x ∷ xs) = ground (arith, length-replace p y xs)
