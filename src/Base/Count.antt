-- ===== src/Base/Count.antt =====
-- How many rows of a table a test accepts, when rows are appended and written over.
use Prim.Native.Nat.{suc, ◌≤◌}
use mathlib.Core.Path.{◌≡◌, refl, ap}
use mathlib.Core.Logic.{inl, inr}
use mathlib.Core.Bool.{Bool, true, false}
use mathlib.Core.Option.{some}
use mathlib.Core.List.{List, [], ◌∷◌}
use native.Mathlib.Omega.{arith}
use payment_recovery_opportu.Base.Tests.{Bool-cases}
use payment_recovery_opportu.Base.Table.{
  length, append, count_if, find_first, replace, none≢some, some-eq,
}

module _ {A : Type 0} where
  pub count_if-implies :
      (p q : A → Bool)
      → ((x : A) → p x ≡ true → q x ≡ true)
      → (xs : List A) → count_if p xs ≤ count_if q xs
  unfolding count_if
  count_if-implies p q imp [] = omega arith
  count_if-implies p q imp (x ∷ xs) =
      let le = count_if-implies p q imp xs in
      elim (Bool-cases (p x)) [
        | inl hit ↦ rw (hit, imp x hit) (omega (arith, le))
        | inr miss ↦ elim (Bool-cases (q x)) [
          | inl more ↦ rw (miss, more) (omega (arith, le))
          | inr same ↦ rw (miss, same) le
        ]
      ]

  pub count_if-length : (p : A → Bool) (xs : List A) → count_if p xs ≤ length xs
  unfolding count_if
  count_if-length p [] = omega arith
  count_if-length p (x ∷ xs) =
      let le = count_if-length p xs in
      elim (Bool-cases (p x)) [
        | inl hit ↦ rw hit (omega (arith, le))
        | inr miss ↦ rw miss (omega (arith, le))
      ]

  pub count_if-append :
      (p : A → Bool) (xs : List A) (y : A) → count_if p xs ≤ count_if p (append xs y)
  unfolding count_if
  count_if-append p [] y = omega arith
  count_if-append p (x ∷ xs) y =
      let le = count_if-append p xs y in
      elim (Bool-cases (p x)) [ inl hit ↦ rw hit (omega (arith, le)) | inr miss ↦ rw miss le ]

  count_if-head :
      (p : A → Bool) (x y : A) (xs : List A)
      → (p x ≡ true → p y ≡ true)
      → count_if p (x ∷ xs) ≤ count_if p (y ∷ xs)
  unfolding count_if
  count_if-head p x y xs imp = elim (Bool-cases (p x)) [
    | inl hit ↦ rw (hit, imp hit) (omega arith)
    | inr miss ↦ elim (Bool-cases (p y)) [
      | inl more ↦ rw (miss, more) (omega arith)
      | inr same ↦ rw (miss, same) (omega arith)
    ]
  ]

  count_if-tail :
      (p : A → Bool) (x : A) (xs ys : List A)
      → count_if p xs ≤ count_if p ys
      → count_if p (x ∷ xs) ≤ count_if p (x ∷ ys)
  unfolding count_if
  count_if-tail p x xs ys le = elim (Bool-cases (p x)) [
    | inl hit ↦ rw hit (omega (arith, le))
    | inr miss ↦ rw miss le
  ]

  -- A row that is written over by one that counts if it did.
  pub count_if-replace :
      (p found : A → Bool) (x y : A) (xs : List A)
      → find_first found xs ≡ some x
      → (p x ≡ true → p y ≡ true)
      → count_if p xs ≤ count_if p (replace found y xs)
  unfolding find_first replace
  count_if-replace p found x y [] e imp = absurd (none≢some e)
  count_if-replace p found x y (z ∷ zs) e imp = elim (Bool-cases (found z)) [
    | inl hit ↦
        let same = some-eq (rw hit at e) in rw hit (count_if-head p z y zs λ h. imp (rw same at h))
    | inr miss ↦ rw miss (
        count_if-tail p z zs (replace found y zs)
          (count_if-replace p found x y zs (rw miss at e) imp))
  ]

  -- A row that is written over by one that counts only if it did.
  pub count_if-replace_below :
      (p found : A → Bool) (x y : A) (xs : List A)
      → find_first found xs ≡ some x
      → (p y ≡ true → p x ≡ true)
      → count_if p (replace found y xs) ≤ count_if p xs
  unfolding find_first replace
  count_if-replace_below p found x y [] e imp = absurd (none≢some e)
  count_if-replace_below p found x y (z ∷ zs) e imp = elim (Bool-cases (found z)) [
    | inl hit ↦
        let same = some-eq (rw hit at e) in rw hit (count_if-head p y z zs λ h. rw same (imp h))
    | inr miss ↦ rw miss (
        count_if-tail p z (replace found y zs) zs
          (count_if-replace_below p found x y zs (rw miss at e) imp))
  ]

  pub count_if-hit :
      (p : A → Bool) (x : A) (xs : List A) → p x ≡ true → count_if p (x ∷ xs) ≡ suc (count_if p xs)
  unfolding count_if
  count_if-hit p x xs h = rw h refl

  pub count_if-miss :
      (p : A → Bool) (x : A) (xs : List A) → p x ≡ false → count_if p (x ∷ xs) ≡ count_if p xs
  unfolding count_if
  count_if-miss p x xs h = rw h refl

  -- A row that counts is written over by one that does not.
  pub count_if-replace_out :
      (p found : A → Bool) (x y : A) (xs : List A)
      → find_first found xs ≡ some x
      → p x ≡ true
      → p y ≡ false
      → suc (count_if p (replace found y xs)) ≡ count_if p xs
  unfolding find_first replace
  count_if-replace_out p found x y [] e counts not_now = absurd (none≢some e)
  count_if-replace_out p found x y (z ∷ zs) e counts not_now = elim (Bool-cases (found z)) [
    | inl hit ↦
        let same = some-eq (rw hit at e) in
        rw hit (rw (count_if-hit p z zs (rw same counts), count_if-miss p y zs not_now) refl)
    | inr miss ↦
        let ih = count_if-replace_out p found x y zs (rw miss at e) counts not_now in
        rw miss (elim (Bool-cases (p z)) [
          | inl hit ↦
              rw (count_if-hit p z zs hit, count_if-hit p z (replace found y zs) hit) (ap suc ih)
          | inr other ↦
              rw (count_if-miss p z zs other, count_if-miss p z (replace found y zs) other) ih
        ])
  ]

  pub count_if-some :
      (p : A → Bool) (x : A) (xs : List A) → find_first p xs ≡ some x → 1 ≤ count_if p xs
  unfolding find_first
  count_if-some p x [] e = absurd (none≢some e)
  count_if-some p x (z ∷ zs) e = elim (Bool-cases (p z)) [
    | inl hit ↦ omega (arith, count_if-hit p z zs hit)
    | inr miss ↦ omega (arith, count_if-miss p z zs miss, count_if-some p x zs (rw miss at e))
  ]
