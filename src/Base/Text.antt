-- ===== src/Base/Text.antt =====
-- Text as Python reads it: truth of a text, `a or b`, and the decimal form of an int.
use Prim.Native.Nat.{ℕ, zero, suc, ◌+◌, ◌-◌, ◌*◌, ◌/◌, ◌%◌, ◌<◌}
use Prim.Native.Char.{Char, code}
use Prim.Native.String.{String, ◌++◌}
use mathlib.Core.Path.{◌≡◌, refl, sym, ap, ◌∙◌}
use mathlib.Core.Logic.{inl, inr}
use mathlib.Core.Bool.{Bool, false, not}
use mathlib.Core.Option.{Option, none, some}
use native.Mathlib.Omega.{arith}
use text.Mathlib.TextLemmas.{append_cancel_left}
use payment_recovery_opportu.Base.Tests.{if◌then◌else◌, text_eq, ltb, ltb→lt, Bool-cases}

-- `bool(t)` for an optional text: neither `None` nor empty.
abbrev pub truthy : Option String → Bool
truthy none = false
truthy (some t) = not (text_eq t "")

-- `a or b` for optional texts.
abbrev pub or_else : Option String → Option String → Option String
or_else a b = if truthy a then a else b

abbrev digit : ℕ → Char
digit zero = "0"
digit (suc zero) = "1"
digit (suc (suc zero)) = "2"
digit (suc (suc (suc zero))) = "3"
digit (suc (suc (suc (suc zero)))) = "4"
digit (suc (suc (suc (suc (suc zero))))) = "5"
digit (suc (suc (suc (suc (suc (suc zero)))))) = "6"
digit (suc (suc (suc (suc (suc (suc (suc zero))))))) = "7"
digit (suc (suc (suc (suc (suc (suc (suc (suc zero)))))))) = "8"
digit (suc (suc (suc (suc (suc (suc (suc (suc (suc n))))))))) = "9"

-- The digits of `n`, put in front of `rest`, the last digit first.
decimal_onto : ℕ → ℕ → String → String
decimal_onto zero n rest = rest
decimal_onto (suc fuel) n rest =
    let more = decimal_onto fuel (n / 10) (String.◌∷◌ (digit (n % 10)) rest) in
    if ltb n 10 then String.◌∷◌ (digit n) rest else more

-- `str(n)`. The number of digits is at most n + 1.
unfoldable pub decimal : ℕ → String
unfolding decimal_onto
decimal n = decimal_onto (suc n) n ""

abbrev value_onto : ℕ → String → ℕ
value_onto v String.[] = v
value_onto v (String.◌∷◌ c s) = value_onto (v * 10 + (code c - 48)) s

digit_value : (n : ℕ) → n < 10 → code (digit n) - 48 ≡ n
digit_value zero h = refl
digit_value (suc zero) h = refl
digit_value (suc (suc zero)) h = refl
digit_value (suc (suc (suc zero))) h = refl
digit_value (suc (suc (suc (suc zero)))) h = refl
digit_value (suc (suc (suc (suc (suc zero))))) h = refl
digit_value (suc (suc (suc (suc (suc (suc zero)))))) h = refl
digit_value (suc (suc (suc (suc (suc (suc (suc zero))))))) h = refl
digit_value (suc (suc (suc (suc (suc (suc (suc (suc zero)))))))) h = refl
digit_value (suc (suc (suc (suc (suc (suc (suc (suc (suc zero))))))))) h = refl
digit_value (suc (suc (suc (suc (suc (suc (suc (suc (suc (suc n)))))))))) h = absurd (omega arith)

value-decimal_onto :
    (fuel n : ℕ) (rest : String)
    → n < fuel
    → value_onto 0 (decimal_onto fuel n rest) ≡ value_onto n rest
unfolding decimal_onto
value-decimal_onto zero n rest h = absurd (omega arith)
value-decimal_onto (suc fuel) n rest h = elim (Bool-cases (ltb n 10)) [
  | inl small ↦
      rw small (ap (λ v. value_onto v rest) (omega (arith, digit_value n (ltb→lt n 10 small))))
  | inr large ↦ rw large (
      value-decimal_onto fuel (n / 10) (String.◌∷◌ (digit (n % 10)) rest) (smaller large)
      ∙ ap (λ v. value_onto v rest) (omega (arith, digit_value (n % 10) (omega arith))))
]
  where
    smaller : ltb n 10 ≡ false → n / 10 < fuel
    smaller e = ground arith

-- Two ids have the same decimal form only if they are one id.
pub decimal_injective : (m n : ℕ) → decimal m ≡ decimal n → m ≡ n
unfolding decimal
decimal_injective m n e =
    sym (value-decimal_onto (suc m) m "" (omega arith))
    ∙ ap (value_onto 0) e
    ∙ value-decimal_onto (suc n) n "" (omega arith)

-- The f-string `f"exec_rd_{id}"`.
unfoldable pub exec_reference : ℕ → String
exec_reference id = "exec_rd_" ++ decimal id

pub exec_reference_injective : (m n : ℕ) → exec_reference m ≡ exec_reference n → m ≡ n
unfolding exec_reference
exec_reference_injective m n e = decimal_injective m n (append_cancel_left "exec_rd_" _ _ e)

exec_reference_42 : exec_reference 42 ≡ "exec_rd_42"
unfolding exec_reference decimal
exec_reference_42 = refl
