-- ===== src/Models/Integers.antt =====
-- Python's ints: the operations that the program does with signed amounts, and their laws.
use payment_recovery_opportu.Base.{
  ℕ, suc, ◌+◌, ◌-◌, ◌*◌, ◌≡◌, ltb, if◌then◌else◌, Bool, true, false, arith,
}
use payment_recovery_opportu.Models.Rows.{ℤ, pos, negsuc}

-- `m - n`
abbrev pub minus : ℕ → ℕ → ℤ
minus m n = if ltb m n then negsuc (n - m - 1) else pos (m - n)

infixl 20 ◌+ℤ◌ ◌-ℤ◌
abbrev pub ◌+ℤ◌ : ℤ → ℤ → ℤ
pos m +ℤ pos n = pos (m + n)
pos m +ℤ negsuc n = minus m (suc n)
negsuc m +ℤ pos n = minus n (suc m)
negsuc m +ℤ negsuc n = negsuc (suc (m + n))

abbrev pub ◌-ℤ◌ : ℤ → ℕ → ℤ
z -ℤ n = z +ℤ minus 0 n

-- `int(b)`
abbrev pub int_of : Bool → ℕ
int_of false = 0
int_of true = 1

infixl 30 ◌*ℤ◌
abbrev pub ◌*ℤ◌ : ℤ → ℕ → ℤ
pos m *ℤ n = pos (m * n)
negsuc m *ℤ n = minus 0 (suc m * n)

pub +ℤ_comm : (a b : ℤ) → a +ℤ b ≡ b +ℤ a
+ℤ_comm a b = ground arith

pub +ℤ_assoc : (a b c : ℤ) → a +ℤ b +ℤ c ≡ a +ℤ (b +ℤ c)
+ℤ_assoc a b c = ground arith

pub -ℤ_cancel : (z : ℤ) (n : ℕ) → z -ℤ n +ℤ pos n ≡ z
-ℤ_cancel z n = ground arith

pub minus-cancel : (m n : ℕ) → minus m n +ℤ pos n ≡ pos m
minus-cancel m n = ground arith
