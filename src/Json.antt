-- ===== src/Json.antt =====
-- The values that json.loads makes, and what the program does with them: `get`, truth, equality
-- with a text or an int, `len`, and the first element. The keys of an object are distinct.
use package.text.Mathlib.Text.{find?}
use payment_recovery_opportu.Base.{
  ℕ, zero, suc, ◌≡◌, refl, String, Bool, true, false, not, Option, none, some, text_eq, ◌==◌,
  if◌then◌else◌,
}
use payment_recovery_opportu.Models.{Float, ℤ, pos, negsuc}
use payment_recovery_opportu.Session.{Error, other, Result, ok, err}
use payment_recovery_opportu.Session.Yields.{err≢ok}
use payment_recovery_opportu.Floats.{FloatOps}

mutual
  pub data Json : Type 0 where
    null : Json
    bool : Bool → Json
    int : ℤ → Json
    float : Float → Json
    text : String → Json
    array : Items → Json
    object : Fields → Json

  pub data Items : Type 0 where
    nil : Items
    cons : Json → Items → Items

  pub data Fields : Type 0 where
    end : Fields
    field : String → Json → Fields → Fields

infixl 5 ◌>>=◌
abbrev pub ◌>>=◌ : {A B : Type 0} → Result A → (A → Result B) → Result B
ok a >>= f = f a
err e >>= f = err e

abbrev pub attribute_error : Error
attribute_error = other "AttributeError"

unfoldable pub field_of : String → Fields → Option Json
field_of key end = none
field_of key (field k v fs) = if text_eq k key then some v else field_of key fs

-- `value.get(key)`: only an object has the method.
unfoldable pub get : String → Json → Result (Option Json)
unfolding field_of
get key (object fs) = ok (field_of key fs)
get key _ = err attribute_error

-- `value.get(key, default)`
abbrev pub or_default : Option Json → Json → Json
or_default none d = d
or_default (some v) d = v

unfoldable pub get_or : String → Json → Json → Result Json
unfolding get
get_or key d j = do o ← get key j; ok (or_default o d)

-- `bool(value)`
abbrev pub is_truthy : FloatOps → Json → Bool
is_truthy fl null = false
is_truthy fl (bool b) = b
is_truthy fl (int (pos n)) = not (n == 0)
is_truthy fl (int (negsuc n)) = true
is_truthy fl (float x) = not (fl.eq_int x (pos 0))
is_truthy fl (text t) = not (text_eq t "")
is_truthy fl (array nil) = false
is_truthy fl (array (cons _ _)) = true
is_truthy fl (object end) = false
is_truthy fl (object (field _ _ _)) = true

-- `value == t` for a text, of a value that may be missing
abbrev pub is_text : String → Option Json → Bool
is_text t (some (text u)) = text_eq u t
is_text t _ = false

-- `value == n` for an int: `True == 1`, and a float may equal an int.
abbrev pub is_number : FloatOps → ℕ → Option Json → Bool
is_number fl n (some (int (pos m))) = m == n
is_number fl n (some (bool true)) = 1 == n
is_number fl n (some (bool false)) = 0 == n
is_number fl n (some (float x)) = fl.eq_int x (pos n)
is_number fl n _ = false

abbrev pub is_dict : Json → Bool
is_dict (object _) = true
is_dict _ = false

unfoldable pub length_items : Items → ℕ
length_items nil = 0
length_items (cons _ js) = suc (length_items js)

unfoldable pub length_fields : Fields → ℕ
length_fields end = 0
length_fields (field _ _ fs) = suc (length_fields fs)

unfoldable pub length_text : String → ℕ
length_text String.[] = 0
length_text (String.◌∷◌ _ s) = suc (length_text s)

-- `len(value)`
unfoldable pub len : Json → Result ℕ
unfolding length_items length_fields length_text
len (text t) = ok (length_text t)
len (array js) = ok (length_items js)
len (object fs) = ok (length_fields fs)
len _ = err (other "TypeError")

-- `value[0]`: the keys of an object are texts.
unfoldable pub first : Json → Result Json
first (array nil) = err (other "IndexError")
first (array (cons j _)) = ok j
first (text String.[]) = err (other "IndexError")
first (text (String.◌∷◌ c _)) = ok (text (String.◌∷◌ c String.[]))
first (object _) = err (other "KeyError")
first _ = err (other "TypeError")

abbrev is_there : Option ℕ → Bool
is_there none = false
is_there (some _) = true

-- `t in s` for texts
abbrev pub contains : String → String → Bool
contains s t = is_there (find? s t)

-- `t[:n]`
unfoldable pub prefix : ℕ → String → String
prefix zero t = ""
prefix (suc n) String.[] = ""
prefix (suc n) (String.◌∷◌ c t) = String.◌∷◌ c (prefix n t)

-- A chain that returns has gone through its first step.
pub bind-ok :
    {A B : Type 0} (m : Result A) (f : A → Result B) (b : B)
    → (m >>= f) ≡ ok b
    → (a : A) × (m ≡ ok a) × (f a ≡ ok b)
bind-ok (ok a) f b h = (a, refl, h)
bind-ok (err e) f b h = absurd (err≢ok h)

-- A chain that returns from a test with an error on one side took the other side.
pub if-ok :
    {A : Type 0} (t : Bool) (m : Result A) (e : Error) (a : A)
    → (if t then m else err e) ≡ ok a
    → (t ≡ true) × (m ≡ ok a)
if-ok true m e a h = (refl, h)
if-ok false m e a h = absurd (err≢ok h)
