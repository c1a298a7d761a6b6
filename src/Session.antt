-- ===== src/Session.antt =====
-- A database session and the methods that run in it.
--
-- `current` is what the session sees, `committed` what it has committed; `rollback` goes back to
-- it. Session objects are rows: reading an attribute reads the row, and `db.add` writes it. The
-- clock `now` moves while a service outside the process is called, by what the call takes, and
-- stands still between two calls. `ticks` counts those calls. `metrics` are the counters of
-- app/metrics.py, as the list of their increments; no rollback touches them.
-- A method returns or raises, and what it wrote before it raised stays written.
pub mod Keeps
pub mod Leads
pub mod Yields
use payment_recovery_opportu.Base.{
  ℕ, suc, ◌+◌, String, Bool, true, false, Option, none, some, List, ◌∷◌,
}
use payment_recovery_opportu.Models.{Database, RecoveryAction, Variant}

-- The exceptions of app/executor.py, each with its message and its error type, and all others.
pub data Error : Type 0 where
  transient permanent duplicate_reference reconciliation ambiguous : String → String → Error
  -- A constraint of a table refused a row.
  integrity : Error
  other : String → Error

pub data Result (A : Type 0) : Type 0 where
  ok : A → Result A
  err : Error → Result A

pub data GuardrailRule : Type 0 where
  cooldown duplicate model_fallback : GuardrailRule

pub data Metric : Type 0 where
  webhooks_received : String → Metric
  decisions : RecoveryAction → Variant → Metric
  executions_success executions_failure : Metric
  outcomes_observed : Option Variant → Metric
  guardrail_overrides : GuardrailRule → Metric

pub record Session : Type 0 where
  pub committed : Database
  pub current : Database
  pub now : ℕ
  pub ticks : ℕ
  pub metrics : List Metric

abbrev pub M : Type 0 → Type 0
M A = Session → Result A × Session

abbrev pub Done : Type 0
Done = Unit {0}

module _ {A : Type 0} where
  pub pure : A → M A
  pure a s = (ok a, s)

  pub raise : Error → M A
  raise e s = (err e, s)

  pub gets : (Session → A) → M A
  gets f s = (ok (f s), s)

  pub or_raise : Option A → Error → M A
  unfolding pure raise
  or_raise none e = raise e
  or_raise (some a) e = pure a

  pub handle : Result A → (Error → M A) → M A
  unfolding pure
  handle (ok a) h = pure a
  handle (err e) h = h e

  -- `try: m  except: h`
  pub try_except : M A → (Error → M A) → M A
  unfolding handle
  try_except m h s = let (r, s') = m s in handle r h s'

-- `if b: m`
pub when : Bool → M Done → M Done
unfolding pure
when true m = m
when false m = pure tt

-- A write to the tables that the session sees.
pub update : (Database → Database) → M Done
update f s = (ok tt, record s { current = f s.current })

module _ {A B : Type 0} where
  pub continue : Result A → (A → M B) → M B
  unfolding raise
  continue (ok a) f = f a
  continue (err e) f = raise e

  -- `if x is None: m`, and `f x` if not.
  pub if_none : Option A → M B → (A → M B) → M B
  if_none none m f = m
  if_none (some a) m f = f a

  infixl 5 ◌>>=◌ ◌>>◌
  -- Opening this opens every way to build a method above.
  unfoldable pub ◌>>=◌ : M A → (A → M B) → M B
  unfolding pure raise gets or_raise handle try_except when update continue if_none
  ◌>>=◌ m f s = let (r, s') = m s in continue r f s'

  abbrev pub ◌>>◌ : M A → M B → M B
  m >> k = m >>= λ _. k

unfoldable pub commit : M Done
commit s = (ok tt, record s { committed = s.current })

unfoldable pub rollback : M Done
rollback s = (ok tt, record s { current = s.committed })

-- `counter.labels(...).inc()`
unfoldable pub inc : Metric → M Done
inc m s = (ok tt, record s { metrics = m ∷ s.metrics })

abbrev pub clock : M ℕ
clock = gets (λ s. s.now)

abbrev pub database : M Database
database = gets (λ s. s.current)

-- One call of a service outside the process, which answers `r` after `elapsed` microseconds.
unfoldable pub outside : {A : Type 0} → (ℕ → ℕ) → (ℕ → Result A) → M A
outside elapsed reply s =
    (reply s.ticks, record s { now = s.now + elapsed s.ticks; ticks = suc s.ticks })
