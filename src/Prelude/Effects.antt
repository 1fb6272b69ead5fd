-- ===== src/Prelude/Effects.antt =====
-- Methods that change a state and may fail. What was written before an error stays written, so
-- the state comes back beside the error.
use mathlib.Core.Bool.{Bool, true, false}
use mathlib.Core.List.{List}
use mathlib.Core.Option.{Option, none, some}
use Prim.Native.String.{String}

-- Errors as the source builds them: a missing row, the two control sentinels, a format string with
-- its arguments (`fmt.Errorf`), and an error wrapped with `%w`.
pub data Error : Type 0 where
  not_found : String → Error
  saga_paused saga_cancelled : Error
  errorf : List String → Error
  wrap : List String → Error → Error

pub data Result {ℓ} (A : Type ℓ) : Type ℓ where
  ok : A → Result A
  err : Error → Result A

abbrev pub Exec {ℓ} : Type ℓ → Type ℓ → Type ℓ
Exec State A = State → Result A × State

-- `if !ok { return …, err }`
abbrev pub required {ℓ} : {A : Type ℓ} → Error → Option A → Result A
required e none = err e
required e (some a) = ok a

-- `errors.Is(err, ErrSagaPaused)`: wrapping keeps the identity of a sentinel.
abbrev pub is_paused : Error → Bool
is_paused saga_paused = true
is_paused (wrap t e) = is_paused e
is_paused _ = false

abbrev pub is_cancelled : Error → Bool
is_cancelled saga_cancelled = true
is_cancelled (wrap t e) = is_cancelled e
is_cancelled _ = false

abbrev wrap_result {ℓ} : {A : Type ℓ} → List String → Result A → Result A
wrap_result t (ok a) = ok a
wrap_result t (err e) = err (wrap t e)

module _ {ℓ} {S A : Type ℓ} where
  abbrev pub pure : A → Exec S A
  pure a s = (ok a, s)

  abbrev pub raise : Error → Exec S A
  raise e s = (err e, s)

  abbrev pub gets : (S → A) → Exec S A
  gets f s = (ok (f s), s)

  abbrev pub lift : Result A → Exec S A
  lift r s = (r, s)

  abbrev pub from_option : Error → Option A → Exec S A
  from_option e none = raise e
  from_option e (some a) = pure a

  -- `if err != nil { return fmt.Errorf("…: %w", err) }`
  abbrev pub wrapping : List String → Exec S A → Exec S A
  wrapping t m s = let (r, s') = m s in (wrap_result t r, s')

  -- The outcome as a value, for code that goes on after an error.
  abbrev pub outcome : Exec S A → Exec S (Result A)
  outcome m s = let (r, s') = m s in (ok r, s')

  -- `_ = f()`
  abbrev pub ignoring : Exec S A → Exec S (Unit {ℓ})
  ignoring m s = (ok tt, (m s).1)

module _ {ℓ} {S A B : Type ℓ} where
  -- The code behind a call, which an error of the call skips.
  abbrev continue : Result A → (A → Exec S B) → Exec S B
  continue (err failure) next state = (err failure, state)
  continue (ok answer) next state = next answer state

  infixl 10 ◌>>=◌ ◌>>◌
  abbrev pub ◌>>=◌ : Exec S A → (A → Exec S B) → Exec S B
  ◌>>=◌ call next state = let (answer, after) = call state in continue answer next after

  abbrev pub ◌>>◌ : Exec S A → Exec S B → Exec S B
  ◌>>◌ call next = call >>= λ answer. next
