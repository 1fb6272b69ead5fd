-- ===== src/Engine/Retry.antt =====
-- Retries: engine/retry.go. How long a wait is, which Backoff computes in float64, is left to the clock.
pub mod Bounds
use go_saga_orchestration.Prelude.{
  ℕ, zero, suc, ◌+◌, ◌*◌, Bool, true, ◌||◌, Option, none, some, ltb, Exec, Result, ok, err, Error,
  pure, raise, is_paused, is_cancelled, ◌>>=◌, ◌>>◌, ◌==◌, nat_eq, if◌then◌else◌,
}
use go_saga_orchestration.Domain.{Fields, end, SagaRun, Step, RetryPolicy, step_failed}
use go_saga_orchestration.Runtime.{Env, World, tick, emit, Handler, action_handler, handler_func}
use go_saga_orchestration.Verbs.Action.{action_verb}

abbrev pub default_retry_policy : RetryPolicy
default_retry_policy = record {
  max_attempts = 3;
  initial_backoff_ms = 1000;
  max_backoff_ms = 60000;
  multiplier = 2;
  jitter = true;
}

unfoldable pub is_control_signal : Error → Bool
is_control_signal e = is_paused e || is_cancelled e

unfoldable pub execute : Env → Handler → SagaRun → Step → Exec World Fields
unfolding action_verb
execute env (action_handler v) = action_verb env v
execute env (handler_func f) = f

abbrev pub after_wait : Option Error → Exec World Fields → Exec World Fields
after_wait none again = again
after_wait (some e) again = raise e

-- Records the failed attempt and waits: the timer fires, or the context ends first.
unfoldable pub wait_then : Env → SagaRun → Step → ℕ → Exec World Fields → Exec World Fields
unfolding tick emit
wait_then env run step attempt again = do
  emit env run.id step.id (suc attempt) step_failed "engine-retry"
  n ← tick
  after_wait (env.context_error_at n) again

-- What follows an attempt: `left` attempts remain behind it.
abbrev pub settle_attempt :
    Env → SagaRun → Step → ℕ → ℕ → Exec World Fields → Result Fields → Exec World Fields
settle_attempt env run step attempt left again (ok result) = pure result
settle_attempt env run step attempt left again (err e) =
    if is_control_signal e
    then raise e
    else if left == 0
    then raise e
    else wait_then env run step attempt again

-- The loop from `attempt` on, with the number of attempts that remain. It is entered with at least
-- one; Go's code behind the loop is not reached.
unfoldable pub attempts : Env → Handler → SagaRun → Step → ℕ → ℕ → Exec World Fields
unfolding execute wait_then is_control_signal
attempts env h run step attempt zero w = (ok end, w)
attempts env h run step attempt (suc left) w =
    let (r, w') = execute env h run step w in
    settle_attempt env run step attempt left (attempts env h run step (suc attempt) left) r w'

abbrev pub max_attempts : Step → ℕ
max_attempts step = elim step.retry [
  | none ↦ 1
  | some policy ↦ if ltb 1 policy.max_attempts then policy.max_attempts else 1
]

unfoldable pub execute_step : Env → Handler → SagaRun → Step → Exec World Fields
unfolding attempts
execute_step env h run step = attempts env h run step 0 (max_attempts step)
