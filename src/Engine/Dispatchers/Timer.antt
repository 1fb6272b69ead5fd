-- ===== src/Engine/Dispatchers/Timer.antt =====
-- One tick of the timer: engine/timer.go. The loop of Run waits, ticks, and ends with its context.
pub mod Due
use go_saga_orchestration.Prelude.{
  ℕ, List, [], ◌∷◌, Exec, pure, ignoring, nat_eq, ◌==◌, if◌then◌else◌, ◌>>=◌, ◌>>◌,
}
use go_saga_orchestration.Store.Pauses.{find_runs_by_due_wakeup}
use go_saga_orchestration.Runtime.{Env, World, now, on_store, send, saga_advance}

-- An error of one message is logged, and the others are sent.
unfoldable pub publish_each : Env → List ℕ → Exec World Unit
unfolding send
publish_each env [] = pure tt
publish_each env (id ∷ rest) = do ignoring (send env (saga_advance id)); publish_each env rest

abbrev pub batch_of : ℕ → ℕ
batch_of batch_size = if batch_size == 0 then 100 else batch_size

unfoldable pub timer_tick : Env → ℕ → Exec World Unit
unfolding now on_store find_runs_by_due_wakeup publish_each
timer_tick env batch_size = do
  t ← now env
  ids ← on_store (find_runs_by_due_wakeup t (batch_of batch_size))
  publish_each env ids
