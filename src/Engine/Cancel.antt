-- ===== src/Engine/Cancel.antt =====
-- Coordinator.Cancel of engine/coordinator.go, and the cancel verb of engine/verbs/cancel.go.
use go_saga_orchestration.Prelude.{
  ℕ, ◌||◌, String, [], ◌∷◌, Exec, Result, ok, err, errorf, required, lift, pure, raise, outcome,
  wrapping, saga_cancelled, ◌>>=◌, ◌>>◌, ◌==◌, string_eq, if◌then◌else◌,
}
use go_saga_orchestration.Domain.{
  Fields, end, get, as_string, Step, SagaRun, is_terminal, cancelled, run_cancelled,
}
use go_saga_orchestration.Store.Runs.{get_run, update_run_state}
use go_saga_orchestration.Store.Runs
use go_saga_orchestration.Runtime.{Env, World, fresh, now, on_store, emit}
use go_saga_orchestration.Engine.Hooks.{check_parent_join}

-- Idempotent: a terminal run is left as it is. The hook does nothing on a run with no parent.
unfoldable pub cancel : Env → ℕ → String → Exec World Unit
unfolding on_store fresh now Runs.cancel check_parent_join
cancel env run_id reason = do
  run ← wrapping ("cancel run %s: %w" ∷ []) (on_store (get_run run_id))
  if is_terminal run.state then pure tt else do
    event_id ← fresh env
    t ← now env
    wrapping ("cancel run %s: %w" ∷ []) (on_store (Runs.cancel event_id t run_id reason))
    check_parent_join env run

abbrev recheck : Env → Result SagaRun → Exec World Unit
recheck env (err e) = pure tt
recheck env (ok target) = check_parent_join env target

abbrev cancel_target : Env → Step → ℕ → Exec World Fields
cancel_target env step target_id = do
  wrapping ("cancel: update target: %w" ∷ []) (on_store (update_run_state target_id cancelled ""))
  emit env target_id step.id 0 run_cancelled "engine"
  target ← outcome (on_store (get_run target_id))
  recheck env target
  pure end

-- With no run id, or with the run's own, a self-cancel; else the target is set cancelled, whatever
-- its state, and this run goes on.
unfoldable pub cancel_verb : Env → SagaRun → Step → Exec World Fields
unfolding on_store emit check_parent_join
cancel_verb env run step =
    let target = as_string (get "run_id" step.inputs) in
    if (target == "") || (target == env.uuid_text run.id) then raise saga_cancelled else do
      target_id ← lift (required (errorf ("cancel: bad run_id: %w" ∷ [])) (env.parse_uuid target))
      cancel_target env step target_id
