-- ===== src/Engine/Failure.antt =====
-- How a run ends, in Coordinator.Advance and completeRun of engine/advance.go: at an end step, at the
-- license gate, with an error of its step, or caught by a try_catch frame.
use go_saga_orchestration.Prelude.{
  ℕ, Bool, true, false, String, Option, none, some, List, [], ◌∷◌, string_eq, Exec, Result, ok, err,
  Error, errorf, wrap, pure, raise, outcome, ignoring, wrapping, is_paused, is_cancelled, ◌>>=◌,
  ◌>>◌, ◌==◌, if◌then◌else◌,
}
use go_saga_orchestration.Domain.{
  str, obj, Fields, end, field, Step, WorkflowDefinition, SagaRun, TryCatchFrame, running,
  succeeded, cancelled, step_succeeded, step_failed, step_paused, run_succeeded, run_cancelled,
  license_gate_rejected,
}
use go_saga_orchestration.Store.Runs.{update_run_state, update_run_variables, mark_run_failed}
use go_saga_orchestration.Store.Children.{pop_try_catch}
use go_saga_orchestration.Runtime.{
  Env, World, tick, now, on_store, emit, emit_with, RegistryEntry, Coordinator, checked,
}
use go_saga_orchestration.Verbs.Licensing.{feature_of, license_group_for_step}
use go_saga_orchestration.Engine.Compensation.{compensate}
use go_saga_orchestration.Engine.Hooks.{check_parent_join}
use go_saga_orchestration.Engine.Resume.{Turn, again, finished}

unfoldable pub complete_run : Env → ℕ → SagaRun → Step → Exec World Turn
unfolding emit on_store check_parent_join
complete_run env run_id run step = do
  emit env run_id step.id 0 step_succeeded "engine"
  emit env run_id "" 0 run_succeeded "engine"
  on_store (update_run_state run_id succeeded "")
  check_parent_join env run
  pure finished

-- Fails the run at the gate.
unfoldable pub reject : Env → ℕ → Step → Fields → List String → Exec World Unit
unfolding emit_with on_store now
reject env run_id step metadata reason = do
  emit_with env metadata run_id step.id 0 license_gate_rejected "engine"
  t ← now env
  ignoring (on_store (mark_run_failed t run_id step.id (env.render (errorf reason))))

abbrev pub decide_gate : Env → ℕ → Step → String → String → Result Bool → Exec World Unit
decide_gate env run_id step group feature (err e) = do
  reject env run_id step end ("license check for feature %q: %v" ∷ feature ∷ env.render e ∷ [])
  raise (wrap ("license check for step %q (feature %q): %w" ∷ step.id ∷ feature ∷ []) e)
decide_gate env run_id step group feature (ok true) = pure tt
decide_gate env run_id step group feature (ok false) = do
  reject env run_id step (field "group" (str group) (field "feature" (str feature) end))
      ("license_gate: feature %q not enabled for tenant" ∷ feature ∷ [])
  raise (errorf ("license_gate: feature %q not enabled for tenant" ∷ feature ∷ []))

abbrev pub pass_gate : Env → ℕ → SagaRun → Step → String → String → Exec World Unit
pass_gate env run_id run step group feature = if feature == "" then pure tt else do
  n ← tick
  decide_gate env run_id step group feature
      (checked (env.is_feature_enabled_at n run.tenant_id feature run.feature_overrides))

-- The license check before a step is executed.
unfoldable pub license_gate : Env → ℕ → SagaRun → Step → RegistryEntry → Exec World Unit
unfolding tick reject
license_gate env run_id run step entry =
    let group = license_group_for_step step entry.license_group in
    pass_gate env run_id run step group (feature_of group)

-- `_error`, for the catch step.
abbrev pub error_fields : Env → Step → Error → Fields
error_fields env step e =
    field "_error"
      (obj (
        field "step_id" (str step.id)
          (field "message" (str (env.render e)) (field "verb" (str step.type) end))))
      end

unfoldable pub caught : Env → ℕ → Step → Error → TryCatchFrame → Exec World Turn
unfolding on_store emit
caught env run_id step e frame = do
  ignoring (on_store (update_run_variables run_id (error_fields env step e)))
  emit env run_id step.id 0 step_failed "engine-caught"
  ignoring (on_store (update_run_state run_id running frame.catch_step))
  pure again

unfoldable pub fail_run :
    Coordinator → ℕ → SagaRun → WorkflowDefinition → Step → Error → Exec World Turn
unfolding emit compensate now on_store check_parent_join
fail_run c run_id run def step e = do
  emit c.env run_id step.id 0 step_failed "engine"
  compensate c run def step
  t ← now c.env
  ignoring (
      on_store (
        mark_run_failed t run_id step.id
          (c.env.render (wrap ("step %q (%s): %v" ∷ step.id ∷ step.type ∷ []) e))))
  check_parent_join c.env run
  raise (wrap ("verb %s: %w" ∷ step.type ∷ []) e)

abbrev pub fail_or_catch :
    Coordinator
    → ℕ
    → SagaRun
    → WorkflowDefinition
    → Step
    → Error
    → Result (Option TryCatchFrame)
    → Exec World Turn
fail_or_catch c run_id run def step e (ok (some frame)) = caught c.env run_id step e frame
fail_or_catch c run_id run def step e (ok none) = fail_run c run_id run def step e
fail_or_catch c run_id run def step e (err e') = fail_run c run_id run def step e

unfoldable pub cancel_self : Env → ℕ → SagaRun → Step → Exec World Turn
unfolding emit on_store check_parent_join
cancel_self env run_id run step = do
  emit env run_id "" 0 run_cancelled "engine"
  wrapping ("cancel: set cancelled: %w" ∷ []) (on_store (update_run_state run_id cancelled step.id))
  check_parent_join env run
  pure finished

unfoldable pub pause_self : Env → ℕ → Step → Exec World Turn
unfolding emit
pause_self env run_id step = do emit env run_id step.id 0 step_paused "engine"; pure finished

unfoldable pub handle_error :
    Coordinator → ℕ → SagaRun → WorkflowDefinition → Step → Error → Exec World Turn
unfolding on_store caught fail_run cancel_self pause_self
handle_error c run_id run def step e =
    if is_paused e
    then pause_self c.env run_id step
    else if is_cancelled e
    then cancel_self c.env run_id run step
    else do
      popped ← outcome (on_store (pop_try_catch run_id))
      fail_or_catch c run_id run def step e popped
