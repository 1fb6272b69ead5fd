-- ===== src/Engine/Hooks.antt =====
-- The hooks on a child's end: checkParentJoin, checkJoinBarriers and childrenStillRunning of
-- engine/advance.go. An error ends a hook early and is only logged.
pub mod Steady
pub mod Waking
use go_saga_orchestration.Prelude.{
  ℕ, Bool, false, not, ◌||◌, String, Option, none, some, List, [], ◌∷◌, Exec, pure, lift, ignoring,
  wrapping, ◌>>=◌, ◌>>◌, ◌==◌, string_eq, member, if◌then◌else◌,
}
use go_saga_orchestration.Domain.{
  Fields, end, field, get, Step, WorkflowDefinition, step_by_id, SagaRun, is_paused_state, StepType,
  step_type_join, step_type_parallel, step_type_foreach, step_type_sub_saga,
}
use go_saga_orchestration.Store.Runs.{get_run, update_run_variables}
use go_saga_orchestration.Store.Pauses.{wake_from_external}
use go_saga_orchestration.Store.Children.{list_children_by_parent}
use go_saga_orchestration.Store.Definitions.{get_workflow_definition}
use go_saga_orchestration.Runtime.{Env, World, on_store, send, saga_advance}
use go_saga_orchestration.Verbs.Join.{
  join_condition_met, aggregate_join_results, resolve_join_streams, collect_watched, branches_key,
}

abbrev inputs_of : Option Step → Fields
inputs_of none = end
inputs_of (some step) = step.inputs

abbrev pub lookup_step_inputs : WorkflowDefinition → String → Fields
lookup_step_inputs def step_id = inputs_of (step_by_id def step_id)

abbrev publish_advance : Env → ℕ → Exec World Unit
publish_advance env run_id = if env.has_publisher then send env (saga_advance run_id) else pure tt

-- Writes the aggregate into the parent, wakes it and publishes its advance.
unfoldable pub wake_parent : Env → ℕ → String → List SagaRun → Exec World Unit
unfolding aggregate_join_results on_store
wake_parent env parent_id key group = do
  aggregated ← aggregate_join_results env group
  ignoring (on_store (update_run_variables parent_id (field key aggregated end)))
  on_store (wake_from_external parent_id)
  publish_advance env parent_id

abbrev barrier_of : Option Step → Option Step
barrier_of none = none
barrier_of (some step) = if step.type == step_type_join then some step else none

abbrev watch_barrier : Env → ℕ → String → SagaRun → Option Step → Exec World Unit
watch_barrier env parent_id stream parent none = pure tt
watch_barrier env parent_id stream parent (some join_step) = do
  streams ← lift (resolve_join_streams env (get "streams" join_step.inputs) parent.variables)
  if not (member stream streams) then pure tt else do
    watched ← collect_watched parent_id [] streams
    if not (join_condition_met env join_step.inputs parent.variables watched)
        then pure tt
        else wake_parent env parent_id (branches_key "_join." join_step.id) watched

unfoldable pub check_join_barriers : Env → ℕ → String → Exec World Unit
unfolding on_store wake_parent collect_watched
check_join_barriers env parent_id stream = ignoring do
  parent ← on_store (get_run parent_id)
  if not (is_paused_state parent.state) then pure tt else do
    parent_def ← on_store (get_workflow_definition parent.definition_id)
    watch_barrier env parent_id stream parent
        (barrier_of (step_by_id parent_def parent.current_step))

-- Wakes the parent that is paused on the step that spawned the child.
unfoldable pub check_spawning_step : Env → ℕ → String → Exec World Unit
unfolding on_store wake_parent
check_spawning_step env parent_id step_id = ignoring do
  parent ← on_store (get_run parent_id)
  if not (is_paused_state parent.state) || not (parent.current_step == step_id) then pure tt else do
    siblings ← on_store (list_children_by_parent parent_id step_id)
    parent_def ← on_store (get_workflow_definition parent.definition_id)
    if not
          (join_condition_met env (lookup_step_inputs parent_def step_id) parent.variables siblings)
        then pure tt
        else wake_parent env parent_id (branches_key "_parallel." step_id) siblings

abbrev parent_join : Env → Option ℕ → Option String → Exec World Unit
parent_join env none step_id = pure tt
parent_join env (some parent_id) none = pure tt
parent_join env (some parent_id) (some step_id) = do
  check_join_barriers env parent_id step_id
  check_spawning_step env parent_id step_id

unfoldable pub check_parent_join : Env → SagaRun → Exec World Unit
unfolding check_join_barriers check_spawning_step
check_parent_join env run = parent_join env run.parent_run_id run.parent_step_id

abbrev pub spawns_and_waits : StepType → Bool
spawns_and_waits type =
    (type == step_type_parallel) || (type == step_type_foreach) || (type == step_type_sub_saga)

abbrev pub still_running : Env → SagaRun → Option Step → Exec World Bool
still_running env run none = pure false
still_running env run (some step) = if not (spawns_and_waits step.type) then pure false else do
  children ← wrapping ("list children: %w" ∷ []) (on_store (list_children_by_parent run.id step.id))
  pure (not (join_condition_met env step.inputs run.variables children))

unfoldable pub children_still_running : Env → SagaRun → Exec World Bool
unfolding on_store
children_still_running env run = do
  def ← wrapping ("get definition: %w" ∷ []) (on_store (get_workflow_definition run.definition_id))
  still_running env run (step_by_id def run.current_step)
