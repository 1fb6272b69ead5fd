-- ===== src/Engine/Compensation.antt =====
-- Rolling back: engine/compensation.go.
pub mod Steady
pub mod Rollback
pub mod Settling
pub mod Completed
pub mod Order
use go_saga_orchestration.Prelude.{
  ℕ, Bool, true, false, ◌||◌, String, Option, none, some, List, [], ◌∷◌, reverse, lookup, Exec,
  Result, ok, err, errorf, pure, raise, outcome, ignoring, wrapping, ◌>>=◌, ◌>>◌, ◌==◌, string_eq,
  member, if◌then◌else◌,
}
use go_saga_orchestration.Domain.{
  end, Step, Compensation, WorkflowDefinition, step_by_id, step_type_end, step_type_action, SagaRun,
  RunState, is_failed, is_compensating, compensating, failed, cancelled, SagaRunEvent,
  is_step_succeeded, compensation_started,
}
use go_saga_orchestration.Store.Runs.{
  get_run, update_run_state, list_events_by_run, mark_run_failed,
}
use go_saga_orchestration.Store.Definitions.{get_workflow_definition}
use go_saga_orchestration.Runtime.{
  Env, World, now, on_store, emit, ActionVerb, action_handler, handler_func, RegistryEntry,
  Coordinator,
}
use go_saga_orchestration.Verbs.Action.{dispatch_compensation}
use go_saga_orchestration.Engine.Hooks.{check_parent_join}

-- `step, ok := def.StepByID(ev.StepID)`, for a step that is not an end step.
abbrev graph_step : Option Step → Option Step
graph_step none = none
graph_step (some step) = if step.type == step_type_end then none else some step

-- The loop over the audit trail, with the ids seen so far.
unfoldable pub completed_steps :
    WorkflowDefinition → String → List String → List SagaRunEvent → List Step
completed_steps def exclude_id seen [] = []
completed_steps def exclude_id seen (ev ∷ rest) = elim (is_step_succeeded ev.event_type) [
  | false ↦ completed_steps def exclude_id seen rest
  | true ↦ elim ((ev.step_id == "") || (ev.step_id == exclude_id) || member ev.step_id seen) [
    | true ↦ completed_steps def exclude_id seen rest
    | false ↦ elim (graph_step (step_by_id def ev.step_id)) [
      | none ↦ completed_steps def exclude_id seen rest
      | some step ↦ step ∷ completed_steps def exclude_id (ev.step_id ∷ seen) rest
    ]
  ]
]

unfoldable pub completed_compensable_steps :
    SagaRun → WorkflowDefinition → String → Exec World (List Step)
unfolding completed_steps on_store list_events_by_run
completed_compensable_steps run def exclude_id = do
  events ← on_store (list_events_by_run run.id)
  pure (completed_steps def exclude_id [] events)

-- The registered action verb, or Go's zero value of the type.
abbrev zero_action_verb : ActionVerb
zero_action_verb = record {
  has_store = false;
  has_publisher = false;
  has_http_dispatcher = false;
  has_rmq_dispatcher = false;
}

abbrev action_verb_of : Option RegistryEntry → ActionVerb
action_verb_of none = zero_action_verb
action_verb_of (some entry) = elim entry.handler [
  | action_handler v ↦ v
  | handler_func f ↦ zero_action_verb
]

abbrev compensate_step : Env → ActionVerb → SagaRun → Step → Option Compensation → Exec World Unit
compensate_step env av run step none = pure tt
compensate_step env av run step (some comp) =
    ignoring (dispatch_compensation env av run.id step.id comp.action comp.inputs run.dry_run)

-- Each step in turn; a failed dispatch does not stop the rollback.
unfoldable pub compensate_steps : Env → ActionVerb → SagaRun → List Step → Exec World Unit
unfolding dispatch_compensation
compensate_steps env av run [] w = (ok tt, w)
compensate_steps env av run (step ∷ rest) w =
    compensate_steps env av run rest (compensate_step env av run step step.compensation w).1

abbrev roll_back : Coordinator → SagaRun → Step → List Step → Result (Unit {0}) → Exec World Unit
roll_back c run failed_step completed (err e) = pure tt
roll_back c run failed_step completed (ok u) = do
  emit c.env run.id failed_step.id 0 compensation_started "engine"
  compensate_steps c.env (action_verb_of (lookup step_type_action c.verbs)) run (reverse completed)

abbrev compensate_completed : Coordinator → SagaRun → Step → List Step → Exec World Unit
compensate_completed c run failed_step [] = pure tt
compensate_completed c run failed_step (step ∷ rest) = do
  set ← outcome (on_store (update_run_state run.id compensating run.current_step))
  roll_back c run failed_step (step ∷ rest) set

unfoldable pub compensate : Coordinator → SagaRun → WorkflowDefinition → Step → Exec World Unit
unfolding completed_compensable_steps compensate_steps on_store emit
compensate c run def failed_step = do
  completed ← completed_compensable_steps run def failed_step.id
  compensate_completed c run failed_step completed

-- `domain.Step{ID: failedStepID}`
abbrev bare_step : String → Step
bare_step id = record {
  id = id;
  type = "";
  next = "";
  action = "";
  inputs = end;
  compensation = none;
  retry = none;
  branches = [];
}

abbrev step_or_bare : String → Option Step → Step
step_or_bare id none = bare_step id
step_or_bare id (some step) = step

abbrev settle_failed : ℕ → SagaRun → Exec World Unit
settle_failed run_id run = do
  current ← on_store (get_run run_id)
  if is_compensating current.state
      then wrapping ("settle: %w" ∷ []) (on_store (update_run_state run_id failed run.current_step))
      else pure tt

abbrev fail_now : Env → ℕ → String → Exec World Unit
fail_now env run_id failed_step_id = do
  t ← now env
  on_store (
      mark_run_failed t run_id failed_step_id
        (env.render (errorf ("step %q failed" ∷ failed_step_id ∷ []))))

abbrev ended_otherwise : RunState → Bool
ended_otherwise = elim [ RunState.succeeded ↦ true | cancelled ↦ true | _ ↦ false ]

-- The run lock that it holds is that of `RunLocks`.
unfoldable pub compensate_failed_step : Coordinator → ℕ → String → Exec World Unit
unfolding compensate on_store now
compensate_failed_step c run_id failed_step_id = do
  run ← wrapping ("compensate %s: %w" ∷ []) (on_store (get_run run_id))
  if ended_otherwise run.state
      then raise (errorf ("compensate %s: run is %s, not failed" ∷ []))
      else do
        def ←
            wrapping ("compensate %s: definition: %w" ∷ [])
              (on_store (get_workflow_definition run.definition_id))
        compensate c run def (step_or_bare failed_step_id (step_by_id def failed_step_id))
        if is_failed run.state
            then settle_failed run_id run
            else fail_now c.env run_id failed_step_id
        check_parent_join c.env run
