-- ===== src/Engine/Advance.antt =====
-- The loop of Coordinator.Advance (engine/advance.go). One turn of it is `turn`; the loop is
-- `advance`, on fuel, since a workflow may go round for ever.
pub mod Resuming
pub mod Failing
pub mod Ends
use go_saga_orchestration.Prelude.{
  ℕ, zero, suc, Bool, true, false, not, ◌&&◌, ◌||◌, String, Option, none, some, List, [], ◌∷◌,
  lookup, string_eq, Exec, Result, ok, err, Error, errorf, wrap, required, pure, raise, lift,
  outcome, ignoring, wrapping, is_paused, is_cancelled, ◌>>=◌, ◌>>◌, ◌==◌, is_none, is_some,
  if◌then◌else◌,
}
use go_saga_orchestration.Domain.{
  str, obj, Fields, end, field, get, as_string, Step, Branch, WorkflowDefinition, step_by_id,
  step_type_end, step_type_decision, step_type_while, step_type_switch, SagaRun, TryCatchFrame,
  is_terminal, is_pending, is_paused_state, running, succeeded, cancelled, saga_started,
  step_dispatched, step_succeeded, step_failed, step_paused, run_succeeded, run_cancelled,
  license_gate_rejected,
}
use go_saga_orchestration.Store.Runs.{
  get_run, update_run_state, update_run_variables, mark_run_failed,
}
use go_saga_orchestration.Store.Pauses.{clear_pause, is_due}
use go_saga_orchestration.Store.Children.{pop_try_catch}
use go_saga_orchestration.Store.Definitions.{get_workflow_definition}
use go_saga_orchestration.Runtime.{
  Env, World, tick, now, on_store, emit, emit_with, RegistryEntry, Coordinator,
}
use go_saga_orchestration.Verbs.Licensing.{feature_of, license_group_for_step}
use go_saga_orchestration.Engine.Retry.{execute_step}
use go_saga_orchestration.Engine.Compensation.{compensate}
use go_saga_orchestration.Engine.Hooks.{check_parent_join, children_still_running}
use go_saga_orchestration.Engine.Resume.{Turn, again, finished, move_on, paused_turn}
use go_saga_orchestration.Engine.Failure.{complete_run, license_gate, handle_error}

abbrev pub needs_branch : Step → Bool
needs_branch step =
    (step.type == step_type_decision)
    || (step.type == step_type_while)
    || (step.type == step_type_switch)

abbrev pub branch_target : Step → String → Option Branch → Result String
branch_target step key (some br) = ok br.next
branch_target step key none =
    if needs_branch step
    then err (errorf ("%s branch %q not found in step.Branches" ∷ step.type ∷ key ∷ []))
    else ok step.next

-- The step's next, or the branch that the result names.
unfoldable pub next_step : Step → Fields → Result String
next_step step result =
    let key = as_string (get "branch" result) in
    if key == "" then ok step.next else branch_target step key (lookup key step.branches)

abbrev pub store_result : ℕ → Fields → Exec World Unit
store_result run_id end = pure tt
store_result run_id (field k v m) =
    wrapping ("update variables: %w" ∷ []) (on_store (update_run_variables run_id (field k v m)))

unfoldable pub handle_result : Env → ℕ → Step → Fields → Exec World Turn
unfolding on_store emit next_step move_on
handle_result env run_id step result = do
  store_result run_id result
  emit env run_id step.id 0 step_succeeded "engine"
  next ← lift (next_step step result)
  move_on (errorf ("step %q has no next and is not end" ∷ step.id ∷ [])) "set next step: %w" run_id
      next

abbrev pub handle_outcome :
    Coordinator → ℕ → SagaRun → WorkflowDefinition → Step → Result Fields → Exec World Turn
handle_outcome c run_id run def step (ok result) = handle_result c.env run_id step result
handle_outcome c run_id run def step (err e) = handle_error c run_id run def step e

unfoldable pub run_verb : Coordinator → ℕ → SagaRun → WorkflowDefinition → Step → Exec World Turn
unfolding license_gate execute_step handle_result handle_error
run_verb c run_id run def step = do
  entry ← lift (
      required (errorf ("no handler registered for step type: %s" ∷ step.type ∷ []))
        (lookup step.type c.verbs))
  license_gate c.env run_id run step entry
  result ← outcome (execute_step c.env entry.handler run step)
  handle_outcome c run_id run def step result

abbrev pub or_start : String → String → String
or_start start step_id = if step_id == "" then start else step_id

abbrev pub announce : Env → ℕ → SagaRun → Exec World Unit
announce env run_id run =
    if is_pending run.state then emit env run_id "" 0 saga_started "engine" else pure tt

abbrev pub complete_or_run : Coordinator → ℕ → SagaRun → WorkflowDefinition → Step → Exec World Turn
complete_or_run c run_id run def step =
    if step.type == step_type_end
    then complete_run c.env run_id run step
    else run_verb c run_id run def step

-- The turn on a run that is neither terminal nor paused.
unfoldable pub step_turn : Coordinator → ℕ → SagaRun → Exec World Turn
unfolding on_store emit complete_run run_verb
step_turn c run_id run = do
  def ← wrapping ("get definition: %w" ∷ []) (on_store (get_workflow_definition run.definition_id))
  announce c.env run_id run
  step ← lift (
      required
        (errorf
          ("definition references missing step: %s" ∷ or_start def.start run.current_step ∷ []))
        (step_by_id def (or_start def.start run.current_step)))
  emit c.env run_id step.id 0 step_dispatched "engine"
  ignoring (on_store (update_run_state run_id running step.id))
  complete_or_run c run_id run def step

abbrev pub on_state : Coordinator → ℕ → SagaRun → Exec World Turn
on_state c run_id run =
    if is_terminal run.state
    then pure finished
    else if is_paused_state run.state
    then paused_turn c.env run_id run
    else step_turn c run_id run

abbrev pub unless_done : Option Error → Exec World Turn → Exec World Turn
unless_done none m = m
unless_done (some e) m = raise e

unfoldable pub turn : Coordinator → ℕ → Exec World Turn
unfolding tick on_store paused_turn step_turn
turn c run_id = do
  n ← tick
  unless_done (c.env.context_error_at n)
      do run ← wrapping ("get run: %w" ∷ []) (on_store (get_run run_id)); on_state c run_id run

-- How the loop ends: with what Advance returns, or for want of fuel.
pub data Ending : Type 0 where
  returned : Result (Unit {0}) → Ending
  out_of_fuel : Ending

abbrev pub loop_on : Ending × World → Result Turn × World → Ending × World
loop_on rest (ok again, w) = rest
loop_on rest (ok finished, w) = (returned (ok tt), w)
loop_on rest (err e, w) = (returned (err e), w)

-- The lock on the run is that of `RunLocks`: one advance of a run at a time.
unfoldable pub advance : Coordinator → ℕ → ℕ → World → Ending × World
advance c run_id zero w = (out_of_fuel, w)
advance c run_id (suc fuel) w =
    let out = turn c run_id w in let rest = advance c run_id fuel out.1 in loop_on rest out
