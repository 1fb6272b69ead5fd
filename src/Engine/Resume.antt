-- ===== src/Engine/Resume.antt =====
-- The turn of the loop of Coordinator.Advance (engine/advance.go) on a paused run, and the move to the
-- next step.
use go_saga_orchestration.Prelude.{
  ℕ, Bool, true, false, not, ◌&&◌, ◌||◌, String, Option, none, some, [], ◌∷◌, lookup, string_eq,
  Exec, Error, errorf, required, pure, raise, lift, wrapping, ◌>>=◌, ◌>>◌, ◌==◌, is_none, is_some,
  if◌then◌else◌,
}
use go_saga_orchestration.Domain.{Step, Branch, step_by_id, SagaRun, running, step_succeeded}
use go_saga_orchestration.Store.Runs.{get_run, update_run_state}
use go_saga_orchestration.Store.Pauses.{clear_pause, is_due}
use go_saga_orchestration.Store.Definitions.{get_workflow_definition}
use go_saga_orchestration.Runtime.{Env, World, now, on_store, emit}
use go_saga_orchestration.Engine.Hooks.{children_still_running}

-- How a turn of the loop ends when it does not return an error: `continue`, or `return nil`.
pub data Turn : Type 0 where
  again finished : Turn

abbrev pub non_empty_branch : String → Option Branch → String
non_empty_branch next none = next
non_empty_branch next (some br) = if br.next == "" then next else br.next

-- Where a run goes on after a pause: on a timeout to the "timeout" branch, if the step has one.
unfoldable pub resume_target : Step → Bool → String
resume_target step timed_out =
    if timed_out then non_empty_branch step.next (lookup "timeout" step.branches) else step.next

-- `if next == "" { return err }`, and the move to the next step, with the texts of their errors.
unfoldable pub move_on : Error → String → ℕ → String → Exec World Turn
unfolding on_store
move_on missing failure run_id next =
    if next == ""
    then raise missing
    else do wrapping (failure ∷ []) (on_store (update_run_state run_id running next)); pure again

-- The pause is over: clear it, record the step's success, and go on. The run is not read once more
-- behind the move, since the next turn reads it.
unfoldable pub resume : Env → ℕ → Bool → Exec World Turn
unfolding on_store emit resume_target move_on
resume env run_id timed_out = do
  wrapping ("clear pause: %w" ∷ []) (on_store (clear_pause run_id))
  run ← wrapping ("re-read after clear: %w" ∷ []) (on_store (get_run run_id))
  def ←
      wrapping ("get def after clear: %w" ∷ [])
        (on_store (get_workflow_definition run.definition_id))
  step ← lift (
      required (errorf ("def missing step %s" ∷ run.current_step ∷ []))
        (step_by_id def run.current_step))
  emit env run_id step.id 0 step_succeeded "engine"
  move_on (errorf ("paused step %s has no next" ∷ step.id ∷ [])) "set next after clear: %w" run_id
      (resume_target step timed_out)

abbrev pub has_awaits : SagaRun → Bool
has_awaits run = is_some run.awaited_signal || is_some run.awaited_event_topic

-- The wait on children is checked for an external wakeup only.
abbrev pub still_waiting : Env → SagaRun → Bool → Exec World Bool
still_waiting env run true = pure false
still_waiting env run false = children_still_running env run

abbrev pub resume_unless : Env → ℕ → Bool → Bool → Exec World Turn
resume_unless env run_id timed_out true = pure finished
resume_unless env run_id timed_out false = resume env run_id timed_out

abbrev pub try_resume : Env → ℕ → SagaRun → Bool → Exec World Turn
try_resume env run_id run wakeup_due = do
  waiting ← still_waiting env run wakeup_due
  resume_unless env run_id (wakeup_due && has_awaits run) waiting

abbrev pub wake_up : Env → ℕ → SagaRun → Bool → Exec World Turn
wake_up env run_id run wakeup_due =
    if wakeup_due || (not (has_awaits run) && is_none run.wakeup_at)
    then try_resume env run_id run wakeup_due
    else pure finished

-- The turn on a paused run.
unfoldable pub paused_turn : Env → ℕ → SagaRun → Exec World Turn
unfolding now resume children_still_running
paused_turn env run_id run = do t ← now env; wake_up env run_id run (is_due t run.wakeup_at)
