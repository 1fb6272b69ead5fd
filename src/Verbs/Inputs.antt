-- ===== src/Verbs/Inputs.antt =====
-- The verb that asks a user for input: engine/verbs/collect_input.go.
use go_saga_orchestration.Prelude.{
  Option, none, some, [], ◌∷◌, string_eq, ◌==◌, Exec, Result, ok, err, errorf, saga_paused, raise,
  lift, wrapping, ◌>>=◌, ◌>>◌, if◌then◌else◌,
}
use go_saga_orchestration.Domain.{Fields, end, field, get, as_string, as_fields, SagaRun, Step}
use go_saga_orchestration.Store.Pauses.{set_paused_awaiting_signal}
use go_saga_orchestration.Store.Tasks.{create_user_task}
use go_saga_orchestration.Runtime.{Env, World, fresh, now, on_store}
use go_saga_orchestration.Verbs.Waits.{due_after, submitted_signal}

abbrev required_schema : Option Fields → Result Fields
required_schema (some (field k v m)) = ok (field k v m)
required_schema _ = err (errorf ("collect_input: form_schema required and non-empty" ∷ []))

-- The task is created first, then the run waits for the signal of its submission.
unfoldable pub collect_input_verb : Env → SagaRun → Step → Exec World Fields
unfolding fresh now on_store create_user_task set_paused_awaiting_signal
collect_input_verb env run step =
    let assignee = as_string (get "assignee" step.inputs) in
    if assignee == "" then raise (errorf ("collect_input: assignee required" ∷ [])) else do
      form_schema ← lift (required_schema (as_fields (get "form_schema" step.inputs)))
      due_at ←
          due_after env "collect_input: bad due_in %q: %w" (as_string (get "due_in" step.inputs))
      id ← fresh env
      wrapping ("collect_input: create task: %w" ∷ []) (
          on_store (
            create_user_task (record {
              id = id;
              run_id = run.id;
              step_id = step.id;
              assignee = assignee;
              due_at = due_at;
              form_schema = form_schema;
              submitted_at = none;
              submitted_by = "";
              result = end;
            })))
      wrapping ("collect_input: set awaited signal: %w" ∷ [])
          (on_store (set_paused_awaiting_signal run.id (submitted_signal env id) due_at))
      raise saga_paused
