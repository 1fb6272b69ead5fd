-- ===== src/Verbs/Waits.antt =====
-- The verbs that wait: wait_duration.go, wait_until.go, wait_for_signal.go, wait_for_event.go,
-- manual_approval.go and emit_signal.go of engine/verbs. Times are in nanoseconds.
use go_saga_orchestration.Prelude.{
  ℕ, suc, ◌+◌, ◌-◌, ◌*◌, Bool, ◌&&◌, ◌||◌, String, Option, none, some, [], ◌∷◌, map, Map, ℤ, pos,
  negsuc, ltb, Exec, Result, ok, err, errorf, required, pure, raise, lift, wrapping, saga_paused,
  ◌>>=◌, ◌>>◌, ◌==◌, string_eq, concat, if◌then◌else◌,
}
use go_saga_orchestration.Domain.{
  Value, float, Fields, end, get, as_string, as_fields, entries, SagaRun, Step,
}
use go_saga_orchestration.Store.Pauses.{
  set_paused_with_wakeup, set_paused_awaiting_signal, set_paused_awaiting_event_with_deadline,
  try_consume_awaited_signal, append_signal,
}
use go_saga_orchestration.Store.Tasks.{create_user_task}
use go_saga_orchestration.Runtime.{Env, World, fresh, now, on_store, send, saga_advance}

abbrev pub second : ℕ
second = 1000000000

abbrev forward : ℤ → Result ℕ
forward (pos n) = ok n
forward (negsuc n) = err (errorf ("wait_duration: negative duration not allowed: %s" ∷ []))

unfoldable pub wait_duration_verb : Env → SagaRun → Step → Exec World Fields
unfolding now on_store
wait_duration_verb env run step =
    let text = as_string (get "duration" step.inputs) in
    if text == "" then raise (errorf ("wait_duration: duration required" ∷ [])) else do
      parsed ← wrapping ("wait_duration: parse %q: %w" ∷ text ∷ []) (lift (env.parse_duration text))
      d ← lift (forward parsed)
      t ← now env
      wrapping ("wait_duration: persist wakeup: %w" ∷ [])
          (on_store (set_paused_with_wakeup run.id (t + d)))
      raise saga_paused

-- A time in the past becomes the present.
abbrev not_before : ℕ → ℕ → ℕ
not_before t n = if ltb t n then n else t

unfoldable pub wait_until_verb : Env → SagaRun → Step → Exec World Fields
unfolding now on_store
wait_until_verb env run step =
    let text = as_string (get "timestamp" step.inputs) in
    if text == "" then raise (errorf ("wait_until: timestamp required" ∷ [])) else do
      t ← wrapping ("wait_until: parse %q: %w" ∷ text ∷ []) (lift (env.parse_time text))
      n ← now env
      wrapping ("wait_until: persist wakeup: %w" ∷ [])
          (on_store (set_paused_with_wakeup run.id (not_before t n)))
      raise saga_paused

-- The `timeout_s` input, if it is a positive number.
abbrev timeout : Option Value → Option ℕ
timeout (some (float (pos (suc n)))) = some (suc n)
timeout _ = none

abbrev deadline_after : Env → Option ℕ → Exec World (Option ℕ)
deadline_after env none = pure none
deadline_after env (some seconds) = do t ← now env; pure (some (t + seconds * second))

unfoldable pub wait_for_signal_verb : Env → SagaRun → Step → Exec World Fields
unfolding now on_store
wait_for_signal_verb env run step =
    let name = as_string (get "name" step.inputs) in
    if name == "" then raise (errorf ("wait_for_signal: name required" ∷ [])) else do
      deadline ← deadline_after env (timeout (get "timeout_s" step.inputs))
      wrapping ("wait_for_signal: persist: %w" ∷ [])
          (on_store (set_paused_awaiting_signal run.id name deadline))
      raise saga_paused

-- Header values are compared as text, which `fmt.Sprint` makes of them.
abbrev header_map : (Value → String) → Option Fields → Map String String
header_map sprint none = []
header_map sprint (some m) = map (λ e. (e.0, sprint e.1)) (entries m)

unfoldable pub wait_for_event_verb : Env → (Value → String) → SagaRun → Step → Exec World Fields
unfolding now on_store
wait_for_event_verb env sprint run step =
    let topic = as_string (get "topic" step.inputs) in
    if topic == "" then raise (errorf ("wait_for_event: topic required" ∷ [])) else do
      deadline ← deadline_after env (timeout (get "timeout_s" step.inputs))
      wrapping ("wait_for_event: persist: %w" ∷ []) (
          on_store (
            set_paused_awaiting_event_with_deadline run.id topic
              (header_map sprint (as_fields (get "headers" step.inputs))) deadline))
      raise saga_paused

-- A due time may lie in the past; times stop at 0 here.
abbrev later : ℕ → ℤ → ℕ
later t (pos n) = t + n
later t (negsuc n) = t - suc n

-- The due time of a user task, with the text of its error.
abbrev pub due_after : Env → String → String → Exec World (Option ℕ)
due_after env failure text = if text == "" then pure none else do
  d ← wrapping (failure ∷ text ∷ []) (lift (env.parse_duration text))
  t ← now env
  pure (some (later t d))

abbrev or_end : Option Fields → Fields
or_end none = end
or_end (some m) = m

abbrev pub submitted_signal : Env → ℕ → String
submitted_signal env task_id = concat "user_task." (concat (env.uuid_text task_id) ".submitted")

-- The task is created first, then the run waits for the signal of its submission.
unfoldable pub manual_approval_verb : Env → SagaRun → Step → Exec World Fields
unfolding now fresh on_store
manual_approval_verb env run step =
    let assignee = as_string (get "assignee" step.inputs) in
    if assignee == "" then raise (errorf ("manual_approval: assignee required" ∷ [])) else do
      due_at ←
          due_after env "manual_approval: bad due_in %q: %w" (as_string (get "due_in" step.inputs))
      id ← fresh env
      wrapping ("manual_approval: create task: %w" ∷ []) (
          on_store (
            create_user_task (record {
              id = id;
              run_id = run.id;
              step_id = step.id;
              assignee = assignee;
              due_at = due_at;
              form_schema = or_end (as_fields (get "form_schema" step.inputs));
              submitted_at = none;
              submitted_by = "";
              result = end;
            })))
      wrapping ("manual_approval: set awaited signal: %w" ∷ [])
          (on_store (set_paused_awaiting_signal run.id (submitted_signal env id) due_at))
      raise saga_paused

abbrev publish_if : Env → Bool → ℕ → Exec World Unit
publish_if env consumed target_id =
    if consumed && env.has_publisher
    then wrapping ("emit_signal: publish: %w" ∷ []) (send env (saga_advance target_id))
    else pure tt

-- Stores the signal, and wakes the target if it waits for it.
unfoldable pub emit_signal : Env → ℕ → String → Fields → Exec World Fields
unfolding fresh now on_store send
emit_signal env target_id name payload = do
  id ← fresh env
  received ← now env
  wrapping ("emit_signal: append: %w" ∷ []) (
      on_store (
        append_signal (record {
          id = id;
          run_id = target_id;
          signal_name = name;
          payload = payload;
          received_at = received;
          consumed_at = none;
        })))
  t ← now env
  consumed ←
      wrapping ("emit_signal: consume: %w" ∷ [])
        (on_store (try_consume_awaited_signal t target_id name))
  publish_if env consumed target_id
  pure end

unfoldable pub emit_signal_verb : Env → SagaRun → Step → Exec World Fields
unfolding emit_signal
emit_signal_verb env run step =
    let target = as_string (get "run_id" step.inputs) in
    let name = as_string (get "name" step.inputs) in
    if (target == "") || (name == "")
    then raise (errorf ("emit_signal: run_id and name required" ∷ []))
    else do
      target_id ←
          lift (required (errorf ("emit_signal: bad run_id: %w" ∷ [])) (env.parse_uuid target))
      emit_signal env target_id name (or_end (as_fields (get "payload" step.inputs)))
