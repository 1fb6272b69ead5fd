-- ===== src/Store/Runs.antt =====
-- Runs, their state and their audit trail: store/memory/store.go, CreateRun to ListEventsByRun,
-- and UpdateRunVariables.
pub mod Cancelling
use go_saga_orchestration.Prelude.{
  ℕ, ◌&&◌, String, Option, none, some, List, [], ◌∷◌, ◌++◌, Map, lookup, insert, Exec, ok, pure,
  ◌>>◌, ◌==◌, string_eq, nat_eq, is_none, if◌then◌else◌, split_bytes, from_option, gets, ◌>>=◌,
}
use go_saga_orchestration.Domain.{
  Value, obj, str, Fields, end, field, get, put, as_fields, entries, SagaRun, RunState, is_terminal,
  failed, cancelled, UserTask, SagaRunEvent, new_event, run_cancelled,
}
use go_saga_orchestration.Store.{Store, rows, on_run, put_run, run_not_found}

unfoldable pub create_run : SagaRun → Exec Store Unit
create_run r = put_run r.id r

unfoldable pub get_run : ℕ → Exec Store SagaRun
get_run id s = from_option run_not_found (lookup id s.runs) s

unfoldable pub update_run_state : ℕ → RunState → String → Exec Store Unit
update_run_state id state current_step =
    on_run id λ r. put_run id (record r { state = state; current_step = current_step })

unfoldable pub append_event : SagaRunEvent → Exec Store Unit
append_event evt s = (
  ok tt,
  record s { events = insert evt.run_id (rows (lookup evt.run_id s.events) ++ evt ∷ []) s.events },
)

unfoldable pub list_events_by_run : ℕ → Exec Store (List SagaRunEvent)
list_events_by_run run_id = gets (λ s. rows (lookup run_id s.events))

-- `if text != "" { r.LastError = &text }`
abbrev pub error_text : String → Option String → Option String
error_text text old = if text == "" then old else some text

-- The record that `Cancel` leaves: terminal, and with no marker that a stray advance could act on.
unfoldable pub cancelled_run : ℕ → String → SagaRun → SagaRun
cancelled_run now reason r = record r {
  state = cancelled;
  terminal_at = some now;
  last_event_at = now;
  last_error = error_text reason r.last_error;
  wakeup_at = none;
  awaited_signal = none;
  awaited_event_topic = none;
  awaited_event_headers = [];
  awaited_action_dispatch = none;
}

-- Closes the task if it is an open one of the run.
unfoldable pub close_task : ℕ → ℕ → UserTask → UserTask
close_task now run_id t =
    if (t.run_id == run_id) && is_none t.submitted_at
    then record t { submitted_at = some now; submitted_by = "system:run-cancelled" }
    else t

unfoldable pub close_tasks : ℕ → ℕ → Map ℕ UserTask → Map ℕ UserTask
close_tasks now run_id [] = []
close_tasks now run_id ((id, t) ∷ m) = (id, close_task now run_id t) ∷ close_tasks now run_id m

abbrev reason_metadata : String → Fields
reason_metadata reason = if reason == "" then end else field "reason" (str reason) end

unfoldable pub cancel_event : ℕ → ℕ → ℕ → String → String → SagaRunEvent
unfolding new_event
cancel_event event_id now run_id current_step reason =
    record (new_event event_id now run_id current_step 0 run_cancelled "engine") {
      metadata = reason_metadata reason;
    }

-- What Cancel does while it holds the mutex. The result is the step of a run that it has cancelled.
unfoldable pub cancel_locked : ℕ → ℕ → String → Exec Store (Option String)
unfolding cancelled_run
cancel_locked now run_id reason = on_run run_id λ r. if is_terminal r.state then pure none else do
  put_run run_id (cancelled_run now reason r)
  (λ s. (ok tt, record s { user_tasks = close_tasks now run_id s.user_tasks }))
  pure (some r.current_step)

abbrev audit_cancel : ℕ → ℕ → ℕ → String → Option String → Exec Store Unit
audit_cancel event_id now run_id reason none = pure tt
audit_cancel event_id now run_id reason (some current_step) =
    append_event (cancel_event event_id now run_id current_step reason)

-- The audit event is appended behind the release of the mutex, so calls of others may come between the
-- two parts. The time and the id of the event are arguments.
unfoldable pub cancel : ℕ → ℕ → ℕ → String → Exec Store Unit
unfolding cancel_locked append_event
cancel event_id now run_id reason = do
  closed ← cancel_locked now run_id reason
  audit_cancel event_id now run_id reason closed

unfoldable pub failed_run : ℕ → String → String → SagaRun → SagaRun
failed_run now current_step last_error r = record r {
  state = failed;
  current_step = current_step;
  terminal_at = some now;
  last_event_at = now;
  last_error = error_text last_error r.last_error;
}

unfoldable pub mark_run_failed : ℕ → ℕ → String → String → Exec Store Unit
unfolding failed_run
mark_run_failed now run_id current_step last_error = on_run run_id λ r.
    if is_terminal r.state
    then pure tt
    else put_run run_id (failed_run now current_step last_error r)

-- The map that a key part names, or a new one where it names none.
abbrev nested : Option Fields → Fields
nested none = end
nested (some m) = m

-- `applyDottedKey` over the parts of the key.
unfoldable pub apply_parts : List String → Value → Fields → Fields
apply_parts [] value target = target
apply_parts (p ∷ []) value target = put p value target
apply_parts (p ∷ q ∷ rest) value target =
    put p (obj (apply_parts (q ∷ rest) value (nested (as_fields (get p target))))) target

unfoldable pub apply_dotted_key : Fields → String → Value → Fields
unfolding split_bytes apply_parts
apply_dotted_key target key value = apply_parts (split_bytes key) value target

-- The writes of a merge, one after the other.
unfoldable pub apply_merge : List (String × Value) → Fields → Fields
apply_merge [] target = target
apply_merge ((k, v) ∷ rest) target = apply_merge rest (apply_dotted_key target k v)

unfoldable pub update_run_variables : ℕ → Fields → Exec Store Unit
update_run_variables run_id merge =
    on_run run_id
      λ r. put_run run_id (record r { variables = apply_merge (entries merge) r.variables })
