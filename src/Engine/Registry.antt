-- ===== src/Engine/Registry.antt =====
-- The table of verbs that the engine is built with: Default of engine/verbs/registry.go.
use go_saga_orchestration.Prelude.{String, Bool, true, [], ◌∷◌, Map, Exec}
use go_saga_orchestration.Domain.{
  Value, Fields, SagaRun, Step, step_type_action, step_type_decision, step_type_http_request,
  step_type_parallel, step_type_join, step_type_foreach, step_type_while, step_type_switch,
  step_type_try_catch, step_type_sub_saga,
}
use go_saga_orchestration.Runtime.{
  Env, World, ActionVerb, RegistryEntry, action_handler, handler_func,
}
use go_saga_orchestration.Verbs.Control.{
  noop_verb, set_var_verb, transform_verb, assert_verb, error_verb, log_verb, metric_emit_verb,
  while_verb, switch_verb, try_catch_verb,
}
use go_saga_orchestration.Verbs.Collections.{merge_verb, filter_verb, map_verb}
use go_saga_orchestration.Verbs.Decision.{decision_verb}
use go_saga_orchestration.Verbs.Waits.{
  wait_duration_verb, wait_until_verb, wait_for_signal_verb, wait_for_event_verb, emit_signal_verb,
  manual_approval_verb,
}
use go_saga_orchestration.Verbs.Fan.{parallel_verb}
use go_saga_orchestration.Verbs.Join.{join_verb}
use go_saga_orchestration.Verbs.Foreach.{foreach_verb}
use go_saga_orchestration.Verbs.Spawn.{sub_saga_verb, spawn_saga_verb}
use go_saga_orchestration.Verbs.Inputs.{collect_input_verb}
use go_saga_orchestration.Engine.Cancel.{cancel_verb}

-- What Default is told, and the verbs that call clients of HTTP and messages.
pub record Wiring : Type 0 where
  pub has_action_publisher : Bool
  pub has_http_dispatcher : Bool
  pub has_rmq_dispatcher : Bool
  -- `fmt.Sprint`
  pub sprint : Value → String
  pub http_request_verb : SagaRun → Step → Exec World Fields
  pub webhook_emit_verb : SagaRun → Step → Exec World Fields
  pub emit_event_verb : SagaRun → Step → Exec World Fields

abbrev pub default_action_verb : Wiring → ActionVerb
default_action_verb c = record {
  has_store = true;
  has_publisher = c.has_action_publisher;
  has_http_dispatcher = c.has_http_dispatcher;
  has_rmq_dispatcher = c.has_rmq_dispatcher;
}

abbrev entry : String → (SagaRun → Step → Exec World Fields) → RegistryEntry
entry group f = record { handler = handler_func f; license_group = group }

unfoldable pub default_verbs : Env → Wiring → Map String RegistryEntry
default_verbs env c =
    (
      step_type_action,
      record { handler = action_handler (default_action_verb c); license_group = "common" },
    )
    ∷ ("noop", entry "common" noop_verb)
    ∷ ("set_var", entry "common" (set_var_verb env))
    ∷ ("transform", entry "common" (transform_verb env))
    ∷ ("merge", entry "common" (merge_verb env))
    ∷ ("filter", entry "common" (filter_verb env))
    ∷ ("map", entry "common" (map_verb env))
    ∷ ("assert", entry "common" (assert_verb env))
    ∷ ("error", entry "common" error_verb)
    ∷ ("log", entry "common" (log_verb env))
    ∷ ("metric_emit", entry "observability" (metric_emit_verb env))
    ∷ (step_type_decision, entry "common" (decision_verb env))
    ∷ (step_type_http_request, entry "external_io_advanced" c.http_request_verb)
    ∷ ("webhook_emit", entry "external_io_advanced" c.webhook_emit_verb)
    ∷ ("wait_duration", entry "waits" (wait_duration_verb env))
    ∷ ("wait_until", entry "waits" (wait_until_verb env))
    ∷ ("wait_for_signal", entry "events_and_signals" (wait_for_signal_verb env))
    ∷ ("wait_for_event", entry "events_and_signals" (wait_for_event_verb env c.sprint))
    ∷ ("emit_signal", entry "events_and_signals" (emit_signal_verb env))
    ∷ (step_type_parallel, entry "parallel_control" (parallel_verb env))
    ∷ (step_type_join, entry "parallel_control" (join_verb env))
    ∷ (step_type_foreach, entry "parallel_control" (foreach_verb env))
    ∷ (step_type_while, entry "loops_and_recovery" (while_verb env))
    ∷ (step_type_switch, entry "common" (switch_verb env))
    ∷ (step_type_try_catch, entry "loops_and_recovery" try_catch_verb)
    ∷ (step_type_sub_saga, entry "compositions" (sub_saga_verb env))
    ∷ ("spawn_saga", entry "compositions" (spawn_saga_verb env))
    ∷ ("manual_approval", entry "human_interaction" (manual_approval_verb env))
    ∷ ("collect_input", entry "human_interaction" (collect_input_verb env))
    ∷ ("cancel", entry "loops_and_recovery" (cancel_verb env))
    ∷ ("emit_event", entry "events_and_signals" c.emit_event_verb)
    ∷ []
