-- ===== src/Verbs/Action.antt =====
-- The action verb and its dispatch over a transport: engine/verbs/action.go. Encoding a payload as
-- JSON does not fail, since payloads hold JSON values only.
pub mod Silent
use go_saga_orchestration.Prelude.{
  ℕ, ◌+◌, Bool, not, ◌||◌, String, Option, none, some, List, [], ◌∷◌, ltb, is_some, Exec, errorf,
  raise, pure, wrapping, ◌>>=◌, ◌>>◌, ◌==◌, string_eq, cut_dot, if◌then◌else◌, saga_paused,
}
use go_saga_orchestration.Domain.{
  Fields, SagaRun, Step, ActionRegistration, transport_grpc, transport_http, transport_rmq,
}
use go_saga_orchestration.Store.Actions.{mark_awaiting_action, list_actions}
use go_saga_orchestration.Runtime.{
  Env, World, Payload, action_payload, compensation_payload, grpc_dispatch, http_dispatch,
  rmq_dispatch, on_store, send, ActionVerb,
}

abbrev both_parts : Option (String × String) → Option (String × String)
both_parts none = none
both_parts (some (service, name)) =
    if (service == "") || (name == "") then none else some (service, name)

-- The service before the first dot and the name behind it, neither of them empty.
unfoldable pub split_action : String → Option (String × String)
unfolding cut_dot
split_action action = both_parts (cut_dot action)

abbrev newer : ActionRegistration → Option ActionRegistration → ActionRegistration
newer reg none = reg
newer reg (some best) = if ltb best.version reg.version then reg else best

-- The loop for the highest version among the registrations of the name.
unfoldable pub best_registration :
    String → Option ActionRegistration → List ActionRegistration → Option ActionRegistration
best_registration name best [] = best
best_registration name best (reg ∷ rest) =
    best_registration name (if reg.action_name == name then some (newer reg best) else best) rest

abbrev pub descriptor : Option ActionRegistration → String × String
descriptor none = ("", "")
descriptor (some reg) = (reg.transport, reg.address)

abbrev pub descriptor_of :
    String → Exec World (List ActionRegistration) → Exec World (String × String)
descriptor_of name listed = do regs ← listed; pure (descriptor (best_registration name none regs))

abbrev pub resolve_parts : ActionVerb → Option (String × String) → Exec World (String × String)
resolve_parts v none = pure ("", "")
resolve_parts v (some (service, name)) =
    if not v.has_store
    then pure ("", "")
    else descriptor_of name
        (on_store (list_actions (record { service = service; search = ""; category = "" })))

-- The transport and address of the latest registration. An unregistered action has neither.
unfoldable pub resolve_dispatch : ActionVerb → String → Exec World (String × String)
unfolding best_registration on_store list_actions
resolve_dispatch v action = resolve_parts v (split_action action)

unfoldable pub deliver_http : Env → ActionVerb → String → String → Payload → Exec World Unit
deliver_http env v action address body =
    if address == ""
    then raise (errorf ("action %q: transport http requires an address" ∷ action ∷ []))
    else if not v.has_http_dispatcher
    then raise (errorf ("action %q: transport http not supported" ∷ action ∷ []))
    else wrapping ("action: http dispatch: %w" ∷ []) (send env (http_dispatch address body))

unfoldable pub deliver_rmq : Env → ActionVerb → String → String → Payload → Exec World Unit
deliver_rmq env v action address body =
    if address == ""
    then raise (errorf ("action %q: transport rmq requires an address" ∷ action ∷ []))
    else if not v.has_rmq_dispatcher
    then raise (errorf ("action %q: transport rmq not supported" ∷ action ∷ []))
    else wrapping ("action: rmq dispatch: %w" ∷ []) (send env (rmq_dispatch address body))

unfoldable pub deliver_grpc : Env → ActionVerb → String → Payload → Exec World Unit
deliver_grpc env v action body =
    if not v.has_publisher
    then pure tt
    else wrapping ("action: grpc dispatch: %w" ∷ []) (send env (grpc_dispatch action body))

abbrev pub deliver : Env → ActionVerb → String → Payload → String × String → Exec World Unit
deliver env v action body (transport, address) =
    if (transport == "") || (transport == transport_grpc)
    then deliver_grpc env v action body
    else if transport == transport_http
    then deliver_http env v action address body
    else if transport == transport_rmq
    then deliver_rmq env v action address body
    else raise (errorf ("action %q: unknown transport %q" ∷ action ∷ transport ∷ []))

unfoldable pub dispatch : Env → ActionVerb → String → Payload → Exec World Unit
unfolding resolve_dispatch deliver_grpc deliver_http deliver_rmq send
dispatch env v action body = do target ← resolve_dispatch v action; deliver env v action body target

unfoldable pub check_action : String → String → String → Exec World Unit
check_action empty malformed action =
    if action == ""
    then raise (errorf (empty ∷ []))
    else if not (is_some (cut_dot action))
    then raise (errorf (malformed ∷ action ∷ []))
    else pure tt

-- Marks the run as awaiting the next attempt, dispatches it, and pauses.
unfoldable pub action_verb : Env → ActionVerb → SagaRun → Step → Exec World Fields
unfolding check_action on_store dispatch
action_verb env v run step = do
  check_action "action: step.Action required (format service.name)"
      "action: bad format %q (want service.name)" step.action
  wrapping ("action: mark awaiting: %w" ∷ [])
      (on_store (mark_awaiting_action run.id step.action (run.current_attempt + 1)))
  dispatch env v step.action (
      action_payload run.id step.id (run.current_attempt + 1)
        (env.idempotency_key run.id step.id (run.current_attempt + 1)) step.action step.inputs
        run.dry_run)
  raise saga_paused

-- A dispatch that is not awaited: the run is neither marked nor paused.
unfoldable pub dispatch_compensation :
    Env → ActionVerb → ℕ → String → String → Fields → Bool → Exec World Unit
unfolding check_action dispatch
dispatch_compensation env v run_id step_id action inputs dry_run = do
  check_action "compensation: action required (format service.name)"
      "compensation: bad action format %q (want service.name)" action
  dispatch env v action (compensation_payload run_id step_id action inputs dry_run)
