-- ===== src/Engine/Compensation/Order.antt =====
-- The order in which a rollback dispatches its compensations.
use go_saga_orchestration.Verbs.Action.Silent.{dispatch_compensation-Silent}
use go_saga_orchestration.Store.Actions.{action_passes, all_versions, list_actions}
use go_saga_orchestration.Prelude.{
  ◌≡◌, refl, sym, ◌∙◌, ap, not, ◌||◌, String, Option, none, some, List, [], ◌∷◌, ◌++◌, reverse,
  lookup, string_eq, ◌==◌, is_some, cut_dot, nat_eq, ok, Bool-cases, inl, inr, if◌then◌else◌,
  select,
}
use mathlib.Core.List.{append-nil, append_assoc}
use go_saga_orchestration.Domain.{
  SagaRun, Step, WorkflowDefinition, Compensation, step_type_action, transport_grpc, transport_http,
  transport_rmq,
}
use go_saga_orchestration.Runtime.{
  Env, World, Coordinator, ActionVerb, Message, grpc_dispatch, compensation_payload, send, emit,
  emit_with, fresh, now, tick, on_store, Payload, http_dispatch, rmq_dispatch,
}
use go_saga_orchestration.Verbs.Action.{
  dispatch_compensation, check_action, dispatch, resolve_dispatch, deliver_grpc, split_action,
  descriptor, best_registration, resolve_parts, deliver, deliver_http, deliver_rmq,
}
use go_saga_orchestration.Engine.Compensation.{
  compensate_steps, compensate_step, compensate, compensate_completed, completed_steps,
  completed_compensable_steps, action_verb_of,
}
use go_saga_orchestration.Engine.Compensation.Rollback.{IsLive}
use go_saga_orchestration.Store.{rows, Store}
use go_saga_orchestration.Store.Runs.{append_event, update_run_state, list_events_by_run}

-- The transport and address that the latest registration of the action names in the store.
abbrev pub target_of : ActionVerb → Store → Option (String × String) → String × String
target_of v s none = ("", "")
target_of v s (some (service, name)) =
    if not v.has_store
    then ("", "")
    else descriptor (
        best_registration name none (
          select (action_passes (record { service = service; search = ""; category = "" }))
            (all_versions s.actions)))

-- The message for the target: none where it names no address or a transport that is not wired.
abbrev pub sent_to : ActionVerb → String → Payload → String × String → List Message
sent_to v action body (transport, address) =
    if (transport == "") || (transport == transport_grpc)
    then (if v.has_publisher then grpc_dispatch action body ∷ [] else [])
    else if transport == transport_http
    then (if (address == "") || not v.has_http_dispatcher
        then []
        else http_dispatch address body ∷ [])
    else if transport == transport_rmq
    then (if (address == "") || not v.has_rmq_dispatcher
        then []
        else rmq_dispatch address body ∷ [])
    else []

-- The message of a step: none where it has no compensation or a malformed one.
abbrev messages_of : ActionVerb → Store → SagaRun → Step → Option Compensation → List Message
messages_of v s run step none = []
messages_of v s run step (some comp) =
    if comp.action == "" || not (is_some (cut_dot comp.action))
    then []
    else sent_to v comp.action
        (compensation_payload run.id step.id comp.action comp.inputs run.dry_run)
        (target_of v s (split_action comp.action))

unfoldable pub messages : ActionVerb → Store → SagaRun → List Step → List Message
unfolding action_passes best_registration split_action
messages v s run [] = []
messages v s run (step ∷ rest) = messages_of v s run step step.compensation ++ messages v s run rest

resolve_parts-target :
    (v : ActionVerb) (parts : Option (String × String)) (w : World)
    → resolve_parts v parts w ≡ (ok (target_of v w.store parts), w)
unfolding on_store list_actions
resolve_parts-target v none w = refl
resolve_parts-target v (some (service, name)) w = elim (Bool-cases v.has_store) [
  | inl stored ↦ rw stored refl
  | inr bare ↦ rw bare refl
]

deliver-outbox :
    (env : Env) (v : ActionVerb) (action : String) (body : Payload) (t : String × String)
    (w : World)
    → (deliver env v action body t w).1.outbox ≡ w.outbox ++ sent_to v action body t
unfolding deliver_grpc deliver_http deliver_rmq send
deliver-outbox env v action body (transport, address) w =
    elim (Bool-cases ((transport == "") || (transport == transport_grpc))) [
      | inl grpc ↦ elim (Bool-cases v.has_publisher) [
        | inl wired ↦ rw (grpc, wired) refl
        | inr bare ↦ rw (grpc, bare) (sym (append-nil w.outbox))
      ]
      | inr other ↦ elim (Bool-cases (transport == transport_http)) [
        | inl http ↦ elim (Bool-cases (address == "")) [
          | inl blank ↦ rw (other, http, blank) (sym (append-nil w.outbox))
          | inr named ↦ elim (Bool-cases v.has_http_dispatcher) [
            | inl wired ↦ rw (other, http, named, wired) refl
            | inr bare ↦ rw (other, http, named, bare) (sym (append-nil w.outbox))
          ]
        ]
        | inr not_http ↦ elim (Bool-cases (transport == transport_rmq)) [
          | inl rmq ↦ elim (Bool-cases (address == "")) [
            | inl blank ↦ rw (other, not_http, rmq, blank) (sym (append-nil w.outbox))
            | inr named ↦ elim (Bool-cases v.has_rmq_dispatcher) [
              | inl wired ↦ rw (other, not_http, rmq, named, wired) refl
              | inr bare ↦ rw (other, not_http, rmq, named, bare) (sym (append-nil w.outbox))
            ]
          ]
          | inr unknown ↦ rw (other, not_http, unknown) (sym (append-nil w.outbox))
        ]
      ]
    ]

dispatch-outbox :
    (env : Env) (v : ActionVerb) (action : String) (body : Payload) (w : World)
    → (dispatch env v action body w).1.outbox
      ≡ w.outbox ++ sent_to v action body (target_of v w.store (split_action action))
unfolding dispatch resolve_dispatch
dispatch-outbox env v action body w =
    rw (resolve_parts-target v (split_action action) w)
      (deliver-outbox env v action body (target_of v w.store (split_action action)) w)

compensate_step-outbox :
    (env : Env) (v : ActionVerb) (run : SagaRun) (step : Step) (o : Option Compensation) (w : World)
    → (compensate_step env v run step o w).1.outbox ≡ w.outbox ++ messages_of v w.store run step o
unfolding dispatch_compensation check_action
compensate_step-outbox env v run step none w = sym (append-nil w.outbox)
compensate_step-outbox env v run step (some comp) w = elim (Bool-cases (comp.action == "")) [
  | inl empty ↦ rw empty (sym (append-nil w.outbox))
  | inr given ↦ elim (Bool-cases (is_some (cut_dot comp.action))) [
    | inl dotted ↦
        rw (given, dotted)
          (dispatch-outbox env v comp.action
            (compensation_payload run.id step.id comp.action comp.inputs run.dry_run) w)
    | inr plain ↦ rw (given, plain) (sym (append-nil w.outbox))
  ]
]

compensate_step-store :
    (env : Env) (v : ActionVerb) (run : SagaRun) (step : Step) (o : Option Compensation) (w : World)
    → (compensate_step env v run step o w).1.store ≡ w.store
compensate_step-store env v run step none w = refl
compensate_step-store env v run step (some comp) w =
    (dispatch_compensation-Silent env v run.id step.id comp.action comp.inputs run.dry_run).keeps w

-- A rollback sends the message of each step with a compensation, in the order of the list, and goes on
-- after one that could not be sent.
pub compensate_steps-outbox :
    (env : Env) (v : ActionVerb) (run : SagaRun) (steps : List Step) (w : World)
    → (compensate_steps env v run steps w).1.outbox ≡ w.outbox ++ messages v w.store run steps
unfolding compensate_steps messages
compensate_steps-outbox env v run [] w = sym (append-nil w.outbox)
compensate_steps-outbox env v run (step ∷ rest) w =
    let w' = (compensate_step env v run step step.compensation w).1 in
    compensate_steps-outbox env v run rest w'
    ∙ ap (λ s. w'.outbox ++ messages v s run rest)
        (compensate_step-store env v run step step.compensation w)
    ∙ ap (λ l. l ++ messages v w.store run rest)
        (compensate_step-outbox env v run step step.compensation w)
    ∙ append_assoc w.outbox (messages_of v w.store run step step.compensation)
        (messages v w.store run rest)

messages-actions :
    (v : ActionVerb) (s s' : Store) (run : SagaRun) (steps : List Step)
    → s'.actions ≡ s.actions
    → messages v s' run steps ≡ messages v s run steps
unfolding messages
messages-actions v s s' run [] same = refl
messages-actions v s s' run (step ∷ rest) same =
    rw (messages-actions v s s' run rest same)
      (ap (λ l. l ++ messages v s run rest) (of_step step.compensation))
  where
    of_step : (o : Option Compensation) → messages_of v s' run step o ≡ messages_of v s run step o
    of_step none = refl
    of_step (some comp) = rw (at_target (split_action comp.action)) refl
      where
        at_target : (parts : Option (String × String)) → target_of v s' parts ≡ target_of v s parts
        at_target none = refl
        at_target (some (service, name)) = rw same refl

rolled_back :
    (env : Env) (v : ActionVerb) (run : SagaRun) (steps : List Step) (w w' : World)
    → w'.outbox ≡ w.outbox
    → w'.store.actions ≡ w.store.actions
    → (compensate_steps env v run steps w').1.outbox ≡ w.outbox ++ messages v w.store run steps
rolled_back env v run steps w w' unsent same =
    compensate_steps-outbox env v run steps w'
    ∙ ap (λ m. w'.outbox ++ m) (messages-actions v w.store w'.store run steps same)
    ∙ ap (λ l. l ++ messages v w.store run steps) unsent

completed-reversed :
    (c : Coordinator) (run : SagaRun) (step : Step) (l : List Step) (w : World)
    → IsLive run.id w
    → (compensate_completed c run step l w).1.outbox
      ≡ w.outbox
        ++ messages (action_verb_of (lookup step_type_action c.verbs)) w.store run (reverse l)
unfolding emit emit_with fresh now tick on_store append_event update_run_state messages
completed-reversed c run step [] w live = sym (append-nil w.outbox)
completed-reversed c run step (x ∷ l) w live = rw live.stored (
    rolled_back c.env (action_verb_of (lookup step_type_action c.verbs)) run (reverse (x ∷ l)) w _
      refl refl)

-- The rollback of a run that has not ended sends the compensations of the completed steps in the
-- reverse of the order in which they completed, each over the transport of the latest registration of
-- its action, and nothing else; it goes on after one that cannot be sent.
pub compensate-reversed :
    (c : Coordinator) (run : SagaRun) (d : WorkflowDefinition) (step : Step) (w : World)
    → IsLive run.id w
    → (compensate c run d step w).1.outbox
      ≡ w.outbox
        ++ messages
            (action_verb_of (lookup step_type_action c.verbs))
            w.store
            run
            (reverse (completed_steps d step.id [] (rows (lookup run.id w.store.events))))
unfolding compensate completed_compensable_steps list_events_by_run on_store
compensate-reversed c run d step w live =
    completed-reversed c run step
      (completed_steps d step.id [] (rows (lookup run.id w.store.events))) w live
