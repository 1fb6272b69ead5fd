-- ===== src/Verbs/Action/Silent.antt =====
-- A dispatch leaves the store as it is.
use go_saga_orchestration.Prelude.{
  ℕ, refl, Bool, not, ◌||◌, String, Option, none, some, [], ◌∷◌, errorf, wrapping, ◌==◌, string_eq,
  is_some, cut_dot,
}
use go_saga_orchestration.Domain.{Fields, transport_grpc, transport_http, transport_rmq}
use go_saga_orchestration.Store.Actions.{list_actions}
use go_saga_orchestration.Runtime.{
  Env, Payload, Message, ActionVerb, send, compensation_payload, grpc_dispatch, http_dispatch,
  rmq_dispatch,
}
use go_saga_orchestration.Verbs.Action.{
  check_action, dispatch, dispatch_compensation, resolve_dispatch, resolve_parts, split_action,
  descriptor, best_registration, deliver, deliver_grpc, deliver_http, deliver_rmq,
}
use go_saga_orchestration.Store.{Store}
use go_saga_orchestration.Engine.Steady.{Steady}
use go_saga_orchestration.Engine.Keeps.{
  Silent, Silent-Steady, bind-Keeps, pure-Keeps, raise-Keeps, if-Keeps, wrapping-Keeps, send-Keeps,
  read-Keeps,
}

abbrev whole : Store → Store
whole s = s

pub check_action-Silent :
    (empty malformed action : String) → Silent (check_action empty malformed action)
unfolding check_action
check_action-Silent empty malformed action =
    if-Keeps whole (action == "") (raise-Keeps whole (errorf (empty ∷ []))) (
      if-Keeps whole (not (is_some (cut_dot action)))
        (raise-Keeps whole (errorf (malformed ∷ action ∷ []))) (pure-Keeps whole tt))

resolve_parts-Silent : (v : ActionVerb) (p : Option (String × String)) → Silent (resolve_parts v p)
unfolding list_actions
resolve_parts-Silent v none = pure-Keeps whole ("", "")
resolve_parts-Silent v (some (service, name)) =
    if-Keeps whole (not v.has_store) (pure-Keeps whole ("", "")) (
      bind-Keeps whole
        (read-Keeps whole (list_actions (record { service = service; search = ""; category = "" }))
          (λ s. refl))
        λ regs. pure-Keeps whole (descriptor (best_registration name none regs)))

sending-Silent : (env : Env) (t : String) (m : Message) → Silent (wrapping (t ∷ []) (send env m))
sending-Silent env t m = wrapping-Keeps whole (t ∷ []) (send-Keeps whole env m)

grpc-Silent :
    (env : Env) (v : ActionVerb) (action : String) (b : Payload)
    → Silent (deliver_grpc env v action b)
unfolding deliver_grpc
grpc-Silent env v action b =
    if-Keeps whole (not v.has_publisher) (pure-Keeps whole tt)
      (sending-Silent env "action: grpc dispatch: %w" (grpc_dispatch action b))

http-Silent :
    (env : Env) (v : ActionVerb) (action address : String) (b : Payload)
    → Silent (deliver_http env v action address b)
unfolding deliver_http
http-Silent env v action address b =
    if-Keeps whole (address == "")
      (raise-Keeps whole (errorf ("action %q: transport http requires an address" ∷ action ∷ [])))
      (if-Keeps whole (not v.has_http_dispatcher)
        (raise-Keeps whole (errorf ("action %q: transport http not supported" ∷ action ∷ [])))
        (sending-Silent env "action: http dispatch: %w" (http_dispatch address b)))

rmq-Silent :
    (env : Env) (v : ActionVerb) (action address : String) (b : Payload)
    → Silent (deliver_rmq env v action address b)
unfolding deliver_rmq
rmq-Silent env v action address b =
    if-Keeps whole (address == "")
      (raise-Keeps whole (errorf ("action %q: transport rmq requires an address" ∷ action ∷ [])))
      (if-Keeps whole (not v.has_rmq_dispatcher)
        (raise-Keeps whole (errorf ("action %q: transport rmq not supported" ∷ action ∷ [])))
        (sending-Silent env "action: rmq dispatch: %w" (rmq_dispatch address b)))

deliver-Silent :
    (env : Env) (v : ActionVerb) (action : String) (b : Payload) (t : String × String)
    → Silent (deliver env v action b t)
deliver-Silent env v action b (transport, address) =
    if-Keeps whole ((transport == "") || (transport == transport_grpc)) (grpc-Silent env v action b)
      (if-Keeps whole (transport == transport_http) (http-Silent env v action address b) (
        if-Keeps whole (transport == transport_rmq) (rmq-Silent env v action address b) (
          raise-Keeps whole
            (errorf ("action %q: unknown transport %q" ∷ action ∷ transport ∷ [])))))

pub dispatch-Silent :
    (env : Env) (v : ActionVerb) (action : String) (b : Payload) → Silent (dispatch env v action b)
unfolding dispatch resolve_dispatch
dispatch-Silent env v action b =
    bind-Keeps whole (resolve_parts-Silent v (split_action action)) (deliver-Silent env v action b)

pub dispatch_compensation-Silent :
    (env : Env) (v : ActionVerb) (id : ℕ) (step_id action : String) (inputs : Fields) (dry : Bool)
    → Silent (dispatch_compensation env v id step_id action inputs dry)
unfolding dispatch_compensation
dispatch_compensation-Silent env v id step_id action inputs dry =
    bind-Keeps whole (check_action-Silent _ _ action)
      (λ u. dispatch-Silent env v action (compensation_payload id step_id action inputs dry))

pub dispatch_compensation-Steady :
    (env : Env) (v : ActionVerb) (id : ℕ) (step_id action : String) (inputs : Fields) (dry : Bool)
    → Steady (dispatch_compensation env v id step_id action inputs dry)
dispatch_compensation-Steady env v id step_id action inputs dry =
    Silent-Steady (dispatch_compensation-Silent env v id step_id action inputs dry)
