-- ===== src/Runtime.antt =====
-- What the engine and the verbs run on: the store, the messages sent so far, and the services that
-- the source calls but does not implement.
use go_saga_orchestration.Prelude.{
  ℕ, ℤ, suc, Bool, String, Option, none, some, List, [], ◌∷◌, ◌++◌, Map, string_eq, Exec, Result,
  ok, err, Error, ◌>>=◌, pure,
}
use go_saga_orchestration.Domain.{Value, Values, Fields, end, Step, SagaRun, EventType, new_event}
use go_saga_orchestration.Store.{Store}
use go_saga_orchestration.Store.Runs.{append_event}

-- The body of a dispatch: `ActionPayload` and `CompensationPayload` of engine/verbs/action.go.
pub data Payload : Type 0 where
  action_payload : ℕ → String → ℕ → String → String → Fields → Bool → Payload
  compensation_payload : ℕ → String → String → Fields → Bool → Payload

-- What leaves the process: an advance message for a run, or a dispatch over one of the transports
-- with its routing key or address.
pub data Message : Type 0 where
  saga_advance : ℕ → Message
  grpc_dispatch http_dispatch rmq_dispatch : String → Payload → Message

-- The services. What they answer may depend on how many answers were asked for before, so a
-- reading of the clock, a fresh UUID or the fate of a message is free to vary from call to call.
pub record Env : Type 0 where
  -- `uuid.New()`
  pub uuid_at : ℕ → ℕ
  -- `clock.Now()` and `time.Now()`
  pub time_at : ℕ → ℕ
  -- `ctx.Err()`
  pub context_error_at : ℕ → Option Error
  -- the publisher or transport that takes the message: its error, if any
  pub send_error_at : ℕ → Message → Option Error
  -- `Publisher != nil`
  pub has_publisher : Bool
  -- `licensing.Resolver`: tenant, feature, overrides
  pub is_feature_enabled_at : ℕ → Option ℕ → String → Map String Bool → Bool × Option Error
  -- CEL: compile an expression over the names of the variables, and evaluate it on them
  pub eval_cel : String → Fields → Result Value
  -- CEL: compile a text over the names of the variables only
  pub compile_cel : String → Fields → Result (Unit {0})
  -- JSON: decode a list of step objects
  pub parse_steps : Values → Result (List Step)
  -- `err.Error()`
  pub render : Error → String
  -- `fmt` of a number, a UUID and an RFC3339 time
  pub decimal : ℕ → String
  pub uuid_text : ℕ → String
  pub rfc3339 : ℕ → String
  -- `uuid.Parse`
  pub parse_uuid : String → Option ℕ
  -- `time.ParseDuration`, in nanoseconds, and `time.Parse` of an RFC3339 time
  pub parse_duration : String → Result ℤ
  pub parse_time : String → Result ℕ
  -- SHA-256 of run, step and attempt, in hexadecimal
  pub idempotency_key : ℕ → String → ℕ → String

-- `if err != nil`, for an answer that stands beside its error.
abbrev pub checked : Bool × Option Error → Result Bool
checked (b, none) = ok b
checked (b, some e) = err e

pub record World : Type 0 where
  pub store : Store
  -- how many answers the services have given
  pub clock : ℕ
  -- the messages that were sent, oldest first
  pub outbox : List Message

unfoldable pub tick : Exec World ℕ
tick w = (ok w.clock, record w { clock = suc w.clock })

unfoldable pub now : Env → Exec World ℕ
unfolding tick
now env = do n ← tick; pure (env.time_at n)

unfoldable pub fresh : Env → Exec World ℕ
unfolding tick
fresh env = do n ← tick; pure (env.uuid_at n)

unfoldable pub on_store : {A : Type 0} → Exec Store A → Exec World A
on_store m w = let (r, s) = m w.store in (r, record w { store = s })

-- `evt := domain.NewEvent(…); evt.Metadata = …; _ = store.AppendEvent(ctx, evt)`
unfoldable pub emit_with : Env → Fields → ℕ → String → ℕ → EventType → String → Exec World Unit
unfolding fresh now on_store append_event new_event
emit_with env metadata run_id step_id attempt event_type actor = do
  id ← fresh env
  t ← now env
  on_store (
      append_event
        (record (new_event id t run_id step_id attempt event_type actor) { metadata = metadata }))

-- `_ = store.AppendEvent(ctx, domain.NewEvent(…))`
unfoldable pub emit : Env → ℕ → String → ℕ → EventType → String → Exec World Unit
unfolding emit_with
emit env run_id step_id attempt event_type actor =
    emit_with env end run_id step_id attempt event_type actor

abbrev sent : Option Error → Result (Unit {0})
sent none = ok tt
sent (some e) = err e

unfoldable pub send : Env → Message → Exec World Unit
send env m w = (
  sent (env.send_error_at w.clock m),
  record w { clock = suc w.clock; outbox = w.outbox ++ m ∷ [] },
)

-- `engine/verbs/action.go`: the dependencies that an action verb holds. A missing store and missing
-- dispatchers are those of Go's zero value.
pub record ActionVerb : Type 0 where
  pub has_store : Bool
  pub has_publisher : Bool
  pub has_http_dispatcher : Bool
  pub has_rmq_dispatcher : Bool

-- `verbs.Handler`: compensation asks whether the registered handler is an action verb.
pub data Handler : Type 0 where
  action_handler : ActionVerb → Handler
  handler_func : (SagaRun → Step → Exec World Fields) → Handler

pub record RegistryEntry : Type 0 where
  pub handler : Handler
  pub license_group : String

pub record Coordinator : Type 0 where
  pub env : Env
  pub verbs : Map String RegistryEntry
