-- ===== src/Engine/Dispatchers/Triggers.antt =====
-- The start of runs by record transitions: engine/trigger_dispatcher.go.
use Prim.Native.Char.{code}
use go_saga_orchestration.Prelude.{
  ℕ, Bool, true, false, not, ◌&&◌, String, Option, none, some, List, [], ◌∷◌, string_eq, nat_eq,
  ◌==◌, split_dots, Exec, Result, ok, err, Error, pure, raise, outcome, ignoring, ◌>>=◌, ◌>>◌,
  if◌then◌else◌,
}
use go_saga_orchestration.Domain.{
  Value, str, Fields, end, field, get, put, as_string, as_fields, WorkflowDefinition, resolve_entry,
  SagaTrigger, trigger_record_transition,
}
use go_saga_orchestration.Store.Definitions.{get_published_workflow_by_id}
use go_saga_orchestration.Store.Triggers.{list_triggers, record_trigger_fire}
use go_saga_orchestration.Runtime.{Env, World, now, fresh, on_store, send, saga_advance}
use go_saga_orchestration.Engine.Dispatchers.Startup.{Provider, create_triggered}
use go_saga_orchestration.Engine.Dispatchers.Events.{EventDelivery}

-- `TriggerDispatcher`, with `json.Unmarshal` of a body.
pub record TriggerDispatcher : Type 0 where
  pub providers : List Provider
  pub decode : String → Result Fields

abbrev is_transition : List String → Bool
is_transition (env ∷ a ∷ b ∷ last ∷ []) =
    (a == "record") && (b == "transitioned") && not (last == "")
is_transition _ = false

unfoldable pub is_record_transition_topic : String → Bool
unfolding split_dots
is_record_transition_topic topic = is_transition (split_dots topic)

-- The name behind "$.", for a reference to a field of the body.
unfoldable pub reference : String → Option String
reference (String.◌∷◌ a (String.◌∷◌ b name)) =
    if (code a == b'$') && (code b == b'.') then some name else none
reference _ = none

-- An absent source field leaves the key out.
abbrev put_found : String → Option Value → Fields → Fields
put_found k none out = out
put_found k (some v) out = put k v out

abbrev put_mapped : Fields → String → String → Option String → Fields → Fields
put_mapped body k text none out = put k (str text) out
put_mapped body k text (some name) out = put_found k (get name body) out

unfoldable pub map_entries : Fields → Fields → Fields → Fields
unfolding reference
map_entries body end out = out
map_entries body (field k (str v) rest) out =
    map_entries body rest (put_mapped body k v (reference v) out)
map_entries body (field k raw rest) out = map_entries body rest (put k raw out)

unfoldable pub map_inputs : Fields → Fields → Fields
unfolding map_entries
map_inputs body end = body
map_inputs body (field k v rest) = map_entries body (field k v rest) end

-- `v, _ := m[k].(map[string]any)`
abbrev pub fields_or_nil : Option Fields → Fields
fields_or_nil none = end
fields_or_nil (some m) = m

abbrev pub text_at : String → Fields → String
text_at k m = as_string (get k m)

-- The three texts of the trigger's config are those of the event.
unfoldable pub trigger_matches_event : Fields → SagaTrigger → Bool
trigger_matches_event body trig =
    (text_at "record_type" trig.config == text_at "record_type" body)
    && (text_at "from_state" trig.config == text_at "from_state" body)
    && (text_at "to_state" trig.config == text_at "to_state" body)

-- The trigger's tenant, or else the one that the body names, if it parses.
abbrev tenant_of : Env → Option ℕ → Fields → Option ℕ
tenant_of env (some t) body = some t
tenant_of env none body =
    if text_at "tenant_id" body == "" then none else env.parse_uuid (text_at "tenant_id" body)

abbrev pub publish_start : Env → ℕ → Exec World Unit
publish_start env run_id = if env.has_publisher then send env (saga_advance run_id) else pure tt

abbrev pub record_fire : Env → SagaTrigger → ℕ → Exec World Unit
record_fire env trig run_id = do
  id ← fresh env
  t ← now env
  ignoring (on_store (record_trigger_fire id t trig.id trig.workflow_id (some run_id) ""))

-- The start behind the entry; an invalid entry is logged only.
abbrev start_at_entry :
    Env
    → List Provider
    → SagaTrigger
    → Option ℕ
    → Fields
    → WorkflowDefinition
    → Result String
    → Exec World Unit
start_at_entry env providers trig tenant inputs def (err e) = pure tt
start_at_entry env providers trig tenant inputs def (ok start_step) = do
  run_id ← create_triggered env providers def tenant inputs start_step trig.id
  publish_start env run_id
  record_fire env trig run_id

abbrev start_found :
    Env
    → List Provider
    → SagaTrigger
    → Option ℕ
    → Fields
    → Result WorkflowDefinition
    → Exec World Unit
start_found env providers trig tenant inputs (err e) = pure tt
start_found env providers trig tenant inputs (ok def) =
    start_at_entry env providers trig tenant inputs def
      (resolve_entry def (text_at "entrypoint" trig.config))

-- One trigger: an error is one that Dispatch keeps.
unfoldable pub start_for : Env → TriggerDispatcher → Fields → SagaTrigger → Exec World Unit
unfolding on_store now fresh send get_published_workflow_by_id resolve_entry create_triggered
    record_trigger_fire trigger_matches_event map_inputs
start_for env d body trig = if not (trigger_matches_event body trig) then pure tt else do
  let tenant = tenant_of env trig.tenant_id body
  found ← outcome (on_store (get_published_workflow_by_id trig.workflow_id tenant))
  start_found env d.providers trig tenant
      (map_inputs body (fields_or_nil (as_fields (get "input_mapping" trig.config)))) found

abbrev pub keep_first : Option Error → Result (Unit {0}) → Option Error
keep_first (some e) r = some e
keep_first none (ok u) = none
keep_first none (err e) = some e

-- The loop over the triggers goes on after an error, and keeps the first one.
unfoldable pub start_each :
    Env → TriggerDispatcher → Fields → List SagaTrigger → Option Error → Exec World (Option Error)
unfolding start_for
start_each env d body [] first = pure first
start_each env d body (trig ∷ rest) first = do
  r ← outcome (start_for env d body trig)
  start_each env d body rest (keep_first first r)

abbrev pub return_first : Option Error → Exec World Unit
return_first none = pure tt
return_first (some e) = raise e

abbrev dispatch_body : Env → TriggerDispatcher → Result Fields → Exec World Unit
dispatch_body env d (err e) = pure tt
dispatch_body env d (ok body) = do
  triggers ← on_store (
      list_triggers
        (record { type = trigger_record_transition; enabled = some true; tenant_id = none }))
  first ← start_each env d body triggers none
  return_first first

unfoldable pub dispatch_event : Env → TriggerDispatcher → EventDelivery → Exec World Unit
unfolding is_record_transition_topic on_store list_triggers start_each
dispatch_event env d evt =
    if not (is_record_transition_topic evt.topic)
    then pure tt
    else dispatch_body env d (d.decode evt.body)
