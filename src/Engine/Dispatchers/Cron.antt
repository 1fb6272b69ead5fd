-- ===== src/Engine/Dispatchers/Cron.antt =====
-- One poll of the cron dispatcher: engine/cron_dispatcher.go, fireDue and startRun. The loop of Run
-- waits, polls, and ends with its context.
pub mod Once
use go_saga_orchestration.Prelude.{
  ℕ, ◌+◌, ℤ, pos, Bool, true, false, not, ◌&&◌, String, Option, none, some, List, [], ◌∷◌,
  string_eq, ◌==◌, Exec, Result, ok, err, Error, pure, raise, lift, outcome, ignoring,
  is_nonpositive, pos_part, ◌>>=◌, ◌>>◌, if◌then◌else◌,
}
use go_saga_orchestration.Domain.{
  Fields, end, get, as_string, as_fields, WorkflowDefinition, resolve_entry, SagaTrigger,
}
use go_saga_orchestration.Store.Definitions.{get_published_workflow_by_id}
use go_saga_orchestration.Store.Triggers.{list_due_cron_triggers, record_trigger_fire}
use go_saga_orchestration.Store.Actions.{claim_cron_fire}
use go_saga_orchestration.Runtime.{Env, World, tick, now, fresh, on_store, send, saga_advance}
use go_saga_orchestration.Engine.Dispatchers.Startup.{Provider, create_triggered}
use go_saga_orchestration.Engine.Dispatchers.Triggers.{
  keep_first, return_first, fields_or_nil, text_at, publish_start, record_fire,
}

-- `CronDispatcher`, with `ParseSchedule`, the standard cron expressions of a library: the next time
-- of a schedule behind a time.
pub record CronDispatcher : Type 0 where
  pub providers : List Provider
  pub parse_schedule : String → Result (ℕ → ℕ)

abbrev feature_cron_triggers : String
feature_cron_triggers = "wf.cron_triggers"

abbrev after_interval : ℕ → Result ℤ → Option ℕ
after_interval t (err e) = none
after_interval t (ok d) = if is_nonpositive d then none else some (t + pos_part d)

abbrev after_schedule : ℕ → Result (ℕ → ℕ) → Option ℕ
after_schedule t (err e) = none
after_schedule t (ok next) = some (next t)

-- The next fire time, by the interval or else by the schedule; none where that is invalid.
unfoldable pub next_fire : Env → CronDispatcher → ℕ → SagaTrigger → Option ℕ
next_fire env d t tr =
    let interval = text_at "interval" tr.config in
    if not (interval == "")
    then after_interval t (env.parse_duration interval)
    else after_schedule t (d.parse_schedule (text_at "schedule" tr.config))

unfoldable pub start_run : Env → CronDispatcher → SagaTrigger → Exec World Unit
unfolding on_store now fresh send get_published_workflow_by_id resolve_entry create_triggered
    record_trigger_fire
start_run env d tr = do
  def ← on_store (get_published_workflow_by_id tr.workflow_id tr.tenant_id)
  start_step ← lift (resolve_entry def (text_at "entrypoint" tr.config))
  run_id ←
      create_triggered env d.providers def tr.tenant_id
        (fields_or_nil (as_fields (get "input" tr.config))) start_step tr.id
  publish_start env run_id
  record_fire env tr run_id

-- The answer of the license check counts, whether or not an error stands beside it.
abbrev pub start_licensed :
    Env → CronDispatcher → SagaTrigger → Bool × Option Error → Exec World Unit
start_licensed env d tr (true, e) = start_run env d tr
start_licensed env d tr (false, e) = pure tt

abbrev pub start_won : Env → CronDispatcher → SagaTrigger → Bool → Exec World Unit
start_won env d tr false = pure tt
start_won env d tr true = do
  n ← tick
  start_licensed env d tr (env.is_feature_enabled_at n tr.tenant_id feature_cron_triggers [])

-- The claim, and what follows it. The listing has no trigger without a time.
abbrev pub claim_and_start :
    Env → CronDispatcher → SagaTrigger → Option ℕ → Option ℕ → Exec World Unit
claim_and_start env d tr none expected = pure tt
claim_and_start env d tr (some next) none = pure tt
claim_and_start env d tr (some next) (some expected) = do
  won ← on_store (claim_cron_fire tr.id expected next)
  start_won env d tr won

-- One due trigger: an error is one that fireDue keeps.
unfoldable pub fire_trigger : Env → CronDispatcher → ℕ → SagaTrigger → Exec World Unit
unfolding next_fire on_store claim_cron_fire tick start_run
fire_trigger env d t tr = claim_and_start env d tr (next_fire env d t tr) tr.next_fire_at

unfoldable pub fire_each :
    Env → CronDispatcher → ℕ → List SagaTrigger → Option Error → Exec World (Option Error)
unfolding fire_trigger
fire_each env d t [] first = pure first
fire_each env d t (tr ∷ rest) first = do
  r ← outcome (fire_trigger env d t tr)
  fire_each env d t rest (keep_first first r)

unfoldable pub fire_due : Env → CronDispatcher → Exec World Unit
unfolding now on_store list_due_cron_triggers fire_each
fire_due env d = do
  t ← now env
  triggers ← on_store (list_due_cron_triggers t (pos 100))
  first ← fire_each env d t triggers none
  return_first first
