-- ===== src/Examples.antt =====
-- Concrete workflows, runs and services, and the theorems at work on them.
mod Engines
mod Locks
mod Loops
mod Dispatchers
mod Listings
mod Fans
mod Stores
mod Barriers
use go_saga_orchestration.Engine.Registry.{Wiring, default_verbs}
use go_saga_orchestration.Prelude.{
  ℕ, Bool, true, false, String, Option, none, some, List, [], ◌∷◌, pos, ok, err, errorf, Error,
}
use go_saga_orchestration.Domain.{
  Step, Fields, end, field, str, int, Value, Compensation, Branch, WorkflowDefinition, SagaRun,
  RunState, running, paused, succeeded, failed, pending, step_type_end, step_type_action,
  TryCatchFrame, SagaRunEvent, step_succeeded, UserTask, SagaSignal, SagaTrigger, trigger_cron,
  RetryPolicy, ActionRegistration,
}
use go_saga_orchestration.Store.{Store, new}
use go_saga_orchestration.Runtime.{
  Env, World, Coordinator, RegistryEntry, action_handler, ActionVerb, Handler, handler_func,
}

-- Services that always answer: the clock counts, and every message is taken.
abbrev pub services : Env
services = record {
  uuid_at = λ n. n;
  time_at = λ n. n;
  context_error_at = λ n. none;
  send_error_at = λ n m. none;
  has_publisher = true;
  is_feature_enabled_at = λ n tenant feature overrides. (true, none);
  eval_cel = λ expr vars. err (errorf (expr ∷ []));
  compile_cel = λ expr vars. ok tt;
  parse_steps = λ l. ok [];
  render = λ e. "error";
  decimal = λ n. "0";
  uuid_text = λ n. "uuid";
  rfc3339 = λ n. "time";
  parse_uuid = λ t. none;
  parse_duration = λ t. ok (pos 0);
  parse_time = λ t. ok 0;
  idempotency_key = λ run step attempt. "key";
}

abbrev pub step_of : String → String → String → Option Compensation → Step
step_of id type next compensation = record {
  id = id;
  type = type;
  next = next;
  action = "billing.charge";
  inputs = end;
  compensation = compensation;
  retry = none;
  branches = ("timeout", record { next = "late" }) ∷ [];
}

abbrev pub reserve : Step
reserve =
    step_of "reserve" "action" "charge" (some (record { action = "stock.release"; inputs = end }))

abbrev pub charge : Step
charge =
    step_of "charge" "action" "done" (some (record { action = "billing.refund"; inputs = end }))

abbrev pub approve : Step
approve = step_of "approve" "wait_for_signal" "done" none

-- A step that spawns branches, and its children.
abbrev pub fan : Step
fan = step_of "fan" "parallel" "done" none

abbrev pub done : Step
done = step_of "done" "end" "" none

abbrev pub late : Step
late = step_of "late" "end" "" none

abbrev pub order : WorkflowDefinition
order = record {
  id = "order";
  version = 1;
  tenant_id = none;
  name = "order";
  description = "";
  start = "reserve";
  entrypoints = [];
  steps = reserve ∷ charge ∷ approve ∷ fan ∷ done ∷ late ∷ [];
  published = true;
  created_at = 0;
  created_by = "";
}

abbrev pub run_at : ℕ → RunState → String → SagaRun
run_at id state step_id = record {
  id = id;
  workflow_id = "order";
  definition_id = 7;
  tenant_id = none;
  state = state;
  current_step = step_id;
  inputs = end;
  variables = end;
  started_at = 0;
  last_event_at = 0;
  terminal_at = none;
  requires_manual_review = false;
  trigger_id = none;
  parent_run_id = none;
  parent_step_id = none;
  parent_branch_id = none;
  try_catch_stack = [];
  dry_run = false;
  wakeup_at = none;
  awaited_signal = none;
  awaited_event_topic = none;
  awaited_event_headers = [];
  feature_overrides = [];
  awaited_action_dispatch = none;
  current_attempt = 0;
  last_error = none;
}

-- Waits for a signal, up to the time 0.
abbrev pub waiting : SagaRun
waiting = record (run_at 1 paused "approve") {
  wakeup_at = some 0;
  awaited_signal = some "approved";
}

-- Waits for a signal, up to the time 100.
abbrev pub early : SagaRun
early = record (run_at 1 paused "approve") {
  wakeup_at = some 100;
  awaited_signal = some "approved";
}

-- Waits for the action that it has dispatched.
abbrev pub dispatched : SagaRun
dispatched = record (run_at 1 paused "charge") {
  awaited_action_dispatch = some "billing.charge";
  current_attempt = 1;
}

abbrev pub frame : TryCatchFrame
frame = record { step_id = "try"; catch_step = "late" }

-- Runs under a try_catch frame.
abbrev pub guarded : SagaRun
guarded = record (run_at 1 running "charge") { try_catch_stack = frame ∷ [] }

abbrev pub event_of : String → SagaRunEvent
event_of step_id = record {
  id = 0;
  run_id = 1;
  step_id = step_id;
  attempt = 0;
  event_type = step_succeeded;
  actor = "engine";
  metadata = end;
  recorded_at = 0;
}

abbrev pub task_of : ℕ → UserTask
task_of id = record {
  id = id;
  run_id = 1;
  step_id = "approve";
  assignee = "";
  due_at = none;
  form_schema = end;
  submitted_at = none;
  submitted_by = "";
  result = end;
}

abbrev pub approval : SagaSignal
approval = record {
  id = 5;
  run_id = 1;
  signal_name = "approved";
  payload = end;
  received_at = 0;
  consumed_at = none;
}

abbrev pub nightly : SagaTrigger
nightly = record {
  id = 3;
  trigger_type = trigger_cron;
  workflow_id = "order";
  version = 1;
  config = end;
  enabled = true;
  tenant_id = none;
  created_at = 0;
  created_by = "";
  next_fire_at = some 10;
  last_fired_at = none;
}

-- A store that holds the run beside another one, with two steps completed.
-- Reservations are released over HTTP.
abbrev by_http : ActionRegistration
by_http = record {
  id = 8;
  service = "stock";
  action_name = "release";
  version = 1;
  category = "";
  compensable = false;
  deprecated = false;
  registered_at = 0;
  license_group = "";
  transport = "http";
  address = "http://stock/release";
}

abbrev pub store_with : SagaRun → Store
store_with r = record new {
  defs = (7, order) ∷ [];
  runs = (r.id, r) ∷ (2, run_at 2 running "reserve") ∷ [];
  events = (1, event_of "reserve" ∷ event_of "charge" ∷ []) ∷ [];
  signals = (1, approval ∷ []) ∷ [];
  user_tasks = (9, task_of 9) ∷ (4, task_of 4) ∷ [];
  triggers = (3, nightly) ∷ [];
  actions = ("stock.release", (1, by_http) ∷ []) ∷ [];
}

abbrev pub world_with : SagaRun → World
world_with r = record { store = store_with r; clock = 0; outbox = [] }

-- A gRPC publisher and an HTTP dispatcher; the clients of the other verbs are offline.
abbrev pub wiring : Wiring
wiring = record {
  has_action_publisher = true;
  has_http_dispatcher = true;
  has_rmq_dispatcher = false;
  sprint = λ v. "";
  http_request_verb = λ run step w. (err (errorf ("offline" ∷ [])), w);
  webhook_emit_verb = λ run step w. (err (errorf ("offline" ∷ [])), w);
  emit_event_verb = λ run step w. (err (errorf ("offline" ∷ [])), w);
}

-- As the program builds it.
abbrev pub coordinator : Coordinator
coordinator = record { env = services; verbs = default_verbs services wiring }

abbrev pub boom : Error
boom = errorf ("boom" ∷ [])

-- Fails, and writes nothing.
abbrev pub failing : Handler
failing = handler_func (λ run step w. (err boom, w))

abbrev pub policy : RetryPolicy
policy = record {
  max_attempts = 3;
  initial_backoff_ms = 1000;
  max_backoff_ms = 3000;
  multiplier = 2;
  jitter = false;
}

-- The inputs of a barrier with a quorum.
abbrev pub quorum_of : ℕ → Fields
quorum_of n = field "join_strategy" (str "quorum") (field "quorum_n" (int (pos n)) end)

abbrev pub children : List SagaRun
children = run_at 3 succeeded "" ∷ run_at 4 failed "" ∷ []

-- A parent that waits for its one child.
abbrev pub fanned : SagaRun
fanned = run_at 1 paused "fan"

abbrev pub child : SagaRun
child = record (run_at 3 succeeded "") { parent_run_id = some 1; parent_step_id = some "fan" }

abbrev pub family : World
family = record {
  store = record (store_with fanned) { runs = (1, fanned) ∷ (3, child) ∷ [] };
  clock = 0;
  outbox = [];
}
