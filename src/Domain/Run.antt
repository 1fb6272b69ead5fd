-- ===== src/Domain/Run.antt =====
-- domain/run.go and domain/event.go: one execution of a workflow, and its audit trail.
use go_saga_orchestration.Prelude.{ℕ, Bool, true, false, String, Option, none, List, [], Map}
use go_saga_orchestration.Domain.Dynamic.{Fields, end}

pub data RunState : Type 0 where
  pending running paused compensating succeeded failed cancelled : RunState

abbrev pub is_terminal : RunState → Bool
is_terminal = elim [ succeeded ↦ true | failed ↦ true | cancelled ↦ true | _ ↦ false ]

abbrev pub is_succeeded : RunState → Bool
is_succeeded = elim [ succeeded ↦ true | _ ↦ false ]

abbrev pub is_failed : RunState → Bool
is_failed = elim [ failed ↦ true | _ ↦ false ]

abbrev pub is_pending : RunState → Bool
is_pending = elim [ pending ↦ true | _ ↦ false ]

abbrev pub is_paused_state : RunState → Bool
is_paused_state = elim [ paused ↦ true | _ ↦ false ]

abbrev pub is_compensating : RunState → Bool
is_compensating = elim [ compensating ↦ true | _ ↦ false ]

-- `string(state)`
abbrev pub state_text : RunState → String
state_text pending = "pending"
state_text running = "running"
state_text paused = "paused"
state_text compensating = "compensating"
state_text succeeded = "succeeded"
state_text failed = "failed"
state_text cancelled = "cancelled"

pub record TryCatchFrame : Type 0 where
  pub step_id : String
  pub catch_step : String

pub record SagaRun : Type 0 where
  pub id : ℕ
  pub workflow_id : String
  pub definition_id : ℕ
  pub tenant_id : Option ℕ
  pub state : RunState
  pub current_step : String
  pub inputs : Fields
  pub variables : Fields
  pub started_at : ℕ
  pub last_event_at : ℕ
  pub terminal_at : Option ℕ
  pub requires_manual_review : Bool
  pub trigger_id : Option ℕ
  pub parent_run_id : Option ℕ
  pub parent_step_id : Option String
  pub parent_branch_id : Option String
  -- The last frame of the slice, the innermost one, is the head of this list.
  pub try_catch_stack : List TryCatchFrame
  pub dry_run : Bool
  pub wakeup_at : Option ℕ
  pub awaited_signal : Option String
  pub awaited_event_topic : Option String
  pub awaited_event_headers : Map String String
  pub feature_overrides : Map String Bool
  pub awaited_action_dispatch : Option String
  pub current_attempt : ℕ
  pub last_error : Option String

-- The fresh id and the time are arguments.
unfoldable pub new_saga_run : ℕ → ℕ → String → ℕ → Option ℕ → Fields → SagaRun
new_saga_run id now workflow_id definition_id tenant_id inputs = record {
  id = id;
  workflow_id = workflow_id;
  definition_id = definition_id;
  tenant_id = tenant_id;
  state = pending;
  current_step = "";
  inputs = inputs;
  variables = end;
  started_at = now;
  last_event_at = now;
  terminal_at = none;
  requires_manual_review = false;
  trigger_id = none;
  parent_run_id = none;
  parent_step_id = none;
  parent_branch_id = none;
  try_catch_stack = [];
  dry_run = false;
  wakeup_at = none;
  awaited_signal = none;
  awaited_event_topic = none;
  awaited_event_headers = [];
  feature_overrides = [];
  awaited_action_dispatch = none;
  current_attempt = 0;
  last_error = none;
}

pub data EventType : Type 0 where
  saga_started step_dispatched step_started step_succeeded step_failed step_skipped : EventType
  step_paused run_succeeded run_failed run_cancelled compensation_started : EventType
  log metric rule_evaluated license_gate_rejected : EventType

abbrev pub is_step_succeeded : EventType → Bool
is_step_succeeded = elim [ step_succeeded ↦ true | _ ↦ false ]

pub record SagaRunEvent : Type 0 where
  pub id : ℕ
  pub run_id : ℕ
  pub step_id : String
  pub attempt : ℕ
  pub event_type : EventType
  pub actor : String
  pub metadata : Fields
  pub recorded_at : ℕ

-- The fresh id and the time are arguments.
unfoldable pub new_event : ℕ → ℕ → ℕ → String → ℕ → EventType → String → SagaRunEvent
new_event id now run_id step_id attempt event_type actor = record {
  id = id;
  run_id = run_id;
  step_id = step_id;
  attempt = attempt;
  event_type = event_type;
  actor = actor;
  metadata = end;
  recorded_at = now;
}
