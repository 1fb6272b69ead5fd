-- ===== src/Domain/Definition.antt =====
-- domain/definition.go: a workflow as a graph of steps.
use go_saga_orchestration.Prelude.{
  ℕ, Bool, ◌||◌, String, Option, none, some, List, [], ◌∷◌, Map, lookup, ◌==◌, string_eq,
  if◌then◌else◌, Result, ok, err, errorf, required,
}
use go_saga_orchestration.Domain.Dynamic.{Fields}

-- A string in the source, so that embedders may register step types of their own.
abbrev pub StepType : Type 0
StepType = String

abbrev pub step_type_end : StepType
step_type_end = "end"

abbrev pub step_type_action : StepType
step_type_action = "action"

abbrev pub step_type_decision : StepType
step_type_decision = "decision"

abbrev pub step_type_http_request : StepType
step_type_http_request = "http_request"

abbrev pub step_type_parallel : StepType
step_type_parallel = "parallel"

abbrev pub step_type_join : StepType
step_type_join = "join"

abbrev pub step_type_foreach : StepType
step_type_foreach = "foreach"

abbrev pub step_type_while : StepType
step_type_while = "while"

abbrev pub step_type_try_catch : StepType
step_type_try_catch = "try_catch"

abbrev pub step_type_sub_saga : StepType
step_type_sub_saga = "sub_saga"

abbrev pub step_type_switch : StepType
step_type_switch = "switch"

pub record Branch : Type 0 where
  pub next : String

pub record Compensation : Type 0 where
  pub action : String
  pub inputs : Fields

-- Negative settings are not represented; the multiplier is a whole number.
pub record RetryPolicy : Type 0 where
  pub max_attempts : ℕ
  pub initial_backoff_ms : ℕ
  pub max_backoff_ms : ℕ
  pub multiplier : ℕ
  pub jitter : Bool

pub record Step : Type 0 where
  pub id : String
  pub type : StepType
  pub next : String
  pub action : String
  pub inputs : Fields
  pub compensation : Option Compensation
  pub retry : Option RetryPolicy
  pub branches : Map String Branch

pub record WorkflowDefinition : Type 0 where
  pub id : String
  pub version : ℕ
  pub tenant_id : Option String
  pub name : String
  pub description : String
  pub start : String
  pub entrypoints : Map String String
  pub steps : List Step
  pub published : Bool
  pub created_at : ℕ
  pub created_by : String

unfoldable pub resolve_entry : WorkflowDefinition → String → Result String
resolve_entry d entrypoint =
    if entrypoint == "" || entrypoint == "default"
    then (if d.start == ""
        then err (errorf ("resolve entry: workflow %q has no Start" ∷ d.id ∷ []))
        else ok d.start)
    else required
        (errorf ("resolve entry: unknown entrypoint %q for workflow %q" ∷ entrypoint ∷ d.id ∷ []))
        (lookup entrypoint d.entrypoints)

-- The first step with the id.
unfoldable pub find_step : String → List Step → Option Step
find_step id [] = none
find_step id (s ∷ rest) = if s.id == id then some s else find_step id rest

abbrev pub step_by_id : WorkflowDefinition → String → Option Step
step_by_id d id = find_step id d.steps
