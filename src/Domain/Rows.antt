-- ===== src/Domain/Rows.antt =====
-- The other rows that the store keeps: domain/signal.go, user_task.go, trigger.go,
-- trigger_fire.go, registry.go and rule.go.
use go_saga_orchestration.Prelude.{ℕ, Bool, String, Option, List}
use go_saga_orchestration.Domain.Dynamic.{Fields}

pub record SagaSignal : Type 0 where
  pub id : ℕ
  pub run_id : ℕ
  pub signal_name : String
  pub payload : Fields
  pub received_at : ℕ
  pub consumed_at : Option ℕ

pub record UserTask : Type 0 where
  pub id : ℕ
  pub run_id : ℕ
  pub step_id : String
  pub assignee : String
  pub due_at : Option ℕ
  pub form_schema : Fields
  pub submitted_at : Option ℕ
  pub submitted_by : String
  pub result : Fields

abbrev pub trigger_record_transition : String
trigger_record_transition = "record_transition"

abbrev pub trigger_cron : String
trigger_cron = "cron"

pub record SagaTrigger : Type 0 where
  pub id : ℕ
  pub trigger_type : String
  pub workflow_id : String
  pub version : ℕ
  pub config : Fields
  pub enabled : Bool
  pub tenant_id : Option ℕ
  pub created_at : ℕ
  pub created_by : String
  pub next_fire_at : Option ℕ
  pub last_fired_at : Option ℕ

pub record TriggerFireRow : Type 0 where
  pub id : ℕ
  pub trigger_id : ℕ
  pub workflow_id : String
  pub fired_at : ℕ
  pub resulting_run_id : Option ℕ
  pub error : String

abbrev pub transport_grpc : String
transport_grpc = "grpc"

abbrev pub transport_http : String
transport_http = "http"

abbrev pub transport_rmq : String
transport_rmq = "rmq"

-- The fields that the engine reads; the schemas and documentation fields are left out.
pub record ActionRegistration : Type 0 where
  pub id : ℕ
  pub service : String
  pub action_name : String
  pub version : ℕ
  pub category : String
  pub compensable : Bool
  pub deprecated : Bool
  pub registered_at : ℕ
  pub license_group : String
  pub transport : String
  pub address : String

pub record DecisionTableRow : Type 0 where
  pub when : String
  pub outputs : Fields

abbrev pub rule_type_decision_table : String
rule_type_decision_table = "decision_table"

abbrev pub hit_policy_first : String
hit_policy_first = "first"

pub record RuleDefinition : Type 0 where
  pub id : ℕ
  pub rule_id : String
  pub version : ℕ
  pub published : Bool
  pub rule_type : String
  pub hit_policy : String
  pub rows : List DecisionTableRow
  pub default_output : Option Fields
