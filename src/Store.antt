-- ===== src/Store.antt =====
-- The in-memory store, store/memory/store.go: its tables, and the access to one run. Each method
-- holds the mutex from its first read to its last write, so it is one action on the tables; Cancel
-- and FailAction take it once more, for their audit event. Copies (clone.go) are values here. The
-- methods stand in the modules below.
pub mod Sorting
pub mod Runs
pub mod Pauses
pub mod Children
pub mod Tasks
pub mod Listings
pub mod Rules
pub mod Triggers
pub mod Definitions
pub mod Actions
pub mod Histories
use go_saga_orchestration.Prelude.{
  ℕ, String, Option, none, some, List, [], Map, lookup, insert, nat_eq, Exec, ok, err, Error,
  not_found,
}
use go_saga_orchestration.Domain.{
  WorkflowDefinition, SagaRun, SagaRunEvent, SagaSignal, UserTask, SagaTrigger, TriggerFireRow,
  ActionRegistration, RuleDefinition,
}

pub record Store : Type 0 where
  pub defs : Map ℕ WorkflowDefinition
  pub defs_by_name : Map String (List ℕ)
  pub runs : Map ℕ SagaRun
  pub events : Map ℕ (List SagaRunEvent)
  pub rules : Map ℕ RuleDefinition
  pub rules_by_id : Map String (List ℕ)
  pub signals : Map ℕ (List SagaSignal)
  pub user_tasks : Map ℕ UserTask
  pub actions : Map String (Map ℕ ActionRegistration)
  pub triggers : Map ℕ SagaTrigger
  pub trigger_fires : List TriggerFireRow

abbrev pub new : Store
new = record {
  defs = [];
  defs_by_name = [];
  runs = [];
  events = [];
  rules = [];
  rules_by_id = [];
  signals = [];
  user_tasks = [];
  actions = [];
  triggers = [];
  trigger_fires = [];
}

-- `m[k]` of a map of slices, where a missing key reads as the nil slice.
abbrev pub rows {ℓ} : {A : Type ℓ} → Option (List A) → List A
rows none = []
rows (some l) = l

abbrev pub run_not_found : Error
run_not_found = not_found "saga_run"

-- The run with the id.
abbrev pub run_of : Store → ℕ → Option SagaRun
run_of s id = lookup id s.runs

-- `r, ok := s.runs[id]; if !ok { return ErrNotFound }`, and the rest of the method.
abbrev on_found {ℓ} : {A : Type ℓ} → Option SagaRun → (SagaRun → Store → A) → A → Store → A
on_found none f missing s = missing
on_found (some r) f missing s = f r s

abbrev pub on_run : {A : Type 0} → ℕ → (SagaRun → Exec Store A) → Exec Store A
on_run id f s = on_found (lookup id s.runs) f (err run_not_found, s) s

-- `s.runs[id] = r`
abbrev pub put_run : ℕ → SagaRun → Exec Store Unit
put_run id r s = (ok tt, record s { runs = insert id r s.runs })
