-- ===== src/Engine/Dispatchers/Startup.antt =====
-- The start of a run by a trigger: engine/startup_variables.go, and what trigger_dispatcher.go and
-- cron_dispatcher.go both do once they know definition, entry, tenant and inputs.
use go_saga_orchestration.Prelude.{
  ℕ, String, Option, some, List, [], ◌∷◌, Exec, Result, ok, err, pure, ignoring, ◌>>=◌, ◌>>◌,
}
use go_saga_orchestration.Domain.{
  Fields, end, field, put, WorkflowDefinition, SagaRun, new_saga_run,
}
use go_saga_orchestration.Store.Runs.{create_run, update_run_variables}
use go_saga_orchestration.Store.Definitions.{upsert_workflow_definition}
use go_saga_orchestration.Runtime.{Env, World, tick, now, fresh, on_store}

-- `StartupVariableProvider`: an interface for embedders; what it answers may change from call to call.
abbrev pub Provider : Type 0
Provider = ℕ → Option ℕ → Result Fields

-- `for k, v := range vars { merge[k] = v }`
unfoldable pub merge_fields : Fields → Fields → Fields
merge_fields end merge = merge
merge_fields (field k v vars) merge = merge_fields vars (put k v merge)

abbrev pub merge_answer : Result Fields → Fields → Fields
merge_answer (ok vars) merge = merge_fields vars merge
merge_answer (err e) merge = merge

-- The loop over the providers, which skips those that fail.
unfoldable pub collect : List Provider → Option ℕ → Fields → Exec World Fields
unfolding tick merge_fields
collect [] tenant merge = pure merge
collect (p ∷ rest) tenant merge = do n ← tick; collect rest tenant (merge_answer (p n tenant) merge)

abbrev pub write_merge : ℕ → Fields → Exec World Unit
write_merge run_id end = pure tt
write_merge run_id (field k v m) = ignoring (on_store (update_run_variables run_id (field k v m)))

-- With no provider the loop collects nothing, and nothing is written. A failed write is logged only.
unfoldable pub inject_startup_variables : ℕ → Option ℕ → List Provider → Exec World Unit
unfolding collect on_store
inject_startup_variables run_id tenant providers = do
  merge ← collect providers tenant end
  write_merge run_id merge

-- The run that a trigger starts.
abbrev pub triggered_run : ℕ → ℕ → WorkflowDefinition → ℕ → Option ℕ → Fields → String → ℕ → SagaRun
triggered_run id t def row tenant inputs start_step trigger_id =
    record (new_saga_run id t def.id row tenant inputs) {
      current_step = start_step;
      trigger_id = some trigger_id;
    }

-- Stores the definition and the run, and injects the variables. The result is the id of the run.
unfoldable pub create_triggered :
    Env → List Provider → WorkflowDefinition → Option ℕ → Fields → String → ℕ → Exec World ℕ
unfolding fresh now on_store upsert_workflow_definition create_run new_saga_run
    inject_startup_variables
create_triggered env providers def tenant inputs start_step trigger_id = do
  fresh_row ← fresh env
  row ← on_store (upsert_workflow_definition fresh_row def)
  id ← fresh env
  t ← now env
  on_store (create_run (triggered_run id t def row tenant inputs start_step trigger_id))
  inject_startup_variables id tenant providers
  pure id
