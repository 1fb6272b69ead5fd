-- ===== src/Verbs/Spawn.antt =====
-- The verbs that start a named workflow as a child: sub_saga.go and spawn_saga.go of engine/verbs.
use go_saga_orchestration.Prelude.{
  ℕ, String, Option, none, some, [], ◌∷◌, Exec, errorf, pure, raise, lift, ignoring, wrapping,
  saga_paused, ◌>>=◌, ◌>>◌, ◌==◌, string_eq, if◌then◌else◌,
}
use go_saga_orchestration.Domain.{
  Fields, end, get, as_string, as_fields, SagaRun, paused, Step, resolve_entry,
}
use go_saga_orchestration.Store.Runs.{update_run_state}
use go_saga_orchestration.Store.Children.{spawn_child_run_at}
use go_saga_orchestration.Store.Definitions.{get_published_workflow_by_id}
use go_saga_orchestration.Runtime.{Env, World, fresh, now, on_store, send, saga_advance}

abbrev or_end : Option Fields → Fields
or_end none = end
or_end (some m) = m

-- The child of a named workflow, at the entry point that the inputs name.
unfoldable pub spawn_named : Env → String → SagaRun → Step → String → Exec World ℕ
unfolding fresh now on_store
spawn_named env branch run step workflow_id = do
  def ←
      wrapping ("resolve %q: %w" ∷ workflow_id ∷ [])
        (on_store (get_published_workflow_by_id workflow_id run.tenant_id))
  start_step ←
      wrapping ("%w" ∷ []) (lift (resolve_entry def (as_string (get "entrypoint" step.inputs))))
  fresh_def ← fresh env
  child_id ← fresh env
  t ← now env
  wrapping ("spawn: %w" ∷ []) (
      on_store (
        spawn_child_run_at fresh_def child_id t run.id step.id branch def
          (or_end (as_fields (get "inputs" step.inputs))) start_step))

abbrev publish : Env → ℕ → Exec World Unit
publish env child_id = if env.has_publisher then send env (saga_advance child_id) else pure tt

-- Pauses the parent before it publishes the child.
unfoldable pub sub_saga_verb : Env → SagaRun → Step → Exec World Fields
unfolding spawn_named on_store send
sub_saga_verb env run step =
    let workflow_id = as_string (get "workflow_id" step.inputs) in
    if workflow_id == "" then raise (errorf ("sub_saga: workflow_id required" ∷ [])) else do
      child_id ← spawn_named env "sub" run step workflow_id
      wrapping ("sub_saga: pause parent: %w" ∷ [])
          (on_store (update_run_state run.id paused step.id))
      wrapping ("sub_saga: publish: %w" ∷ []) (publish env child_id)
      raise saga_paused

-- The parent goes on at once.
unfoldable pub spawn_saga_verb : Env → SagaRun → Step → Exec World Fields
unfolding spawn_named send
spawn_saga_verb env run step =
    let workflow_id = as_string (get "workflow_id" step.inputs) in
    if workflow_id == "" then raise (errorf ("spawn_saga: workflow_id required" ∷ [])) else do
      child_id ← spawn_named env "spawn" run step workflow_id
      ignoring (publish env child_id)
      pure end
