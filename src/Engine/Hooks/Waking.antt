-- ===== src/Engine/Hooks/Waking.antt =====
-- A child's end wakes the parent that waits for it.
use go_saga_orchestration.Prelude.{
  ℕ, ◌≡◌, refl, Bool, true, false, String, some, List, [], ◌∷◌, ◌++◌, lookup, lookup-insert, nat_eq,
  nat_beq_self, string_eq, ok, ◌==◌, inl, inr, Bool-cases, if◌then◌else◌, select, values,
}
use go_saga_orchestration.Domain.{
  SagaRun, is_paused_state, WorkflowDefinition, end, field, entries, list,
}
use go_saga_orchestration.Store.{Store, run_of}
use go_saga_orchestration.Store.Runs.{get_run, update_run_variables, apply_merge}
use go_saga_orchestration.Store.Pauses.{wake_from_external, woken_run}
use go_saga_orchestration.Store.Children.{list_children_by_parent, is_child_of}
use go_saga_orchestration.Store.Definitions.{get_workflow_definition}
use go_saga_orchestration.Runtime.{Env, World, saga_advance, send, on_store}
use go_saga_orchestration.Verbs.Join.{
  join_condition_met, aggregate_join_results, join_entries, branches_key,
}
use go_saga_orchestration.Engine.Hooks.{check_spawning_step, wake_parent, lookup_step_inputs}

-- The children that the store holds of a step of the parent.
abbrev pub children_of : ℕ → String → Store → List SagaRun
children_of id step_id s = select (is_child_of id step_id) (values s.runs)

-- The parent, woken, with what its children left written into its variables.
abbrev pub joined_run : Env → Store → SagaRun → String → List SagaRun → SagaRun
joined_run env s parent step_id group = woken_run (record parent {
  variables =
      apply_merge
        (entries
          (field (branches_key "_parallel." step_id) (list (join_entries env s 0 group)) end))
        parent.variables;
})

if-if :
    {A : Type 0} (b : Bool) (x y z : A)
    → (if b then x else (if b then y else z)) ≡ (if b then x else z)
if-if true x y z = refl
if-if false x y z = refl

-- At the end of a child, the parent that is paused on the step that spawned it is woken if the join
-- condition of the step holds of its children: their results are written into its variables, its
-- pause markers are cleared, no other run changes, and one advance message is sent for it. If the
-- condition does not hold, nothing changes. There is a publisher.
pub check_spawning_step-woken :
    (env : Env) (id : ℕ) (step_id : String) (w : World) {parent : SagaRun} {d : WorkflowDefinition}
    → env.has_publisher ≡ true
    → run_of w.store id ≡ some parent
    → is_paused_state parent.state ≡ true
    → (parent.current_step == step_id) ≡ true
    → lookup parent.definition_id w.store.defs ≡ some d
    → if join_condition_met env
        (lookup_step_inputs d step_id)
        parent.variables
        (children_of id step_id w.store)
      then (((k : ℕ)
            → run_of (check_spawning_step env id step_id w).1.store k ≡ (
                if id == k
                then some (joined_run env w.store parent step_id (children_of id step_id w.store))
                else run_of w.store k))
          × ((check_spawning_step env id step_id w).1.outbox ≡ w.outbox ++ saga_advance id ∷ []))
      else (check_spawning_step env id step_id w ≡ (ok tt, w))
unfolding check_spawning_step wake_parent on_store get_run get_workflow_definition
    list_children_by_parent aggregate_join_results update_run_variables wake_from_external send
    woken_run
check_spawning_step-woken env id step_id w {parent} {d} published found pausing here defined =
    elim (Bool-cases (
      join_condition_met env (lookup_step_inputs d step_id) parent.variables
        (children_of id step_id w.store))) [
          | inr unmet ↦ rw (unmet, found, pausing, here, defined, unmet) refl
          | inl met ↦
              rw (met, found, pausing, here, defined, met, found, lookup-insert, nat_beq_self)
                (λ k. simp (published, lookup-insert) (if-if (id == k) _ _ _), simp published refl)
        ]
