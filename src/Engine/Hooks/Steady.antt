-- ===== src/Engine/Hooks/Steady.antt =====
-- The hooks move no run to another state.
use go_saga_orchestration.Prelude.{
  ℕ, ◌≡◌, refl, Bool, true, false, not, String, Option, none, some, List, [], ◌∷◌, member,
  from_option, Error, Exec, ◌||◌, ◌==◌, lookup, nat_eq, string_eq, not_found, ◌++◌,
}
use go_saga_orchestration.Domain.{
  Fields, get, entries, SagaRun, Step, is_paused_state, step_by_id, field, end,
}
use go_saga_orchestration.Store.{Store, run_not_found}
use go_saga_orchestration.Store.Runs.{get_run, update_run_variables, apply_merge}
use go_saga_orchestration.Store.Pauses.{wake_from_external, woken_run}
use go_saga_orchestration.Store.Children.{list_children_by_parent}
use go_saga_orchestration.Store.Definitions.{get_workflow_definition}
use go_saga_orchestration.Runtime.{Env, World, on_store, saga_advance}
use go_saga_orchestration.Verbs.Join.{
  aggregate_join_results, collect_watched, resolve_join_streams, join_condition_met, branches_key,
}
use go_saga_orchestration.Engine.Hooks.{
  wake_parent, check_join_barriers, check_spawning_step, check_parent_join, watch_barrier,
  lookup_step_inputs, parent_join, barrier_of, publish_advance,
}
use go_saga_orchestration.Engine.Steady.{
  Steady, bind-Steady, pure-Steady, lift-Steady, if-Steady, ignoring-Steady, send-Steady,
  on_run-Steady, read-Steady, SameStates-refl,
}

pub from_option-same :
    {A : Type 0} (e : Error) (o : Option A) (s : Store) → (from_option e o s).1 ≡ s
from_option-same e none s = refl
from_option-same e (some a) s = refl

elim-Steady :
    {A : Type 0} (b : Bool) {m n : Exec World A}
    → Steady m
    → Steady n
    → Steady (elim b [ true ↦ m | false ↦ n ])
elim-Steady true s t = s
elim-Steady false s t = t

get_run-Steady : (id : ℕ) → Steady (on_store (get_run id))
unfolding get_run
get_run-Steady id = read-Steady _ (λ s. from_option-same run_not_found (lookup id s.runs) s)

definition-Steady : (id : ℕ) → Steady (on_store (get_workflow_definition id))
unfolding get_workflow_definition
definition-Steady id =
    read-Steady _ (λ s. from_option-same (not_found "workflow_definition") (lookup id s.defs) s)

children-Steady :
    (id : ℕ) (step_id : String) → Steady (on_store (list_children_by_parent id step_id))
unfolding list_children_by_parent
children-Steady id step_id = read-Steady _ (λ s. refl)

pub variables-Steady : (id : ℕ) (m : Fields) → Steady (on_store (update_run_variables id m))
unfolding update_run_variables
variables-Steady id m =
    on_run-Steady id (λ r. record r { variables = apply_merge (entries m) r.variables }) (λ r. refl)

wake-Steady : (id : ℕ) → Steady (on_store (wake_from_external id))
unfolding wake_from_external woken_run
wake-Steady id = on_run-Steady id woken_run (λ r. refl)

aggregate-Steady : (env : Env) (group : List SagaRun) → Steady (aggregate_join_results env group)
unfolding aggregate_join_results
aggregate-Steady env group = record { keeps = λ w. SameStates-refl w.store.runs }

collect_watched-Steady :
    (id : ℕ) (seen streams : List String) → Steady (collect_watched id seen streams)
unfolding collect_watched
collect_watched-Steady id seen [] = pure-Steady []
collect_watched-Steady id seen (sid ∷ rest) =
    elim-Steady (member sid seen) (collect_watched-Steady id seen rest) (
      bind-Steady (children-Steady id sid)
        λ a. bind-Steady (collect_watched-Steady id (sid ∷ seen) rest) λ b. pure-Steady (a ++ b))

publish_advance-Steady : (env : Env) (id : ℕ) → Steady (publish_advance env id)
publish_advance-Steady env id =
    if-Steady env.has_publisher (send-Steady env (saga_advance id)) (pure-Steady tt)

wake_parent-Steady :
    (env : Env) (id : ℕ) (key : String) (group : List SagaRun)
    → Steady (wake_parent env id key group)
unfolding wake_parent
wake_parent-Steady env id key group = bind-Steady (aggregate-Steady env group) λ v.
    bind-Steady (ignoring-Steady (variables-Steady id (field key v end)))
      λ u. bind-Steady (wake-Steady id) λ u'. publish_advance-Steady env id

watch_barrier-Steady :
    (env : Env) (id : ℕ) (stream : String) (parent : SagaRun) (o : Option Step)
    → Steady (watch_barrier env id stream parent o)
watch_barrier-Steady env id stream parent none = pure-Steady tt
watch_barrier-Steady env id stream parent (some step) =
    bind-Steady
      (lift-Steady (resolve_join_streams env (get "streams" step.inputs) parent.variables))
      λ streams. if-Steady (not (member stream streams)) (pure-Steady tt) (
        bind-Steady (collect_watched-Steady id [] streams) λ watched.
          if-Steady (not (join_condition_met env step.inputs parent.variables watched))
            (pure-Steady tt) (wake_parent-Steady env id (branches_key "_join." step.id) watched))

check_join_barriers-Steady :
    (env : Env) (id : ℕ) (stream : String) → Steady (check_join_barriers env id stream)
unfolding check_join_barriers
check_join_barriers-Steady env id stream = ignoring-Steady (
    bind-Steady (get_run-Steady id) λ parent.
      if-Steady (not (is_paused_state parent.state)) (pure-Steady tt) (
        bind-Steady (definition-Steady parent.definition_id) λ d.
          watch_barrier-Steady env id stream parent
            (barrier_of (step_by_id d parent.current_step))))

check_spawning_step-Steady :
    (env : Env) (id : ℕ) (step_id : String) → Steady (check_spawning_step env id step_id)
unfolding check_spawning_step
check_spawning_step-Steady env id step_id = ignoring-Steady (
    bind-Steady (get_run-Steady id) λ parent.
      if-Steady (not (is_paused_state parent.state) || not (parent.current_step == step_id))
        (pure-Steady tt)
        (bind-Steady (children-Steady id step_id) λ siblings.
          bind-Steady (definition-Steady parent.definition_id) λ d.
            if-Steady
              (not
                (join_condition_met env (lookup_step_inputs d step_id) parent.variables siblings))
              (pure-Steady tt)
              (wake_parent-Steady env id (branches_key "_parallel." step_id) siblings)))

parent_join-Steady : (env : Env) (p : Option ℕ) (s : Option String) → Steady (parent_join env p s)
parent_join-Steady env none s = pure-Steady tt
parent_join-Steady env (some p) none = pure-Steady tt
parent_join-Steady env (some p) (some s) =
    bind-Steady (check_join_barriers-Steady env p s) (λ u. check_spawning_step-Steady env p s)

pub check_parent_join-Steady : (env : Env) (run : SagaRun) → Steady (check_parent_join env run)
unfolding check_parent_join
check_parent_join-Steady env run = parent_join-Steady env run.parent_run_id run.parent_step_id
