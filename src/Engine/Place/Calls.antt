-- ===== src/Engine/Place/Calls.antt =====
-- The calls of an advance that leave the run where it is, up to the execution of a step with its
-- retries (engine/retry.go, engine/verbs/action.go).
use go_saga_orchestration.Prelude.{
  ℕ, zero, suc, ◌+◌, refl, false, not, String, Option, none, some, nat_eq, string_eq, Exec, Result,
  ok, err, Error, ◌==◌, is_just, ◌&&◌, saga_paused, Option-cases, Bool-cases, inl, inr,
}
use go_saga_orchestration.Domain.{
  Fields, end, new_event, entries, SagaRun, SagaRunEvent, Step, EventType, step_by_id, step_failed,
}
use go_saga_orchestration.Store.{run_of}
use go_saga_orchestration.Store.Runs.{get_run, update_run_variables, append_event, apply_merge}
use go_saga_orchestration.Store.Pauses.{clear_pause, cleared_run}
use go_saga_orchestration.Store.Children.{list_children_by_parent}
use go_saga_orchestration.Store.Definitions.{get_workflow_definition}
use go_saga_orchestration.Store.Actions.{mark_awaiting_action}
use go_saga_orchestration.Runtime.{
  Env, World, ActionVerb, Handler, action_handler, now, fresh, emit, emit_with, on_store,
}
use go_saga_orchestration.Verbs.Action.{action_verb}
use go_saga_orchestration.Verbs.Action.Silent.{check_action-Silent, dispatch-Silent}
use go_saga_orchestration.Verbs.Join.{join_condition_met}
use go_saga_orchestration.Engine.Hooks.{children_still_running, spawns_and_waits, still_running}
use go_saga_orchestration.Engine.Hooks.Steady.{from_option-same}
use go_saga_orchestration.Engine.Retry.{
  execute, execute_step, attempts, wait_then, is_control_signal, after_wait, max_attempts,
  settle_attempt,
}
use go_saga_orchestration.Engine.Place.{
  Tame, pure-Tame, raise-Tame, if-Tame, wrapping-Tame, read-Tame, bind-Tame, tick-Tame, on_run-Tame,
  Kept-trans, Silent-Tame, Kept-refl, put-same,
}

module _ (id d : ℕ) where
  pub get_run-Tame : (k : ℕ) → Tame id d (on_store (get_run k))
  unfolding get_run
  get_run-Tame k = read-Tame id d (get_run k) (λ s. from_option-same _ _ s)

  pub get_definition-Tame : (k : ℕ) → Tame id d (on_store (get_workflow_definition k))
  unfolding get_workflow_definition
  get_definition-Tame k = read-Tame id d (get_workflow_definition k) (λ s. from_option-same _ _ s)

  pub now-Tame : (env : Env) → Tame id d (now env)
  unfolding now
  now-Tame env = bind-Tame id d (tick-Tame id d) (λ n. pure-Tame id d (env.time_at n))

  pub fresh-Tame : (env : Env) → Tame id d (fresh env)
  unfolding fresh
  fresh-Tame env = bind-Tame id d (tick-Tame id d) (λ n. pure-Tame id d (env.uuid_at n))

  pub append_event-Tame : (e : SagaRunEvent) → Tame id d (on_store (append_event e))
  unfolding append_event on_store
  append_event-Tame e = record { keeps = λ w. record { same_place = refl; same_definition = refl } }

  pub emit-Tame :
      (env : Env) (run_id : ℕ) (step_id : String) (attempt : ℕ) (type : EventType) (actor : String)
      → Tame id d (emit env run_id step_id attempt type actor)
  unfolding emit emit_with
  emit-Tame env run_id step_id attempt type actor = bind-Tame id d (fresh-Tame env) λ n.
      bind-Tame id d (now-Tame env) λ t.
        append_event-Tame
          (record (new_event n t run_id step_id attempt type actor) { metadata = end })

  pub update_run_variables-Tame :
      (k : ℕ) (merge : Fields) → Tame id d (on_store (update_run_variables k merge))
  unfolding update_run_variables
  update_run_variables-Tame k merge =
      on_run-Tame id d k (λ r. record r { variables = apply_merge (entries merge) r.variables })
        (λ r. refl)

  pub clear_pause-Tame : (k : ℕ) → Tame id d (on_store (clear_pause k))
  unfolding clear_pause cleared_run
  clear_pause-Tame k = on_run-Tame id d k cleared_run (λ r. refl)

  pub still_running-Tame :
      (env : Env) (run : SagaRun) (o : Option Step) → Tame id d (still_running env run o)
  unfolding list_children_by_parent
  still_running-Tame env run none = pure-Tame id d false
  still_running-Tame env run (some step) =
      if-Tame id d (not (spawns_and_waits step.type)) (pure-Tame id d false) (
        bind-Tame id d
          (wrapping-Tame id d _
            (read-Tame id d (list_children_by_parent run.id step.id) (λ s. refl)))
          (λ children.
            pure-Tame id d (not (join_condition_met env step.inputs run.variables children))))

  pub children_still_running-Tame :
      (env : Env) (run : SagaRun) → Tame id d (children_still_running env run)
  unfolding children_still_running
  children_still_running-Tame env run =
      bind-Tame id d (wrapping-Tame id d _ (get_definition-Tame run.definition_id))
        (λ def. still_running-Tame env run (step_by_id def run.current_step))

  pub mark_awaiting_action-Tame :
      (k : ℕ) (dispatch : String) (attempt : ℕ)
      → Tame id d (on_store (mark_awaiting_action k dispatch attempt))
  unfolding mark_awaiting_action on_store
  mark_awaiting_action-Tame k dispatch attempt = record {
    keeps = λ w. elim (Option-cases (run_of w.store k)) [
      | inl missing ↦ rw missing (Kept-refl id d w)
      | inr (r, found) ↦
          elim (Bool-cases
            ((r.current_attempt == attempt) && is_just r.awaited_action_dispatch dispatch)) [
              | inl marked ↦ rw (found, marked) (Kept-refl id d w)
              | inr new ↦
                  rw (found, new)
                    (record {
                      same_place = put-same id d k r _ w.store.runs found refl;
                      same_definition = refl;
                    })
            ]
    ];
  }

  pub action_verb-Tame :
      (env : Env) (v : ActionVerb) (run : SagaRun) (step : Step)
      → Tame id d (action_verb env v run step)
  unfolding action_verb
  action_verb-Tame env v run step =
      bind-Tame id d (Silent-Tame id d (check_action-Silent _ _ step.action)) λ _.
        bind-Tame id d
          (wrapping-Tame id d _
            (mark_awaiting_action-Tame run.id step.action (run.current_attempt + 1)))
          λ _.
            bind-Tame id d (Silent-Tame id d (dispatch-Silent env v step.action _))
              λ _. raise-Tame id d saga_paused

-- Handlers, other than those of actions, that leave the run where it is.
pub record IsTame (id d : ℕ) (env : Env) (h : Handler) : Type 0 where
  pub runs : (run : SagaRun) (step : Step) → Tame id d (execute env h run step)

module _ (id d : ℕ) (env : Env) where
  pub action-IsTame : (v : ActionVerb) → IsTame id d env (action_handler v)
  unfolding execute
  action-IsTame v = record { runs = action_verb-Tame id d env v }

  after_wait-Tame :
      (o : Option Error) {m : Exec World Fields} → Tame id d m → Tame id d (after_wait o m)
  after_wait-Tame none s = s
  after_wait-Tame (some e) s = raise-Tame id d e

  wait_then-Tame :
      (run : SagaRun) (step : Step) (attempt : ℕ) {m : Exec World Fields}
      → Tame id d m
      → Tame id d (wait_then env run step attempt m)
  unfolding wait_then
  wait_then-Tame run step attempt s =
      bind-Tame id d (emit-Tame id d env run.id step.id (suc attempt) step_failed "engine-retry")
        λ _. bind-Tame id d (tick-Tame id d) λ n. after_wait-Tame (env.context_error_at n) s

  settle_attempt-Tame :
      (run : SagaRun) (step : Step) (attempt left : ℕ) {m : Exec World Fields} (r : Result Fields)
      → Tame id d m
      → Tame id d (settle_attempt env run step attempt left m r)
  settle_attempt-Tame run step attempt left (ok result) s = pure-Tame id d result
  settle_attempt-Tame run step attempt left (err e) s =
      if-Tame id d (is_control_signal e) (raise-Tame id d e)
        (if-Tame id d (left == 0) (raise-Tame id d e) (wait_then-Tame run step attempt s))

  attempts-Tame :
      (h : Handler) (run : SagaRun) (step : Step)
      → IsTame id d env h
      → (attempt left : ℕ) → Tame id d (attempts env h run step attempt left)
  unfolding attempts
  attempts-Tame h run step tame attempt zero = record { keeps = Kept-refl id d }
  attempts-Tame h run step tame attempt (suc left) =
      let rest = attempts-Tame h run step tame (suc attempt) left in
      record {
        keeps = λ w. Kept-trans id d ((tame.runs run step).keeps w) (
            (settle_attempt-Tame run step attempt left (execute env h run step w).0 rest).keeps
              (execute env h run step w).1);
      }

  pub execute_step-Tame :
      (h : Handler) (run : SagaRun) (step : Step)
      → IsTame id d env h
      → Tame id d (execute_step env h run step)
  unfolding execute_step
  execute_step-Tame h run step tame = attempts-Tame h run step tame 0 (max_attempts step)
