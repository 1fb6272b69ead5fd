-- ===== src/Engine/Descent/Failing.antt =====
-- The ends of a run on the way down: a run that ends, pauses or fails takes no further turn. The code
-- is engine/advance.go.
use go_saga_orchestration.Prelude.{
  ℕ, String, Option, none, [], ◌∷◌, nat_eq, string_eq, Exec, Result, ok, Error, wrap, ◌>>=◌,
  ignoring, wrapping, outcome, is_paused, is_cancelled,
}
use go_saga_orchestration.Domain.{
  Step, WorkflowDefinition, SagaRun, TryCatchFrame, step_succeeded, cancelled, succeeded,
  step_failed, run_cancelled, run_succeeded, step_paused,
}
use go_saga_orchestration.Store.Runs.{update_run_state, mark_run_failed}
use go_saga_orchestration.Store.Children.{pop_try_catch}
use go_saga_orchestration.Runtime.{Env, World, Coordinator, now, emit, on_store}
use go_saga_orchestration.Engine.Compensation.{compensate}
use go_saga_orchestration.Engine.Hooks.{check_parent_join}
use go_saga_orchestration.Engine.Resume.{Turn}
use go_saga_orchestration.Engine.Failure.{
  complete_run, handle_error, fail_or_catch, fail_run, cancel_self, pause_self,
}
use go_saga_orchestration.Engine.Descent.{
  Descends, if-Descends, found_at, Quits, bind-Quits, raise-Quits, finished-Quits, Quits-Descends,
}

module _ (id d : ℕ) (def : WorkflowDefinition) (rank : String → ℕ) where
  pub complete_run-Quits :
      (env : Env) (run : SagaRun) (step : Step) → Quits id d def rank (complete_run env id run step)
  unfolding complete_run
  complete_run-Quits env run step =
      bind-Quits id d def rank (emit env id step.id 0 step_succeeded "engine") λ _.
        bind-Quits id d def rank (emit env id "" 0 run_succeeded "engine") λ _.
          bind-Quits id d def rank (on_store (update_run_state id succeeded "")) λ _.
            bind-Quits id d def rank (check_parent_join env run) λ _. finished-Quits id d def rank

  cancel_self-Quits :
      (env : Env) (run : SagaRun) (step : Step) → Quits id d def rank (cancel_self env id run step)
  unfolding cancel_self
  cancel_self-Quits env run step =
      bind-Quits id d def rank (emit env id "" 0 run_cancelled "engine") λ _.
        bind-Quits id d def rank
          (wrapping ("cancel: set cancelled: %w" ∷ [])
            (on_store (update_run_state id cancelled step.id)))
          λ _.
            bind-Quits id d def rank (check_parent_join env run) λ _. finished-Quits id d def rank

  pause_self-Quits : (env : Env) (step : Step) → Quits id d def rank (pause_self env id step)
  unfolding pause_self
  pause_self-Quits env step =
      bind-Quits id d def rank (emit env id step.id 0 step_paused "engine")
        λ _. finished-Quits id d def rank

  fail_run-Quits :
      (c : Coordinator) (run : SagaRun) (def' : WorkflowDefinition) (step : Step) (e : Error)
      → Quits id d def rank (fail_run c id run def' step e)
  unfolding fail_run
  fail_run-Quits c run def' step e =
      bind-Quits id d def rank (emit c.env id step.id 0 step_failed "engine") λ _.
        bind-Quits id d def rank (compensate c run def' step) λ _.
          bind-Quits id d def rank (now c.env) λ t.
            bind-Quits id d def rank
              (ignoring (
                on_store (
                  mark_run_failed t id step.id
                    (c.env.render (wrap ("step %q (%s): %v" ∷ step.id ∷ step.type ∷ []) e)))))
              λ _.
                bind-Quits id d def rank (check_parent_join c.env run)
                  λ _. raise-Quits id d def rank (wrap ("verb %s: %w" ∷ step.type ∷ []) e)

  -- A run in no try_catch block has no frame to go on at.
  popped-Descends :
      (step : String) (n : ℕ) (f : Result (Option TryCatchFrame) → Exec World Turn)
      → Descends id d def rank step n (f (ok none))
      → Descends id d def rank step n (outcome (on_store (pop_try_catch id)) >>= f)
  unfolding on_store pop_try_catch
  popped-Descends step n f s = record {
    descends = λ w at.
        let (r, found, _, _, empty) = found_at id d def rank step w at in
        rw (found, empty) (s.descends w at);
  }

  pub handle_error-Descends :
      (c : Coordinator) (run : SagaRun) (def' : WorkflowDefinition) (at_step : String) (n : ℕ)
      (step : Step) (e : Error)
      → Descends id d def rank at_step n (handle_error c id run def' step e)
  unfolding handle_error
  handle_error-Descends c run def' at_step n step e =
      if-Descends id d def rank at_step n (is_paused e)
        (λ _. Quits-Descends id d def rank at_step n (pause_self-Quits c.env step))
        λ _.
          if-Descends id d def rank at_step n (is_cancelled e)
            (λ _. Quits-Descends id d def rank at_step n (cancel_self-Quits c.env run step))
            λ _.
              popped-Descends at_step n (fail_or_catch c id run def' step e)
                (Quits-Descends id d def rank at_step n (fail_run-Quits c run def' step e))
