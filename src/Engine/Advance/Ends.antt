-- ===== src/Engine/Advance/Ends.antt =====
-- The turns that end a run.
use go_saga_orchestration.Prelude.{◌≡◌, true, false, [], Error, is_paused, is_cancelled}
use go_saga_orchestration.Domain.{
  SagaRun, Step, WorkflowDefinition, succeeded, failed, cancelled, step_succeeded, run_succeeded,
  step_failed, run_cancelled,
}
use go_saga_orchestration.Store.Children.{pop_try_catch}
use go_saga_orchestration.Runtime.{World, Coordinator, on_store}
use go_saga_orchestration.Engine.Steady.{bind-Steady, pure-Steady, raise-Steady}
use go_saga_orchestration.Engine.Hooks.Steady.{check_parent_join-Steady}
use go_saga_orchestration.Engine.Compensation.Steady.{emit-Steady}
use go_saga_orchestration.Engine.Compensation.Rollback.{
  InState, IsLive, set-then, Steady-InState, Steady-IsLive, set-InState, set-ok, mark-InState,
  compensate-IsLive,
}
use go_saga_orchestration.Engine.Resume.{finished}
use go_saga_orchestration.Engine.Failure.{fail_run, complete_run, cancel_self, handle_error}

-- A run that has not ended and reaches an end step has succeeded when the turn is over, whatever
-- becomes of the hook that tells the parent.
pub complete_run-succeeded :
    (c : Coordinator) (run : SagaRun) (step : Step) (w : World)
    → IsLive run.id w
    → InState run.id succeeded (complete_run c.env run.id run step w).1
unfolding complete_run
complete_run-succeeded c run step w live =
    set-then run.id succeeded "" _
      (bind-Steady (check_parent_join-Steady c.env run) (λ u. pure-Steady finished))
      (Steady-IsLive (emit-Steady c.env run.id "" 0 run_succeeded "engine")
        (Steady-IsLive (emit-Steady c.env run.id step.id 0 step_succeeded "engine") live))

-- A step that cancels its own run ends it as cancelled.
cancel_self-cancelled :
    (c : Coordinator) (run : SagaRun) (step : Step) (w : World)
    → IsLive run.id w
    → InState run.id cancelled (cancel_self c.env run.id run step w).1
unfolding cancel_self
cancel_self-cancelled c run step w live =
    let l = Steady-IsLive (emit-Steady c.env run.id "" 0 run_cancelled "engine") live in
    rw (set-ok run.id cancelled step.id _ l) (
      Steady-InState (bind-Steady (check_parent_join-Steady c.env run) (λ u. pure-Steady finished))
        (set-InState run.id cancelled step.id _ l))

-- The failure that no frame catches.
fail_run-failed :
    (c : Coordinator) (run : SagaRun) (d : WorkflowDefinition) (step : Step) (e : Error) (w : World)
    → IsLive run.id w
    → InState run.id failed (fail_run c run.id run d step e w).1
unfolding fail_run
fail_run-failed c run d step e w live =
    let l = Steady-IsLive (emit-Steady c.env run.id step.id 0 step_failed "engine") live in
    let (done, l') = compensate-IsLive c run d step _ l in
    rw done (
      Steady-InState (bind-Steady (check_parent_join-Steady c.env run) (λ u. raise-Steady _)) (
        mark-InState _ run.id step.id _ _
          (record { run = l'.run; stored = l'.stored; unended = l'.unended })))

-- An ordinary error of a step, in a run that has not ended and is under no try_catch frame,
-- leaves the run failed, after the rollback, whatever becomes of the dispatched compensations and
-- of the hook that tells the parent.
pub handle_error-failed :
    (c : Coordinator) (run : SagaRun) (d : WorkflowDefinition) (step : Step) (e : Error) (w : World)
    (live : IsLive run.id w)
    → is_paused e ≡ false
    → is_cancelled e ≡ false
    → live.run.try_catch_stack ≡ []
    → InState run.id failed (handle_error c run.id run d step e w).1
unfolding handle_error pop_try_catch on_store
handle_error-failed c run d step e w live plain kept frames =
    rw (plain, kept, live.stored, frames) (fail_run-failed c run d step e w live)

-- A step that cancels its own run, which has not ended, leaves it cancelled, also under a
-- try_catch frame.
pub handle_error-cancelled :
    (c : Coordinator) (run : SagaRun) (d : WorkflowDefinition) (step : Step) (e : Error) (w : World)
    → IsLive run.id w
    → is_paused e ≡ false
    → is_cancelled e ≡ true
    → InState run.id cancelled (handle_error c run.id run d step e w).1
unfolding handle_error
handle_error-cancelled c run d step e w live plain kept =
    rw (plain, kept) (cancel_self-cancelled c run step w live)
