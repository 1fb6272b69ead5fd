-- ===== src/Engine/Compensation/Settling.antt =====
-- What a reported failure of a step leaves: CompensateFailedStep.
use go_saga_orchestration.Prelude.{
  ◌>>◌, suc, ◌≡◌, refl, false, String, some, lookup, nat_eq, string_eq, errorf, ◌∷◌, [],
}
use go_saga_orchestration.Domain.{
  SagaRun, WorkflowDefinition, RunState, is_terminal, is_failed, step_by_id, pending, running,
  paused, compensating, succeeded, failed, cancelled,
}
use go_saga_orchestration.Store.{run_of}
use go_saga_orchestration.Store.Runs.{get_run}
use go_saga_orchestration.Store.Definitions.{get_workflow_definition}
use go_saga_orchestration.Runtime.{World, Coordinator, on_store, now, tick}
use go_saga_orchestration.Engine.Hooks.{check_parent_join}
use go_saga_orchestration.Engine.Hooks.Steady.{check_parent_join-Steady}
use go_saga_orchestration.Engine.Compensation.{
  compensate_failed_step, ended_otherwise, fail_now, step_or_bare,
}
use go_saga_orchestration.Engine.Compensation.Rollback.{
  InState, Steady-InState, mark-InState, mark-ok, IsLive, compensate-IsLive,
}

unended :
    (s : RunState) → is_terminal s ≡ false → (ended_otherwise s ≡ false) × (is_failed s ≡ false)
unended pending h = (refl, refl)
unended running h = (refl, refl)
unended paused h = (refl, refl)
unended compensating h = (refl, refl)
unended succeeded h = cc
unended failed h = cc
unended cancelled h = cc

-- The end of the method: the run is marked as failed, and the parent is told.
settled :
    (c : Coordinator) (r : SagaRun) (step_id : String) (w : World)
    → IsLive r.id w
    → InState r.id failed ((fail_now c.env r.id step_id >> check_parent_join c.env r) w).1
unfolding now tick on_store
settled c r step_id w live =
    let w' = record w { clock = suc w.clock } in
    let live' : IsLive r.id w' = record {
      run = live.run;
      stored = live.stored;
      unended = live.unended;
    } in
    let text = c.env.render (errorf ("step %q failed" ∷ step_id ∷ [])) in
    rw (mark-ok (c.env.time_at w.clock) r.id step_id text w' live') (
      Steady-InState (check_parent_join-Steady c.env r)
        (mark-InState (c.env.time_at w.clock) r.id step_id text w' live'))

-- When a failure of a step is reported from outside for a stored run that has not ended and whose
-- definition is stored, the run is failed afterwards, whether or not its completed steps could be
-- compensated.
pub compensate_failed_step-failed :
    (c : Coordinator) (r : SagaRun) (step_id : String) (w : World) {d : WorkflowDefinition}
    → run_of w.store r.id ≡ some r
    → is_terminal r.state ≡ false
    → lookup r.definition_id w.store.defs ≡ some d
    → InState r.id failed (compensate_failed_step c r.id step_id w).1
unfolding compensate_failed_step on_store get_run get_workflow_definition now tick
compensate_failed_step-failed c r step_id w {d} found live defined =
    let (other, unfailed) = unended r.state live in
    let (done, l) =
      compensate-IsLive c r d (step_or_bare step_id (step_by_id d step_id)) w
        (record { run = r; stored = found; unended = live }) in
    rw (found, other, defined, done, unfailed) (settled c r step_id _ l)
