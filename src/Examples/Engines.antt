-- ===== src/Examples/Engines.antt =====
-- The theorems on the engine, at work on an order.
use go_saga_orchestration.Engine.Registry.{default_action_verb, default_verbs}
use go_saga_orchestration.Engine.Compensation.{compensate_failed_step}
use go_saga_orchestration.Engine.Compensation.Settling.{compensate_failed_step-failed}
use go_saga_orchestration.Prelude.{◌==◌, if◌then◌else◌, inl}
use go_saga_orchestration.Runtime.{saga_advance}
use go_saga_orchestration.Engine.Hooks.{check_spawning_step}
use go_saga_orchestration.Engine.Hooks.Waking.{check_spawning_step-woken, joined_run}
use go_saga_orchestration.Verbs.Join.{join_condition_met}
use go_saga_orchestration.Engine.Advance.Resuming.{turn-children}
use go_saga_orchestration.Examples.{fan, fanned, child, family, wiring}
use go_saga_orchestration.Prelude.{◌+◌, ◌≤◌, ◌≡◌, refl, some, [], ◌∷◌, lookup}
use go_saga_orchestration.Domain.{running, succeeded, failed, cancelled, Step, find_step}
use go_saga_orchestration.Prelude.{saga_cancelled, All, ℕ, ok, none, nat_eq, string_eq}
use go_saga_orchestration.Store.{run_of}
use go_saga_orchestration.Engine.Retry.{execute, execute_step, max_attempts}
use go_saga_orchestration.Engine.Retry.Bounds.{execute_step-trail, trail}
use go_saga_orchestration.Engine.Compensation.{compensate, completed_steps}
use go_saga_orchestration.Engine.Compensation.Rollback.{InState, IsLive}
use go_saga_orchestration.Engine.Compensation.Completed.{
  IsCompleted, Distinct, completed_steps-IsCompleted,
}
use go_saga_orchestration.Engine.Compensation.Order.{compensate-reversed, messages}
use go_saga_orchestration.Engine.Resume.{again}
use go_saga_orchestration.Engine.Failure.{handle_error, complete_run}
use go_saga_orchestration.Engine.Advance.{turn}
use go_saga_orchestration.Engine.Advance.Ends.{
  handle_error-failed, handle_error-cancelled, complete_run-succeeded,
}
use go_saga_orchestration.Engine.Advance.Failing.{handle_error-caught, caught_run}
use go_saga_orchestration.Engine.Advance.Resuming.{timeout, turn-due, turn-stray, MovesTo, moved}
use go_saga_orchestration.Examples.{
  services, coordinator, world_with, run_at, order, charge, done, boom, waiting, dispatched,
  guarded, frame, reserve, approve, step_of, store_with, event_of, failing, policy,
}

abbrev tried : Step
tried = record charge { retry = some policy }

run_at-IsLive : IsLive 1 (world_with (run_at 1 running "charge"))
unfolding lookup
run_at-IsLive = record { run = run_at 1 running "charge"; stored = refl; unended = refl }

handle_error-failed_example :
    InState 1 failed
      (handle_error coordinator 1
        (run_at 1 running "charge")
        order
        charge
        boom
        (world_with (run_at 1 running "charge"))).1
unfolding lookup
handle_error-failed_example =
    handle_error-failed coordinator (run_at 1 running "charge") order charge boom
      (world_with (run_at 1 running "charge"))
      (record { run = run_at 1 running "charge"; stored = refl; unended = refl }) refl refl refl

handle_error-cancelled_example :
    InState 1 cancelled
      (handle_error coordinator 1
        (run_at 1 running "charge")
        order
        charge
        saga_cancelled
        (world_with (run_at 1 running "charge"))).1
handle_error-cancelled_example =
    handle_error-cancelled coordinator (run_at 1 running "charge") order charge saga_cancelled
      (world_with (run_at 1 running "charge")) run_at-IsLive refl refl

complete_run-succeeded_example :
    InState 1 succeeded
      (complete_run services 1
        (run_at 1 running "charge")
        done
        (world_with (run_at 1 running "charge"))).1
complete_run-succeeded_example =
    complete_run-succeeded coordinator (run_at 1 running "charge") done
      (world_with (run_at 1 running "charge")) run_at-IsLive

-- The last step, not the first, is compensated first: over gRPC, and the first one over HTTP.
compensate-reversed_example :
    (compensate coordinator
      (run_at 1 running "approve")
      order
      (step_of "approve" "" "" none)
      (world_with (run_at 1 running "charge"))).1.outbox
    ≡ messages
        (default_action_verb wiring)
        (store_with (run_at 1 running "charge"))
        (run_at 1 running "approve")
        (charge ∷ reserve ∷ [])
unfolding lookup completed_steps find_step messages default_verbs
compensate-reversed_example =
    compensate-reversed coordinator (run_at 1 running "approve") order
      (step_of "approve" "" "" none) (world_with (run_at 1 running "charge")) run_at-IsLive

compensate_failed_step-failed_example :
    InState 1 failed (compensate_failed_step coordinator 1 "charge" (world_with dispatched)).1
unfolding lookup
compensate_failed_step-failed_example =
    compensate_failed_step-failed coordinator dispatched "charge" (world_with dispatched)
      {d = order} refl refl refl

turn-due_example :
    MovesTo 1 (moved waiting "late") (world_with waiting) (turn coordinator 1 (world_with waiting))
unfolding lookup find_step
turn-due_example =
    turn-due coordinator 1 (world_with waiting) "late" {r = waiting} {d = order} {step = approve}
      refl refl refl refl refl refl (timeout _ (inl (λ e. cc)) refl refl) refl

turn-stray_example :
    MovesTo 1
      (moved dispatched "done")
      (world_with dispatched)
      (turn coordinator 1 (world_with dispatched))
unfolding lookup find_step
turn-stray_example =
    turn-stray coordinator 1 (world_with dispatched) {r = dispatched} {d = order} {step = charge}
      refl refl refl refl refl refl refl refl refl

handle_error-caught_example :
    ((handle_error coordinator 1 guarded order charge boom (world_with guarded)).0 ≡ ok again)
    × ((k : ℕ)
        → run_of
            (handle_error coordinator 1 guarded order charge boom (world_with guarded)).1.store
            k
          ≡ (if 1 == k
              then some (caught_run coordinator guarded charge boom frame [])
              else run_of (store_with guarded) k))
    × ((handle_error coordinator 1 guarded order charge boom (world_with guarded)).1.outbox ≡ [])
unfolding lookup
handle_error-caught_example =
    handle_error-caught coordinator 1 guarded order charge boom (world_with guarded) {r = guarded}
      refl refl refl refl

-- The one child has succeeded, so the parent is woken and goes on.
check_spawning_step-woken_example :
    ((k : ℕ)
      → run_of (check_spawning_step services 1 "fan" family).1.store k ≡ (
          if 1 == k
          then some (joined_run services family.store fanned "fan" (child ∷ []))
          else run_of family.store k))
    × ((check_spawning_step services 1 "fan" family).1.outbox ≡ saga_advance 1 ∷ [])
unfolding lookup find_step join_condition_met
check_spawning_step-woken_example =
    check_spawning_step-woken services 1 "fan" family {parent = fanned} {d = order} refl refl refl
      refl refl

turn-children_example : MovesTo 1 (moved fanned "done") family (turn coordinator 1 family)
unfolding lookup find_step join_condition_met
turn-children_example =
    turn-children coordinator 1 family {r = fanned} {d = order} {step = fan} refl refl refl refl
      refl refl refl refl refl

completed_steps-IsCompleted_example :
    All
      (IsCompleted order "charge" [])
      (completed_steps order "charge" [] (event_of "reserve" ∷ event_of "charge" ∷ []))
    × Distinct (completed_steps order "charge" [] (event_of "reserve" ∷ event_of "charge" ∷ []))
completed_steps-IsCompleted_example =
    completed_steps-IsCompleted order "charge" (event_of "reserve" ∷ event_of "charge" ∷ [])

execute_step-trail_example :
    trail dispatched (execute_step services failing dispatched tried (world_with dispatched)).1 + 1
    ≤ trail dispatched (world_with dispatched) + max_attempts tried
unfolding execute
execute_step-trail_example =
    execute_step-trail services failing dispatched tried (world_with dispatched) (λ w. refl)
