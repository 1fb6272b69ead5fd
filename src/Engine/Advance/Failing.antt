-- ===== src/Engine/Advance/Failing.antt =====
-- How a failed step is caught.
use go_saga_orchestration.Prelude.{◌==◌, if◌then◌else◌}
use go_saga_orchestration.Prelude.{
  ℕ, ◌≡◌, refl, false, some, List, ◌∷◌, lookup-insert, nat_eq, nat_beq_self, ok, arith, Error,
  is_paused, is_cancelled,
}
use go_saga_orchestration.Domain.{
  SagaRun, Step, WorkflowDefinition, TryCatchFrame, running, new_event, entries,
}
use go_saga_orchestration.Store.{run_of}
use go_saga_orchestration.Store.Runs.{
  update_run_state, update_run_variables, append_event, apply_merge,
}
use go_saga_orchestration.Store.Children.{pop_try_catch}
use go_saga_orchestration.Runtime.{World, Coordinator, tick, now, fresh, on_store, emit, emit_with}
use go_saga_orchestration.Engine.Resume.{again}
use go_saga_orchestration.Engine.Failure.{handle_error, caught, error_fields}

-- The run behind a caught error: it is at the catch step, without the frame, and with the error
-- among its variables.
abbrev pub caught_run :
    Coordinator → SagaRun → Step → Error → TryCatchFrame → List TryCatchFrame → SagaRun
caught_run c r step e top rest = record r {
  state = running;
  current_step = top.catch_step;
  variables = apply_merge (entries (error_fields c.env step e)) r.variables;
  try_catch_stack = rest;
}

-- An ordinary error of a step under a try_catch frame takes the innermost frame off and moves the
-- run to its catch step with `_error` set. Nothing is compensated: no message goes out, and no other
-- run changes.
pub handle_error-caught :
    (c : Coordinator) (id : ℕ) (run : SagaRun) (d : WorkflowDefinition) (step : Step) (e : Error)
    (w : World) {r : SagaRun} {top : TryCatchFrame} {rest : List TryCatchFrame}
    → is_paused e ≡ false
    → is_cancelled e ≡ false
    → run_of w.store id ≡ some r
    → r.try_catch_stack ≡ top ∷ rest
    → ((handle_error c id run d step e w).0 ≡ ok again)
      × ((k : ℕ)
          → run_of (handle_error c id run d step e w).1.store k
            ≡ (if id == k then some (caught_run c r step e top rest) else run_of w.store k))
      × ((handle_error c id run d step e w).1.outbox ≡ w.outbox)
unfolding handle_error caught pop_try_catch update_run_state update_run_variables emit emit_with
    fresh now tick on_store append_event new_event
handle_error-caught c id run d step e w {r} {top} {rest} plain live found frames =
    rw (plain, live, found, frames, lookup-insert, nat_beq_self, lookup-insert, nat_beq_self)
      (refl, λ k. rw (lookup-insert, lookup-insert, lookup-insert) (ground arith), refl)
