-- ===== src/Engine/Compensation/Rollback.antt =====
-- What a rollback does to the run that is rolled back.
use go_saga_orchestration.Prelude.{
  ℕ, ◌≡◌, refl, ◌∙◌, ap, false, String, some, List, [], ◌∷◌, reverse, lookup, lookup-insert, nat_eq,
  nat_beq_self, string_eq, ok, Exec, ◌>>◌,
}
use go_saga_orchestration.Domain.{
  SagaRun, Step, WorkflowDefinition, RunState, is_terminal, compensating, failed, step_type_action,
  compensation_started,
}
use go_saga_orchestration.Store.{run_of}
use go_saga_orchestration.Store.Runs.{
  append_event, update_run_state, list_events_by_run, mark_run_failed, failed_run,
}
use go_saga_orchestration.Runtime.{
  Env, World, Coordinator, ActionVerb, on_store, emit, emit_with, fresh, now, tick,
}
use go_saga_orchestration.Engine.Steady.{Steady}
use go_saga_orchestration.Engine.Compensation.{
  compensate, compensate_steps, completed_compensable_steps, action_verb_of, compensate_completed,
  roll_back,
}
use go_saga_orchestration.Engine.Compensation.Steady.{compensate_steps-Steady, emit-Steady}

-- The run is stored, in the state.
pub record InState (id : ℕ) (st : RunState) (w : World) : Type 0 where
  pub run : SagaRun
  pub stored : run_of w.store id ≡ some run
  pub in_state : run.state ≡ st

-- The run is stored and has not ended.
pub record IsLive (id : ℕ) (w : World) : Type 0 where
  pub run : SagaRun
  pub stored : run_of w.store id ≡ some run
  pub unended : is_terminal run.state ≡ false

pub Steady-InState :
    {A : Type 0} {m : Exec World A} (s : Steady m) {id : ℕ} {st : RunState} {w : World}
    → InState id st w
    → InState id st (m w).1
Steady-InState s {id} {st} {w} i =
    let (r, found, same) = (s.keeps w).at id i.run i.stored in
    record { run = r; stored = found; in_state = same ∙ i.in_state }

pub Steady-IsLive :
    {A : Type 0} {m : Exec World A} (s : Steady m) {id : ℕ} {w : World}
    → IsLive id w
    → IsLive id (m w).1
Steady-IsLive s {id} {w} i =
    let (r, found, same) = (s.keeps w).at id i.run i.stored in
    record { run = r; stored = found; unended = ap is_terminal same ∙ i.unended }

pub set-InState :
    (id : ℕ) (st : RunState) (step_id : String) (w : World)
    → IsLive id w
    → InState id st (on_store (update_run_state id st step_id) w).1
unfolding on_store update_run_state
set-InState id st step_id w live = record {
  run = record live.run { state = st; current_step = step_id };
  stored = rw (live.stored, lookup-insert, nat_beq_self) refl;
  in_state = refl;
}

pub set-ok :
    (id : ℕ) (st : RunState) (step_id : String) (w : World)
    → IsLive id w
    → (on_store (update_run_state id st step_id) w).0 ≡ ok tt
unfolding on_store update_run_state
set-ok id st step_id w live = rw live.stored refl

-- What follows a write of the state, as long as it moves no run.
pub set-then :
    {A : Type 0} (id : ℕ) (st : RunState) (step_id : String) {m : Exec World A} (w : World)
    → Steady m
    → IsLive id w
    → InState id st ((on_store (update_run_state id st step_id) >> m) w).1
set-then id st step_id w s live =
    rw (set-ok id st step_id w live) (Steady-InState s (set-InState id st step_id w live))

pub mark-InState :
    (now id : ℕ) (step_id text : String) (w : World)
    → IsLive id w
    → InState id failed (on_store (mark_run_failed now id step_id text) w).1
unfolding on_store mark_run_failed failed_run
mark-InState now id step_id text w live = record {
  run = failed_run now step_id text live.run;
  stored = rw (live.stored, live.unended, lookup-insert, nat_beq_self) refl;
  in_state = refl;
}

pub mark-ok :
    (now id : ℕ) (step_id text : String) (w : World)
    → IsLive id w
    → (on_store (mark_run_failed now id step_id text) w).0 ≡ ok tt
unfolding on_store mark_run_failed
mark-ok now id step_id text w live = rw (live.stored, live.unended) refl

compensate_steps-ok :
    (env : Env) (v : ActionVerb) (run : SagaRun) (steps : List Step) (w : World)
    → (compensate_steps env v run steps w).0 ≡ ok tt
unfolding compensate_steps
compensate_steps-ok env v run [] w = refl
compensate_steps-ok env v run (step ∷ rest) w = compensate_steps-ok env v run rest _

InState-IsLive : {id : ℕ} {w : World} → InState id compensating w → IsLive id w
InState-IsLive i = record { run = i.run; stored = i.stored; unended = ap is_terminal i.in_state }

roll_back-IsLive :
    (c : Coordinator) (run : SagaRun) (step : Step) (l : List Step) (w : World)
    → IsLive run.id w
    → ((roll_back c run step l (ok tt) w).0 ≡ ok tt)
      × IsLive run.id (roll_back c run step l (ok tt) w).1
unfolding emit emit_with fresh now tick on_store append_event
roll_back-IsLive c run step l w live =
    let av = action_verb_of (lookup step_type_action c.verbs) in
    let w' = (emit c.env run.id step.id 0 compensation_started "engine" w).1 in
    (
      compensate_steps-ok c.env av run (reverse l) w',
      Steady-IsLive (compensate_steps-Steady c.env av run (reverse l))
          (Steady-IsLive (emit-Steady c.env run.id step.id 0 compensation_started "engine") live),
    )

compensate_completed-IsLive :
    (c : Coordinator) (run : SagaRun) (step : Step) (l : List Step) (w : World)
    → IsLive run.id w
    → ((compensate_completed c run step l w).0 ≡ ok tt)
      × IsLive run.id (compensate_completed c run step l w).1
compensate_completed-IsLive c run step [] w live = (refl, live)
compensate_completed-IsLive c run step (x ∷ l) w live =
    rw (set-ok run.id compensating run.current_step w live) (
      roll_back-IsLive c run step (x ∷ l) _
        (InState-IsLive (set-InState run.id compensating run.current_step w live)))

-- A rollback of a run that has not ended returns, and the run has not ended then either.
pub compensate-IsLive :
    (c : Coordinator) (run : SagaRun) (d : WorkflowDefinition) (step : Step) (w : World)
    → IsLive run.id w
    → ((compensate c run d step w).0 ≡ ok tt) × IsLive run.id (compensate c run d step w).1
unfolding compensate completed_compensable_steps list_events_by_run on_store
compensate-IsLive c run d step w live = compensate_completed-IsLive c run step _ w live
