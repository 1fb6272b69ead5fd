-- ===== src/Engine/Compensation/Steady.antt =====
-- The dispatch of compensations moves no run to another state.
use go_saga_orchestration.Prelude.{ℕ, String, Option, none, some, List, [], ◌∷◌, string_eq}
use go_saga_orchestration.Domain.{SagaRun, Step, Compensation}
use go_saga_orchestration.Runtime.{
  Env, World, on_store, ActionVerb, emit, emit_with, tick, now, fresh,
}
use go_saga_orchestration.Store.Runs.{append_event}
use go_saga_orchestration.Domain.{EventType}
use go_saga_orchestration.Verbs.Action.Silent.{dispatch_compensation-Steady}
use go_saga_orchestration.Engine.Compensation.{compensate_steps, compensate_step}
use go_saga_orchestration.Engine.Steady.{
  Steady, pure-Steady, ignoring-Steady, SameStates, SameStates-refl, SameStates-trans,
}

pub emit-Steady :
    (env : Env) (id : ℕ) (step_id : String) (attempt : ℕ) (t : EventType) (actor : String)
    → Steady (emit env id step_id attempt t actor)
unfolding emit emit_with fresh now tick on_store append_event
emit-Steady env id step_id attempt t actor = record { keeps = λ w. SameStates-refl w.store.runs }

compensate_step-Steady :
    (env : Env) (v : ActionVerb) (run : SagaRun) (step : Step) (o : Option Compensation)
    → Steady (compensate_step env v run step o)
compensate_step-Steady env v run step none = pure-Steady tt
compensate_step-Steady env v run step (some comp) =
    ignoring-Steady
      (dispatch_compensation-Steady env v run.id step.id comp.action comp.inputs run.dry_run)

compensate_steps-same :
    (env : Env) (v : ActionVerb) (run : SagaRun) (steps : List Step) (w : World)
    → SameStates w.store.runs (compensate_steps env v run steps w).1.store.runs
unfolding compensate_steps
compensate_steps-same env v run [] w = SameStates-refl w.store.runs
compensate_steps-same env v run (step ∷ rest) w =
    SameStates-trans ((compensate_step-Steady env v run step step.compensation).keeps w)
      (compensate_steps-same env v run rest _)

pub compensate_steps-Steady :
    (env : Env) (v : ActionVerb) (run : SagaRun) (steps : List Step)
    → Steady (compensate_steps env v run steps)
compensate_steps-Steady env v run steps = record { keeps = compensate_steps-same env v run steps }
