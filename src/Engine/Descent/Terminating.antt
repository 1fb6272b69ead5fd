-- ===== src/Engine/Descent/Terminating.antt =====
-- The loop of Advance (engine/advance.go) ends on a workflow without cycles.
use go_saga_orchestration.Prelude.{
  ℕ, zero, suc, ◌≡◌, ◌≤◌, ◌<◌, refl, inl, inr, false, String, Option, none, some, [], ◌∷◌, lookup,
  nat_eq, string_eq, arith, Result, ok, err, Error, wrapping, Bool-cases, ◌==◌, ◌>>=◌,
}
use go_saga_orchestration.Domain.{
  WorkflowDefinition, SagaRun, is_terminal, is_paused_state, Step, step_by_id,
}
use go_saga_orchestration.Store.Runs.{get_run}
use go_saga_orchestration.Runtime.{World, Coordinator, RegistryEntry, on_store}
use go_saga_orchestration.Engine.Steady.{Result-cases}
use go_saga_orchestration.Engine.Place.{wrapping-Tame, tick-Tame}
use go_saga_orchestration.Engine.Place.Calls.{get_run-Tame, IsTame}
use go_saga_orchestration.Engine.Resume.{Turn, again, finished}
use go_saga_orchestration.Engine.Advance.{turn, or_start, on_state, unless_done, advance, returned}
use go_saga_orchestration.Engine.Descent.{
  IsAcyclic, IsAt, Descends, call-Descends, if-Descends, finished-Descends, raise-Descends,
  read_run,
}
use go_saga_orchestration.Engine.Descent.Resuming.{paused_turn-Descends}
use go_saga_orchestration.Engine.Descent.Stepping.{step_turn-Descends}

module _ (id d : ℕ) (def : WorkflowDefinition) (rank : String → ℕ) (acyclic : IsAcyclic def rank)
    (c : Coordinator)
    (tame : (key : String) (step : Step) (entry : RegistryEntry)
      → step_by_id def key ≡ some step
      → lookup step.type c.verbs ≡ some entry
      → IsTame id d c.env entry.handler) where
  -- How far a run at the step is from the end.
  abbrev distance : String → ℕ
  distance step = rank (or_start def.start step)

  weaker :
      (step : String) {m n : ℕ} {t : World → Result Turn × World}
      → m ≤ n
      → Descends id d def rank step m t
      → Descends id d def rank step n t
  weaker step small s = record {
    descends = λ w at e.
        let x = s.descends w at e in
        record {
          next = x.next;
          is_at = x.is_at;
          named = x.named;
          lower = omega (arith, small, x.lower);
        };
  }

  paused-lower : (step : String) → rank step ≤ distance step
  paused-lower step = elim (Bool-cases (step == "")) [
    | inl blank ↦ rw blank (rw ((string_eq.beq_iff step "").0 blank) acyclic.starts)
    | inr named ↦ rw named (omega arith)
  ]

  on_state-Descends :
      (step : String) (run : SagaRun)
      → run.definition_id ≡ d
      → run.current_step ≡ step
      → Descends id d def rank step (distance step) (on_state c id run)
  on_state-Descends step run same here =
      if-Descends id d def rank step (distance step) (is_terminal run.state)
        (λ _. finished-Descends id d def rank step (distance step))
        λ _.
          if-Descends id d def rank step (distance step) (is_paused_state run.state)
            (λ _.
              weaker step (paused-lower step)
                (paused_turn-Descends id d def rank acyclic c.env step run))
            (λ _. step_turn-Descends id d def rank acyclic c tame step run same here)

  unless_done-Descends :
      (step : String) (n : ℕ) (o : Option Error) {m : World → Result Turn × World}
      → Descends id d def rank step n m
      → Descends id d def rank step n (unless_done o m)
  unless_done-Descends step n none s = s
  unless_done-Descends step n (some e) s = raise-Descends id d def rank step n e

  read-Descends :
      (step : String)
      → Descends id d def rank step
          (distance step)
          (wrapping ("get run: %w" ∷ []) (on_store (get_run id)) >>= on_state c id)
  read-Descends step =
      call-Descends id d def rank step (distance step) (wrapping-Tame id d _ (get_run-Tame id d id))
        λ run w at read.
          let (same, here, _) = read_run id d def rank step ("get run: %w" ∷ []) w run at read in
          on_state-Descends step run same here

  turn-Descends : (step : String) → Descends id d def rank step (distance step) (turn c id)
  unfolding turn
  turn-Descends step =
      call-Descends id d def rank step (distance step)
        {f = λ t.
          unless_done (c.env.context_error_at t)
            (wrapping ("get run: %w" ∷ []) (on_store (get_run id)) >>= on_state c id)}
        (tick-Tame id d)
        λ t _ _ _.
          unless_done-Descends step (distance step) (c.env.context_error_at t) (read-Descends step)

  closer :
      (step next : String) (n : ℕ)
      → (next == "") ≡ false
      → rank next < distance step
      → distance step ≤ n
      → distance next < n
  closer step next n named lower small = rw named (omega (arith, lower, small))

  -- Advance returns, with nil or an error, when it is called with more fuel than the rank of the run's
  -- step, or of the first step where the run has none: on a workflow with numbers that fall along every
  -- edge, for a run in no try_catch block, if no handler of a step of the workflow moves the run to another
  -- step, definition or try_catch block (as no action does); the other handlers may.
  pub advance-returns :
      (fuel : ℕ) (step : String) (w : World)
      → IsAt id d def step w
      → distance step < fuel
      → (r : Result (Unit {0})) × ((advance c id fuel w).0 ≡ returned r)
  unfolding advance
  advance-returns zero step w at enough = absurd (omega (arith, enough))
  advance-returns (suc fuel) step w at enough = elim (Result-cases (turn c id w).0) [
    | inl (again, more) ↦
        let x = (turn-Descends step).descends w at more in
        let rest =
          advance-returns fuel x.next (turn c id w).1 x.is_at
            (closer step x.next fuel x.named x.lower (omega (arith, enough))) in
        (rest.0, rw more rest.1)
    | inl (finished, done) ↦ (ok tt, rw done refl)
    | inr (e, failed) ↦ (err e, rw failed refl)
  ]
