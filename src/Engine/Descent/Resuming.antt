-- ===== src/Engine/Descent/Resuming.antt =====
-- A paused run that goes on, goes on at a step of a lower rank: engine/advance.go.
use go_saga_orchestration.Prelude.{
  ℕ, ◌≡◌, ◌≤◌, ◌<◌, sym, inl, inr, Bool, true, false, not, ◌&&◌, ◌||◌, String, some, [], ◌∷◌,
  lookup, nat_eq, string_eq, arith, is_none, Option-cases, Bool-cases, ◌==◌, errorf,
}
use go_saga_orchestration.Domain.{Step, WorkflowDefinition, SagaRun, step_by_id, step_succeeded}
use go_saga_orchestration.Store.Pauses.{is_due}
use go_saga_orchestration.Runtime.{Env}
use go_saga_orchestration.Engine.Place.{Tame, wrapping-Tame, pure-Tame}
use go_saga_orchestration.Engine.Place.Calls.{
  get_run-Tame, get_definition-Tame, clear_pause-Tame, emit-Tame, now-Tame,
  children_still_running-Tame,
}
use go_saga_orchestration.Engine.Descent.{
  IsAcyclic, Descends, call-Descends, if-Descends, move_on-Descends, finished-Descends,
  required-Descends, read_run, read_definition,
}
use go_saga_orchestration.Engine.Resume.{
  resume, resume_target, paused_turn, still_waiting, resume_unless, has_awaits,
}

module _ (id d : ℕ) (def : WorkflowDefinition) (rank : String → ℕ)
    (acyclic : IsAcyclic def rank) where
  target-lower :
      (key : String) (step : Step) (timed_out : Bool)
      → step_by_id def key ≡ some step
      → (resume_target step timed_out == "") ≡ false
      → rank (resume_target step timed_out) < rank key
  unfolding resume_target
  target-lower key step false found = acyclic.falls key step found
  target-lower key step true found = elim (Option-cases (lookup "timeout" step.branches)) [
    | inl missing ↦ rw missing (acyclic.falls key step found)
    | inr (br, at) ↦ rw at (elim (Bool-cases (br.next == "")) [
      | inl blank ↦ rw blank (acyclic.falls key step found)
      | inr named ↦ rw named (λ e. acyclic.branch_falls key step "timeout" br found at named)
    ])
  ]

  resume-Descends :
      (env : Env) (step : String) (n : ℕ) (timed_out : Bool)
      → rank step ≤ n
      → Descends id d def rank step n (resume env id timed_out)
  unfolding resume
  resume-Descends env step n timed_out small =
      call-Descends id d def rank step n (wrapping-Tame id d _ (clear_pause-Tame id d id))
        λ _ _ _ _.
          call-Descends id d def rank step n (wrapping-Tame id d _ (get_run-Tame id d id))
            λ run w at read.
              call-Descends id d def rank step n
                (wrapping-Tame id d _ (get_definition-Tame id d run.definition_id))
                λ def' w' at' read'.
                  required-Descends id d def rank step n _ (step_by_id def' run.current_step)
                    λ s found.
                      call-Descends id d def rank step n
                        (emit-Tame id d env id s.id 0 step_succeeded "engine")
                        λ _ _ _ _.
                          move_on-Descends id d def rank step n
                            (errorf ("paused step %s has no next" ∷ s.id ∷ []))
                            "set next after clear: %w" (resume_target s timed_out)
                            (let (e, here, _) = read_run id d def rank step _ w run at read in
                              let same =
                                read_definition id d def rank step _ w' run.definition_id def' at' e
                                  read' in
                              λ named. omega (
                                arith,
                                small,
                                target-lower step s timed_out (rw (sym same, sym here) found) named,
                              ))

  resume_unless-Descends :
      (env : Env) (step : String) (timed_out waiting : Bool)
      → Descends id d def rank step (rank step) (resume_unless env id timed_out waiting)
  resume_unless-Descends env step timed_out true = finished-Descends id d def rank step (rank step)
  resume_unless-Descends env step timed_out false =
      resume-Descends env step (rank step) timed_out (omega arith)

  still_waiting-Tame :
      (env : Env) (run : SagaRun) (due : Bool) → Tame id d (still_waiting env run due)
  still_waiting-Tame env run true = pure-Tame id d false
  still_waiting-Tame env run false = children_still_running-Tame id d env run

  pub paused_turn-Descends :
      (env : Env) (step : String) (run : SagaRun)
      → Descends id d def rank step (rank step) (paused_turn env id run)
  unfolding paused_turn
  paused_turn-Descends env step run =
      let n = rank step in
      call-Descends id d def rank step n (now-Tame id d env) λ t _ _ _.
        let due = is_due t run.wakeup_at in
        if-Descends id d def rank step n (due || (not (has_awaits run) && is_none run.wakeup_at))
          (λ _.
            call-Descends id d def rank step n (still_waiting-Tame env run due)
              λ waiting _ _ _. resume_unless-Descends env step (due && has_awaits run) waiting)
          (λ _. finished-Descends id d def rank step n)
