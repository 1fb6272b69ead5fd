-- ===== src/Engine/Descent/Stepping.antt =====
-- A step that lets the loop go on leaves the run at a step of a lower rank: engine/advance.go.
use go_saga_orchestration.Prelude.{
  ℕ, ◌≡◌, ◌≤◌, ◌<◌, sym, inl, inr, Bool, true, false, String, some, [], ◌∷◌, lookup, nat_eq,
  string_eq, arith, Exec, Result, ok, err, Error, errorf, wrap, ◌>>=◌, raise, Option-cases,
  Bool-cases, ◌==◌, ◌≢◌,
}
use go_saga_orchestration.Domain.{
  Step, WorkflowDefinition, SagaRun, Fields, end, field, get, as_string, step_by_id, step_succeeded,
  step_type_end, is_pending, running, step_dispatched, saga_started, str,
}
use go_saga_orchestration.Runtime.{Env, World, Coordinator, RegistryEntry, tick}
use go_saga_orchestration.Verbs.Licensing.{feature_of, license_group_for_step}
use go_saga_orchestration.Engine.Steady.{Result-cases}
use go_saga_orchestration.Engine.Place.{
  Kept, Tame, wrapping-Tame, pure-Tame, if-Tame, tick-Tame, Kept-refl, Kept-trans, outcome-Tame,
  lift-Tame,
}
use go_saga_orchestration.Engine.Place.Calls.{
  get_definition-Tame, emit-Tame, update_run_variables-Tame, execute_step-Tame, IsTame,
}
use go_saga_orchestration.Engine.Failure.{license_gate, decide_gate, pass_gate, reject}
use go_saga_orchestration.Engine.Advance.{
  next_step, needs_branch, store_result, handle_result, handle_outcome, run_verb, or_start,
  announce, complete_or_run, step_turn,
}
use go_saga_orchestration.Engine.Descent.{
  IsAcyclic, Descends, bind-Descends, call-Descends, if-Descends, move_on-Descends,
  required-Descends, read_definition, Quits-Descends, entering-Descends,
}
use go_saga_orchestration.Engine.Descent.Failing.{complete_run-Quits, handle_error-Descends}

ok-inj : (x y : String) → ok x ≡ ok y → x ≡ y
ok-inj x y e = cc

module _ (id d : ℕ) (def : WorkflowDefinition) (rank : String → ℕ) where
  raised_last :
      (m : Exec World Unit) (e : Error) (w : World) (u : Unit) → ((m >>= λ _. raise e) w).0 ≢ ok u
  raised_last m e w u = elim (Result-cases (m w).0) [
    | inl (a, done) ↦ rw done (λ eq. cc)
    | inr (e', failed) ↦ rw failed (λ eq. cc)
  ]

  -- A step that passes the license gate is still where it was.
  decide_gate-Kept :
      (env : Env) (step : Step) (group feature : String) (r : Result Bool) (w : World) (u : Unit)
      → (decide_gate env id step group feature r w).0 ≡ ok u
      → Kept id d w (decide_gate env id step group feature r w).1
  decide_gate-Kept env step group feature (ok true) w u e = Kept-refl id d w
  decide_gate-Kept env step group feature (ok false) w u e =
      let reason = "license_gate: feature %q not enabled for tenant" ∷ feature ∷ [] in
      absurd (
        raised_last
          (reject env id step (field "group" (str group) (field "feature" (str feature) end))
            reason)
          (errorf reason) w u e)
  decide_gate-Kept env step group feature (err failure) w u e = absurd (
      raised_last
        (reject env id step end
          ("license check for feature %q: %v" ∷ feature ∷ env.render failure ∷ []))
        (wrap ("license check for step %q (feature %q): %w" ∷ step.id ∷ feature ∷ []) failure) w u
        e)

  pass_gate-Kept :
      (env : Env) (run : SagaRun) (step : Step) (group feature : String) (w : World) (u : Unit)
      → (pass_gate env id run step group feature w).0 ≡ ok u
      → Kept id d w (pass_gate env id run step group feature w).1
  unfolding tick
  pass_gate-Kept env run step group feature w u = elim (Bool-cases (feature == "")) [
    | inl free ↦ rw free (λ e. Kept-refl id d w)
    | inr gated ↦ rw gated λ e.
        Kept-trans id d ((tick-Tame id d).keeps w) (decide_gate-Kept env step group feature _ _ u e)
  ]

  gate-Kept :
      (env : Env) (run : SagaRun) (step : Step) (entry : RegistryEntry) (w : World) (u : Unit)
      → (license_gate env id run step entry w).0 ≡ ok u
      → Kept id d w (license_gate env id run step entry w).1
  unfolding license_gate
  gate-Kept env run step entry =
      pass_gate-Kept env run step (license_group_for_step step entry.license_group)
        (feature_of (license_group_for_step step entry.license_group))

  store_result-Tame : (result : Fields) → Tame id d (store_result id result)
  store_result-Tame end = pure-Tame id d tt
  store_result-Tame (field k v m) =
      wrapping-Tame id d _ (update_run_variables-Tame id d id (field k v m))

  announce-Tame : (env : Env) (run : SagaRun) → Tame id d (announce env id run)
  announce-Tame env run =
      if-Tame id d (is_pending run.state) (emit-Tame id d env id "" 0 saga_started "engine")
        (pure-Tame id d tt)

module _ (id d : ℕ) (def : WorkflowDefinition) (rank : String → ℕ)
    (acyclic : IsAcyclic def rank) where
  chosen :
      (key next x : String)
      → ((x == "") ≡ false → rank x < rank key)
      → (ok x ≡ ok next)
      → (next == "") ≡ false
      → rank next < rank key
  chosen key next x lower e = rw (sym (ok-inj x next e)) lower

  next_step-lower :
      (key : String) (step : Step) (result : Fields) (next : String)
      → step_by_id def key ≡ some step
      → next_step step result ≡ ok next
      → (next == "") ≡ false
      → rank next < rank key
  unfolding next_step
  next_step-lower key step result next found =
      let plain = chosen key next step.next (acyclic.falls key step found) in
      let name = as_string (get "branch" result) in
      elim (Bool-cases (name == "")) [
        | inl blank ↦ rw blank plain
        | inr named ↦ rw named (elim (Option-cases (lookup name step.branches)) [
          | inl missing ↦ rw missing (elim (Bool-cases (needs_branch step)) [
            | inl needed ↦ rw needed (λ e. absurd cc)
            | inr free ↦ rw free plain
          ])
          | inr (br, at) ↦
              rw at (chosen key next br.next (acyclic.branch_falls key step name br found at))
        ])
      ]

  handle_result-Descends :
      (env : Env) (at_step key : String) (n : ℕ) (step : Step) (result : Fields)
      → step_by_id def key ≡ some step
      → rank key ≤ n
      → Descends id d def rank at_step n (handle_result env id step result)
  unfolding handle_result
  handle_result-Descends env at_step key n step result found small =
      call-Descends id d def rank at_step n (store_result-Tame id d def rank result) λ _ _ _ _.
        call-Descends id d def rank at_step n
          (emit-Tame id d env id step.id 0 step_succeeded "engine")
          λ _ _ _ _.
            call-Descends id d def rank at_step n (lift-Tame id d (next_step step result))
              λ next _ _ chosen_next.
                move_on-Descends id d def rank at_step n
                  (errorf ("step %q has no next and is not end" ∷ step.id ∷ [])) "set next step: %w"
                  next
                  (λ named.
                    omega
                      (arith, small, next_step-lower key step result next found chosen_next named))

  module _ (c : Coordinator)
      (tame : (key : String) (step : Step) (entry : RegistryEntry)
        → step_by_id def key ≡ some step
        → lookup step.type c.verbs ≡ some entry
        → IsTame id d c.env entry.handler) where
    outcome-Descends :
        (at_step key : String) (n : ℕ) (run : SagaRun) (step : Step) (result : Result Fields)
        → step_by_id def key ≡ some step
        → rank key ≤ n
        → Descends id d def rank at_step n (handle_outcome c id run def step result)
    outcome-Descends at_step key n run step (ok result) found small =
        handle_result-Descends c.env at_step key n step result found small
    outcome-Descends at_step key n run step (err e) found small =
        handle_error-Descends id d def rank c run def at_step n step e

    run_verb-Descends :
        (at_step key : String) (n : ℕ) (run : SagaRun) (step : Step)
        → step_by_id def key ≡ some step
        → rank key ≤ n
        → Descends id d def rank at_step n (run_verb c id run def step)
    unfolding run_verb
    run_verb-Descends at_step key n run step found small =
        required-Descends id d def rank at_step n _ (lookup step.type c.verbs) λ entry registered.
          bind-Descends id d def rank at_step n (gate-Kept id d def rank c.env run step entry)
            λ _ _ _ _.
              call-Descends id d def rank at_step n
                (outcome-Tame id d (
                  execute_step-Tame id d c.env entry.handler run step
                    (tame key step entry found registered)))
                λ result _ _ _. outcome-Descends at_step key n run step result found small

    -- The turn on a run that is read at its step.
    pub step_turn-Descends :
        (at_step : String) (run : SagaRun)
        → run.definition_id ≡ d
        → run.current_step ≡ at_step
        → Descends id d def rank at_step (rank (or_start def.start at_step)) (step_turn c id run)
    unfolding step_turn
    step_turn-Descends at_step run same here =
        let key = or_start def.start at_step in
        let n = rank key in
        call-Descends id d def rank at_step n
          (wrapping-Tame id d _ (get_definition-Tame id d run.definition_id))
          λ def' w at read.
            call-Descends id d def rank at_step n (announce-Tame id d def rank c.env run) λ _ _ _ _.
              required-Descends id d def rank at_step n _
                (step_by_id def' (or_start def'.start run.current_step))
                λ step found.
                  call-Descends id d def rank at_step n
                    (emit-Tame id d c.env id step.id 0 step_dispatched "engine")
                    λ _ _ _ _.
                      entering-Descends id d def rank at_step step.id n running
                        (complete_or_run c id run def' step)
                        (if-Descends id d def rank step.id n (step.type == step_type_end)
                          (λ _.
                            Quits-Descends id d def rank step.id n
                              (complete_run-Quits id d def rank c.env run step))
                          (λ _.
                            let is_def =
                              read_definition id d def rank at_step _ w run.definition_id def' at
                                same read in
                            rw is_def (
                              run_verb-Descends step.id key n run step
                                (rw (sym is_def, sym here) found) (omega arith))))
