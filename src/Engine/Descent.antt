-- ===== src/Engine/Descent.antt =====
-- A run on a workflow without cycles: how far the end is, and code that brings a run nearer to it.
pub mod Resuming
pub mod Failing
pub mod Stepping
pub mod Terminating
use go_saga_orchestration.Prelude.{
  ℕ, ◌≡◌, ◌≢◌, ◌∙◌, ◌≤◌, ◌<◌, refl, inl, inr, Bool, true, false, String, Option, none, some, List,
  [], ◌∷◌, lookup, nat_eq, string_eq, arith, Exec, Result, ok, err, Error, ◌>>=◌, pure, raise, lift,
  required, ignoring, wrapping, Option-cases, lookup-insert, nat_beq_self, Bool-cases, ◌==◌,
  if◌then◌else◌,
}
use go_saga_orchestration.Domain.{
  Step, Branch, WorkflowDefinition, SagaRun, step_by_id, RunState, running,
}
use go_saga_orchestration.Store.{run_of}
use go_saga_orchestration.Store.Runs.{get_run, update_run_state}
use go_saga_orchestration.Store.Definitions.{get_workflow_definition}
use go_saga_orchestration.Runtime.{World, on_store}
use go_saga_orchestration.Engine.Steady.{Result-cases}
use go_saga_orchestration.Engine.Place.{Place, place, place_of, definition_of, Kept, Tame}
use go_saga_orchestration.Engine.Resume.{Turn, again, finished, move_on}

-- The numbers fall along every edge of the workflow: from a step to its next, and to the next of
-- each of its branches, wherever these are given. A run without a step starts at the first one.
pub record IsAcyclic (def : WorkflowDefinition) (rank : String → ℕ) : Type 0 where
  pub falls :
      (id : String) (step : Step)
      → step_by_id def id ≡ some step
      → (step.next == "") ≡ false
      → rank step.next < rank id
  pub branch_falls :
      (id : String) (step : Step) (key : String) (br : Branch)
      → step_by_id def id ≡ some step
      → lookup key step.branches ≡ some br
      → (br.next == "") ≡ false
      → rank br.next < rank id
  pub starts : rank "" ≤ rank def.start

-- The run is at the step, on the definition, and in no try_catch block.
pub record IsAt (id d : ℕ) (def : WorkflowDefinition) (step : String) (w : World) : Type 0 where
  pub placed : place_of id w ≡ some (d, step, [])
  pub defined : definition_of d w ≡ some def

-- What a turn that goes on leaves: the run is at a step of a rank below the bound.
pub record Descent (id d : ℕ) (def : WorkflowDefinition) (rank : String → ℕ) (n : ℕ) (w : World)
    : Type 0 where
  pub next : String
  pub is_at : IsAt id d def next w
  pub named : (next == "") ≡ false
  pub lower : rank next < n

module _ (id d : ℕ) (def : WorkflowDefinition) (rank : String → ℕ) where
  -- Run where the run is at the step, the code either does not ask for another turn, or descends.
  pub record Descends (step : String) (n : ℕ) (m : Exec World Turn) : Type 0 where
    pub descends :
        (w : World) → IsAt id d def step w → (m w).0 ≡ ok again → Descent id d def rank n (m w).1

  pub raise-Descends : (step : String) (n : ℕ) (e : Error) → Descends step n (raise e)
  raise-Descends step n e = record { descends = λ w at eq. absurd (cc) }

  pub finished-Descends : (step : String) (n : ℕ) → Descends step n (pure finished)
  finished-Descends step n = record { descends = λ w at eq. absurd (cc) }

  pub if-Descends :
      (step : String) (n : ℕ) (b : Bool) {m k : Exec World Turn}
      → (b ≡ true → Descends step n m)
      → (b ≡ false → Descends step n k)
      → Descends step n (if b then m else k)
  if-Descends step n true s t = s refl
  if-Descends step n false s t = t refl

  kept-IsAt :
      (step : String) {w w' : World} → Kept id d w w' → IsAt id d def step w → IsAt id d def step w'
  kept-IsAt step k at = record {
    placed = k.same_place ∙ at.placed;
    defined = k.same_definition ∙ at.defined;
  }

  pub bind-Descends :
      {A : Type 0} (step : String) (n : ℕ) {m : Exec World A} {f : A → Exec World Turn}
      → ((w : World) (a : A) → (m w).0 ≡ ok a → Kept id d w (m w).1)
      → ((a : A) (w : World) → IsAt id d def step w → (m w).0 ≡ ok a → Descends step n (f a))
      → Descends step n (m >>= f)
  bind-Descends step n {m} {f} kept t = record {
    descends = λ w at. elim (Result-cases (m w).0) [
      | inl (a, done) ↦
          rw done ((t a w at done).descends (m w).1 (kept-IsAt step (kept w a done) at))
      | inr (e, failed) ↦ rw failed (λ eq. absurd (cc))
    ];
  }

  same_parts :
      (r : SagaRun) (step : String)
      → place (some r) ≡ some (d, step, [])
      → (r.definition_id ≡ d) × (r.current_step ≡ step) × (r.try_catch_stack ≡ [])
  same_parts r step e = (cc, cc, cc)

  -- A call that leaves the run where it is.
  pub call-Descends :
      {A : Type 0} (step : String) (n : ℕ) {m : Exec World A} {f : A → Exec World Turn}
      → Tame id d m
      → ((a : A) (w : World) → IsAt id d def step w → (m w).0 ≡ ok a → Descends step n (f a))
      → Descends step n (m >>= f)
  call-Descends step n s = bind-Descends step n (λ w a e. s.keeps w)

  -- The run exists where it is at a step.
  pub found_at :
      (step : String) (w : World)
      → IsAt id d def step w
      → (r : SagaRun) × (run_of w.store id ≡ some r)
        × (r.definition_id ≡ d)
        × (r.current_step ≡ step)
        × (r.try_catch_stack ≡ [])
  found_at step w at = elim (Option-cases (run_of w.store id)) [
    | inl missing ↦ absurd (let e = at.placed in cc)
    | inr (r, found) ↦
        let (x, y, z) = same_parts r step (let e = at.placed in cc) in (r, found, x, y, z)
  ]

  -- The write of the next step.
  pub moved :
      (step next : String) (state : RunState) (w : World)
      → IsAt id d def step w
      → ((on_store (update_run_state id state next) w).0 ≡ ok tt)
        × IsAt id d def next (on_store (update_run_state id state next) w).1
  unfolding on_store update_run_state
  moved step next state w at =
      let (r, found, same, _, empty) = found_at step w at in
      rw found (refl, record { placed = rw (lookup-insert, nat_beq_self) cc; defined = at.defined })

  -- The run goes on at a step of a lower rank, if there is one to go on at.
  pub move_on-Descends :
      (step : String) (n : ℕ) (missing : Error) (failure next : String)
      → ((next == "") ≡ false → rank next < n)
      → Descends step n (move_on missing failure id next)
  unfolding move_on
  move_on-Descends step n missing failure next lower =
      if-Descends step n (next == "") (λ _. raise-Descends step n missing)
        λ named. record {
          descends = λ w at.
              let (done, at') = moved step next running w at in
              rw done
                (λ _. record { next = next; is_at = at'; named = named; lower = lower named });
        }

  -- What a read of the run, or of its definition, gives.
  pub read_run :
      (step : String) (t : List String) (w : World) (run : SagaRun)
      → IsAt id d def step w
      → (wrapping t (on_store (get_run id)) w).0 ≡ ok run
      → (run.definition_id ≡ d) × (run.current_step ≡ step) × (run.try_catch_stack ≡ [])
  unfolding on_store get_run
  read_run step t w run at =
      let (r, found, x, y, z) = found_at step w at in rw found (λ e. (cc, cc, cc))

  pub read_definition :
      (step : String) (t : List String) (w : World) (k : ℕ) (def' : WorkflowDefinition)
      → IsAt id d def step w
      → k ≡ d
      → (wrapping t (on_store (get_workflow_definition k)) w).0 ≡ ok def'
      → def' ≡ def
  unfolding on_store get_workflow_definition
  read_definition step t w k def' at same = rw (same, at.defined) (λ e. cc)

  -- A required value is there when the code behind it runs.
  pub required-Descends :
      {A : Type 0} (step : String) (n : ℕ) (e : Error) (o : Option A) {f : A → Exec World Turn}
      → ((a : A) → o ≡ some a → Descends step n (f a))
      → Descends step n (lift (required e o) >>= f)
  required-Descends step n e none t = raise-Descends step n e
  required-Descends step n e (some a) t = record { descends = (t a refl).descends }

  -- Code that asks for no other turn.
  pub record Quits (m : Exec World Turn) : Type 0 where
    pub quits : (w : World) → (m w).0 ≢ ok again

  pub Quits-Descends : (step : String) (n : ℕ) {m : Exec World Turn} → Quits m → Descends step n m
  Quits-Descends step n q = record { descends = λ w at eq. absurd (q.quits w eq) }

  pub raise-Quits : (e : Error) → Quits (raise e)
  raise-Quits e = record { quits = λ w eq. cc }

  pub finished-Quits : Quits (pure finished)
  finished-Quits = record { quits = λ w eq. cc }

  pub bind-Quits :
      {A : Type 0} (m : Exec World A) {f : A → Exec World Turn}
      → ((a : A) → Quits (f a))
      → Quits (m >>= f)
  bind-Quits m t = record {
    quits = λ w. elim (Result-cases (m w).0) [
      | inl (a, done) ↦ rw done ((t a).quits (m w).1)
      | inr (e, failed) ↦ rw failed (λ eq. cc)
    ];
  }

  -- The write of the current step before its handler runs.
  pub entering-Descends :
      (step next : String) (n : ℕ) (state : RunState) (m : Exec World Turn)
      → Descends next n m
      → Descends step n (ignoring (on_store (update_run_state id state next)) >>= λ _. m)
  entering-Descends step next n state m s = record {
    descends = λ w at.
        s.descends (on_store (update_run_state id state next) w).1 (moved step next state w at).1;
  }
