-- ===== src/Verbs/Fan/Children.antt =====
-- A child that a fan-out stores, beside the parent and the other children: engine/verbs/foreach.go and
-- parallel.go.
use go_saga_orchestration.Prelude.{
  ℕ, suc, ◌+◌, ◌<◌, ◌≡◌, ◌≢◌, ◌∙◌, refl, ap, true, false, String, some, List, [], ◌∷◌, ◌++◌, lookup,
  insert, lookup-insert, nat_eq, nat_beq_self, string_eq, ◌==◌, arith, ok,
}
use go_saga_orchestration.Domain.{Fields, SagaRun, Step, WorkflowDefinition}
use go_saga_orchestration.Store.{Store, rows, run_of}
use go_saga_orchestration.Store.Children.{
  spawn_child_run, spawn_child_run_at, child_run, resolve_definition, last,
}
use go_saga_orchestration.Store.Definitions.{upsert_workflow_definition}
use go_saga_orchestration.Runtime.{Env, World, tick, fresh, now, on_store}
use go_saga_orchestration.Verbs.Fan.{spawn_branch}

-- What a child of a fan-out is to be: its branch, its first step and steps, and its inputs.
pub record ChildSpec : Type 0 where
  pub key : String
  pub start : String
  pub steps : List Step
  pub inputs : Fields

-- The id names a stored child of the step, as the spec says, on a stored definition of its own.
pub record IsChild (run : SagaRun) (step : Step) (spec : ChildSpec) (w : World) (id : ℕ)
    : Type 0 where
  pub child : SagaRun
  pub stored : run_of w.store id ≡ some child
  pub parent : child.parent_run_id ≡ some run.id
  pub spawned_by : child.parent_step_id ≡ some step.id
  pub branch : child.parent_branch_id ≡ some spec.key
  pub given : child.inputs ≡ spec.inputs
  pub program : WorkflowDefinition
  pub defined : lookup child.definition_id w.store.defs ≡ some program
  pub starts : program.start ≡ spec.start
  pub runs_steps : program.steps ≡ spec.steps

last-append : (l : List ℕ) (x : ℕ) → last (l ++ x ∷ []) ≡ some x
last-append [] x = refl
last-append (y ∷ []) x = refl
last-append (y ∷ z ∷ l) x = last-append (z ∷ l) x

same_text : (t : String) → (t == t) ≡ true
same_text t = (string_eq.beq_iff t t).1 refl

resolve-last :
    (fresh_def row : ℕ) (def : WorkflowDefinition) (s : Store)
    → last (rows (lookup def.id s.defs_by_name)) ≡ some row
    → resolve_definition fresh_def def s ≡ (row, s)
unfolding resolve_definition
resolve-last fresh_def row def s newest = rw (resolve_definition, newest) refl

newest_row :
    (row : ℕ) (def : WorkflowDefinition) (s : Store)
    → last (rows (lookup def.id (upsert_workflow_definition row def s).1.defs_by_name)) ≡ some row
unfolding upsert_workflow_definition
newest_row row def s =
    let ids = rows (lookup def.id s.defs_by_name) in
    rw (lookup-insert def.id def.id (ids ++ row ∷ []) s.defs_by_name, same_text def.id)
      (last-append ids row)

-- A definition that has just been stored is the one that a child resolves to.
resolved :
    (fresh_def row : ℕ) (def : WorkflowDefinition) (s : Store)
    → resolve_definition fresh_def def (upsert_workflow_definition row def s).1
      ≡ (row, (upsert_workflow_definition row def s).1)
resolved fresh_def row def s =
    resolve-last fresh_def row def (upsert_workflow_definition row def s).1 (newest_row row def s)

module _ (env : Env) (run : SagaRun) (step : Step) (others : (n : ℕ) → env.uuid_at n ≢ run.id)
    (apart : (n m : ℕ) → env.uuid_at n ≡ env.uuid_at m → n ≡ m) where
  -- A child whose definition got its id at the clock reading, and which got its own id two readings
  -- later.
  pub record ChildAt (spec : ChildSpec) (w : World) (b : ℕ) : Type 0 where
    pub before : suc (suc b) < w.clock
    pub child : SagaRun
    pub stored : run_of w.store (env.uuid_at (suc (suc b))) ≡ some child
    pub parent : child.parent_run_id ≡ some run.id
    pub spawned_by : child.parent_step_id ≡ some step.id
    pub branch : child.parent_branch_id ≡ some spec.key
    pub given : child.inputs ≡ spec.inputs
    pub row : child.definition_id ≡ env.uuid_at b
    pub program : WorkflowDefinition
    pub defined : lookup (env.uuid_at b) w.store.defs ≡ some program
    pub starts : program.start ≡ spec.start
    pub runs_steps : program.steps ≡ spec.steps

  pub ChildAt-IsChild :
      (spec : ChildSpec) (w : World) (b : ℕ)
      → ChildAt spec w b
      → IsChild run step spec w (env.uuid_at (suc (suc b)))
  ChildAt-IsChild spec w b c = record {
    child = c.child;
    stored = c.stored;
    parent = c.parent;
    spawned_by = c.spawned_by;
    branch = c.branch;
    given = c.given;
    program = c.program;
    defined = ap (λ d. lookup d w.store.defs) c.row ∙ c.defined;
    starts = c.starts;
    runs_steps = c.runs_steps;
  }

  -- What the spawn of one branch does to the world.
  record Effect (key : String) (def : WorkflowDefinition) (inputs : Fields) (w w' : World)
      : Type 0 where
    new_run : SagaRun
    new_run_is :
        new_run
        ≡ child_run
            (env.uuid_at (suc (suc w.clock)))
            (env.time_at (suc (suc (suc w.clock))))
            run.id
            step.id
            key
            def.id
            (env.uuid_at w.clock)
            inputs
            ""
    runs : w'.store.runs ≡ insert (env.uuid_at (suc (suc w.clock))) new_run w.store.runs
    defs : w'.store.defs ≡ insert (env.uuid_at w.clock) def w.store.defs
    clock : w'.clock ≡ w.clock + 4
    outbox : w'.outbox ≡ w.outbox

  spawn_branch-Effect :
      (failure key : String) (def : WorkflowDefinition) (inputs : Fields) (w : World)
      → ((spawn_branch env failure run step key def inputs w).0
          ≡ ok (env.uuid_at (suc (suc w.clock))))
        × Effect key def inputs w (spawn_branch env failure run step key def inputs w).1
  unfolding spawn_branch fresh now tick on_store spawn_child_run spawn_child_run_at
      upsert_workflow_definition
  spawn_branch-Effect failure key def inputs w =
      let s = (upsert_workflow_definition (env.uuid_at w.clock) def w.store).1 in
      let same = resolved (env.uuid_at (suc w.clock)) (env.uuid_at w.clock) def w.store in
      (
        refl,
        record {
          new_run = _;
          new_run_is = refl;
          runs =
              ap
                (λ p.
                  insert (env.uuid_at (suc (suc w.clock)))
                    (child_run (env.uuid_at (suc (suc w.clock)))
                      (env.time_at (suc (suc (suc w.clock)))) run.id step.id key def.id p.0 inputs
                      "")
                    p.1.runs)
                same;
          defs = ap (λ p. p.1.defs) same;
          clock = omega arith;
          outbox = refl;
        },
      )

  distinct : (n m : ℕ) → n ≢ m → (env.uuid_at n == env.uuid_at m) ≡ false
  distinct n m ne = ground (arith, apart n m)

  pub record Spawned (spec : ChildSpec) (w w' : World) : Type 0 where
    pub unsent : w'.outbox ≡ w.outbox
    pub same_parent : run_of w'.store run.id ≡ run_of w.store run.id
    pub new_child : ChildAt spec w' w.clock
    pub later : w.clock < w'.clock
    pub old_children : (old : ChildSpec) (b : ℕ) → ChildAt old w b → ChildAt old w' b

  kept-ChildAt :
      (key : String) (def : WorkflowDefinition) (inputs : Fields) (w w' : World)
      → Effect key def inputs w w'
      → (old : ChildSpec) (b : ℕ) → ChildAt old w b
      → ChildAt old w' b
  kept-ChildAt key def inputs w w' e old b c = record {
    before = omega (arith, c.before, e.clock);
    child = c.child;
    stored =
        rw
          (
            e.runs,
            lookup-insert (env.uuid_at (suc (suc w.clock))) (env.uuid_at (suc (suc b))) e.new_run
                w.store.runs,
            distinct (suc (suc w.clock)) (suc (suc b)) (λ q. omega (arith, q, c.before)),
          )
          c.stored;
    parent = c.parent;
    spawned_by = c.spawned_by;
    branch = c.branch;
    given = c.given;
    row = c.row;
    program = c.program;
    defined =
        rw
          (
            e.defs,
            lookup-insert (env.uuid_at w.clock) (env.uuid_at b) def w.store.defs,
            distinct w.clock b (λ q. omega (arith, q, c.before)),
          )
          c.defined;
    starts = c.starts;
    runs_steps = c.runs_steps;
  }

  Effect-Spawned :
      (key : String) (def : WorkflowDefinition) (inputs : Fields) (w w' : World)
      → Effect key def inputs w w'
      → Spawned (record { key = key; start = def.start; steps = def.steps; inputs = inputs }) w w'
  unfolding child_run
  Effect-Spawned key def inputs w w' e = record {
    unsent = e.outbox;
    same_parent =
        rw
          (
            e.runs,
            lookup-insert (env.uuid_at (suc (suc w.clock))) run.id e.new_run w.store.runs,
            not_parent (suc (suc w.clock)),
          )
          refl;
    new_child = record {
      before = omega (arith, e.clock);
      child = e.new_run;
      stored =
          rw
            (
              e.runs,
              lookup-insert (env.uuid_at (suc (suc w.clock))) (env.uuid_at (suc (suc w.clock)))
                  e.new_run w.store.runs,
              nat_beq_self (env.uuid_at (suc (suc w.clock))),
            )
            refl;
      parent = ap (λ r. r.parent_run_id) e.new_run_is;
      spawned_by = ap (λ r. r.parent_step_id) e.new_run_is;
      branch = ap (λ r. r.parent_branch_id) e.new_run_is;
      given = ap (λ r. r.inputs) e.new_run_is;
      row = ap (λ r. r.definition_id) e.new_run_is;
      program = def;
      defined =
          rw
            (
              e.defs,
              lookup-insert (env.uuid_at w.clock) (env.uuid_at w.clock) def w.store.defs,
              nat_beq_self (env.uuid_at w.clock),
            )
            refl;
      starts = refl;
      runs_steps = refl;
    };
    later = omega (arith, e.clock);
    old_children = kept-ChildAt key def inputs w w' e;
  }
    where
      not_parent : (n : ℕ) → (env.uuid_at n == run.id) ≡ false
      not_parent n = ground (arith, others n)

  -- One child is stored, beside the parent and the children before it.
  pub spawn_branch-Spawned :
      (failure key : String) (def : WorkflowDefinition) (inputs : Fields) (w : World)
      → ((spawn_branch env failure run step key def inputs w).0
          ≡ ok (env.uuid_at (suc (suc w.clock))))
        × Spawned
            (record { key = key; start = def.start; steps = def.steps; inputs = inputs })
            w
            (spawn_branch env failure run step key def inputs w).1
  spawn_branch-Spawned failure key def inputs w =
      let (first, e) = spawn_branch-Effect failure key def inputs w in
      (first, Effect-Spawned key def inputs w _ e)
