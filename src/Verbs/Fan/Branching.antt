-- ===== src/Verbs/Fan/Branching.antt =====
-- What the parallel verb leaves behind: engine/verbs/parallel.go.
use go_saga_orchestration.Prelude.{
  ℕ, suc, ◌≡◌, ◌≢◌, refl, true, false, String, some, List, [], ◌∷◌, string_eq, ◌==◌, length, ok,
  none, concat, if◌then◌else◌,
}
use go_saga_orchestration.Domain.{
  Value, Values, Fields, cons, get, as_string, as_fields, as_list, elements, SagaRun, Step,
}
use go_saga_orchestration.Store.{run_of}
use go_saga_orchestration.Runtime.{Env, World, Message, tick, fresh}
use go_saga_orchestration.Verbs.Fan.{
  spawn_branch, spawn_branches, steps_of, keyed, branch_definition, normalize_branch, raw_branches,
  check_strategy, parallel_verb,
}
use go_saga_orchestration.Verbs.Fan.Children.{ChildSpec, spawn_branch-Spawned}
use go_saga_orchestration.Verbs.Fan.Fanning.{
  Batch, nil-Batch, cons-Batch, ids_of, Fanned, pause-Fanned,
}

-- The value is a branch that the verb takes at its position: an object that names, behind the forms
-- that are filled in, a first step and steps that parse.
pub record IsBranch (env : Env) (i : ℕ) (v : Value) : Type 0 where
  pub fields : Fields
  pub start : String
  pub steps : List Step
  pub is_object : as_fields (some v) ≡ some fields
  pub starts : as_string (get "start" (normalize_branch env fields i)) ≡ start
  pub named : (start == "") ≡ false
  pub parsed : steps_of env (as_list (get "steps" (normalize_branch env fields i))) ≡ ok steps

abbrev pub AreBranches : Env → ℕ → List Value → Type 0
AreBranches env i [] = Unit
AreBranches env i (v ∷ l) = IsBranch env i v × AreBranches env (suc i) l

-- One child for each branch: under the branch's key, or "b0", "b1" and so on where it has none, with the
-- variables of the parent as its inputs.
abbrev pub branch_children :
    (env : Env) → SagaRun → (i : ℕ) (l : List Value) → AreBranches env i l → List ChildSpec
branch_children env run i [] h = []
branch_children env run i (v ∷ l) h =
    let b = h.0 in
    let key = as_string (get "key" (normalize_branch env b.fields i)) in
    record {
      key = if key == "" then concat "b" (env.decimal i) else key;
      start = b.start;
      steps = b.steps;
      inputs = run.variables;
    }
    ∷ branch_children env run (suc i) l h.1

module _ (env : Env) (run : SagaRun) (step : Step) (others : (n : ℕ) → env.uuid_at n ≢ run.id)
    (apart : (n m : ℕ) → env.uuid_at n ≡ env.uuid_at m → n ≡ m) where
  abbrev key_of : (i : ℕ) (v : Value) → IsBranch env i v → String
  key_of i v b = keyed env i (as_string (get "key" (normalize_branch env b.fields i)))

  -- The world behind one branch.
  abbrev after_branch : (i : ℕ) (v : Value) → IsBranch env i v → World → World
  after_branch i v b w =
      (spawn_branch env "parallel" run step (key_of i v b)
        (branch_definition "synthetic-branch" step.id (key_of i v b) b.start b.steps run)
        run.variables w).1

  branches_equation :
      (i : ℕ) (v : Value) (b : IsBranch env i v) (rest : List Value) (w : World) (ids : List ℕ)
      → (spawn_branches env run step (suc i) rest (after_branch i v b w)).0 ≡ ok ids
      → spawn_branches env run step i (v ∷ rest) w ≡ (
        ok (env.uuid_at (suc (suc w.clock)) ∷ ids),
        (spawn_branches env run step (suc i) rest (after_branch i v b w)).1,
      )
  unfolding spawn_branches spawn_branch fresh tick
  branches_equation i v b rest w ids spawned =
      simp (b.is_object, b.starts, b.named, b.parsed, spawned) refl

  spawn_branches-Batch :
      (i : ℕ) (l : List Value) (w : World) (h : AreBranches env i l)
      → Batch env run step others apart
          (branch_children env run i l h)
          w
          (spawn_branches env run step i l w)
  unfolding spawn_branches
  spawn_branches-Batch i [] w h = nil-Batch env run step others apart w
  spawn_branches-Batch i (v ∷ l) w h =
      let b = h.0 in
      let key = key_of i v b in
      let def = branch_definition "synthetic-branch" step.id key b.start b.steps run in
      let (first, one) =
        spawn_branch-Spawned env run step others apart "parallel" key def run.variables w in
      let w' = after_branch i v b w in
      let rest = spawn_branches-Batch (suc i) l w' h.1 in
      rw (branches_equation i v b l w (ids_of env run step others apart rest.births) rest.done) (
        cons-Batch env run step others apart _ (branch_children env run (suc i) l h.1) w w' _ one
          rest)

  -- A parallel step whose strategy fits its branches, all of which are well formed, stores a child run of
  -- the step of its own for each branch, in their order: under the branch's key, with the parent's
  -- variables as inputs, on a definition of the branch's steps that begins at its start. It pauses the
  -- parent on the step and sends one advance message for each child; its result is the sentinel of a
  -- pause. Fresh ids differ from each other and from the parent's, and every message is taken.
  pub parallel_verb-fans :
      (first : Value) (rest : Values) (r : SagaRun) (w : World)
      → raw_branches env run.variables (get "branches" step.inputs) ≡ ok (cons first rest)
      → check_strategy env run.variables step.inputs (suc (length (elements rest))) ≡ ok tt
      → (h : AreBranches env 0 (first ∷ elements rest)) → env.has_publisher ≡ true
      → ((n : ℕ) (m : Message) → env.send_error_at n m ≡ none)
      → run_of w.store run.id ≡ some r
      → Fanned run step
          (branch_children env run 0 (first ∷ elements rest) h)
          r
          w
          (parallel_verb env run step w)
  unfolding parallel_verb
  parallel_verb-fans first rest r w listed fits h publishes sent found =
      let b = spawn_branches-Batch 0 (first ∷ elements rest) w h in
      rw (listed, fits)
        (rw b.done (
          pause-Fanned env run step others apart publishes sent r "parallel"
            (branch_children env run 0 (first ∷ elements rest) h) w _ b found))
