-- ===== src/Verbs/Fan.antt =====
-- The verb that fans a run out into children, one per branch: engine/verbs/parallel.go, whose spawn
-- of a branch foreach.go repeats for an item.
pub mod Children
pub mod Fanning
pub mod Branching
use go_saga_orchestration.Prelude.{
  ℕ, suc, Bool, true, false, not, String, Option, none, some, List, [], ◌∷◌, ◌++◌, string_eq, ◌==◌,
  concat, pos, ℤ, Exec, Result, ok, err, Error, errorf, wrap, saga_paused, pure, raise, lift,
  wrapping, is_nonpositive, leb_ℕ, length, ◌>>=◌, ◌>>◌, if◌then◌else◌,
}
use go_saga_orchestration.Domain.{
  Value, Values, null, bool, int, str, list, obj, nil, cons, Fields, end, field, get, put,
  as_string, as_fields, as_list, elements, SagaRun, paused, Step, WorkflowDefinition,
}
use go_saga_orchestration.Store.Runs.{update_run_state}
use go_saga_orchestration.Store.Children.{spawn_child_run}
use go_saga_orchestration.Store.Definitions.{upsert_workflow_definition}
use go_saga_orchestration.Runtime.{Env, World, fresh, now, on_store, send, saga_advance}
use go_saga_orchestration.Verbs.Join.{to_int, join_strategy}

abbrev list_result : Value → Result Values
list_result (list l) = ok l
list_result v = err (errorf ("branches expression must evaluate to a list, got %T" ∷ []))

abbrev evaluated_list : Result Value → Result Values
evaluated_list (err e) = err (wrap ("eval: %w" ∷ []) e)
evaluated_list (ok v) = list_result v

unfoldable pub eval_branches_cel : Env → String → Fields → Result Values
eval_branches_cel env expr vars = evaluated_list (env.eval_cel expr vars)

abbrev wrap_list : Result Values → Result Values
wrap_list (ok l) = ok l
wrap_list (err e) = err (wrap ("parallel: branches CEL eval: %w" ∷ []) e)

-- The list, or the list that a CEL text evaluates to.
unfoldable pub raw_branches : Env → Fields → Option Value → Result Values
unfolding eval_branches_cel
raw_branches env vars (some (str expr)) = wrap_list (eval_branches_cel env expr vars)
raw_branches env vars (some (list l)) = ok l
raw_branches env vars _ =
    err (errorf ("parallel: branches must be []any or CEL string, got %T" ∷ []))

abbrev numeric : Option ℤ → Result ℤ
numeric none = err (errorf ("parallel: quorum_n CEL result is not numeric: %T %v" ∷ []))
numeric (some n) = ok n

abbrev evaluated_quorum : Result Value → Result ℤ
evaluated_quorum (err e) = err (wrap ("parallel: quorum_n CEL eval: %w" ∷ []) e)
evaluated_quorum (ok v) = numeric (to_int (some v))

abbrev literal_quorum : Option ℤ → Result ℤ
literal_quorum none =
    err (errorf ("parallel: quorum_n required and must be positive when join_strategy=quorum" ∷ []))
literal_quorum (some n) = ok n

unfoldable pub parallel_quorum : Env → Fields → Option Value → Result ℤ
parallel_quorum env vars (some (str expr)) = evaluated_quorum (env.eval_cel expr vars)
parallel_quorum env vars v = literal_quorum (to_int v)

abbrev quorum_fits : ℕ → Result ℤ → Result (Unit {0})
quorum_fits branches (err e) = err e
quorum_fits branches (ok n) =
    if is_nonpositive n
    then err (errorf ("parallel: quorum_n must be positive" ∷ []))
    else if not (leb_ℕ n branches)
    then err (errorf ("parallel: quorum_n=%d exceeds branch count=%d" ∷ []))
    else ok tt

unfoldable pub check_strategy : Env → Fields → Fields → ℕ → Result (Unit {0})
unfolding parallel_quorum
check_strategy env vars inputs branches =
    let strategy = join_strategy inputs in
    if strategy == "all"
    then ok tt
    else if strategy == "quorum"
    then quorum_fits branches (parallel_quorum env vars (get "quorum_n" inputs))
    else err (
        errorf ("parallel: join_strategy %q not supported (use 'all' or 'quorum')" ∷ strategy ∷ []))

abbrev pub keyed : Env → ℕ → String → String
keyed env i key = if key == "" then concat "b" (env.decimal i) else key

-- `map[string]any(nil)` is the empty map.
abbrev inputs_value : Option Fields → Value
inputs_value none = obj end
inputs_value (some m) = obj m

abbrev long_form : String → String → Value → Fields
long_form key type inputs =
    let step_id = concat key (concat "_" type) in
    let end_id = concat key "_end" in
    field "key" (str key) (
      field "start" (str step_id) (
        field "steps"
          (list (
            cons
              (obj (
                field "id" (str step_id) (
                  field "type" (str type) (field "inputs" inputs (field "next" (str end_id) end)))))
              (cons (obj (field "id" (str end_id) (field "type" (str "end") end))) nil)))
          end))

abbrev has_start : Option Value → Bool
has_start none = false
has_start (some v) = true

unfoldable pub normalize_branch : Env → Fields → ℕ → Fields
normalize_branch env b i =
    if has_start (get "start" b)
    then b
    else if as_string (get "type" b) == ""
    then b
    else long_form (keyed env i (as_string (get "key" b))) (as_string (get "type" b))
        (inputs_value (as_fields (get "inputs" b)))

abbrev pub branch_definition :
    String → String → String → String → List Step → SagaRun → WorkflowDefinition
branch_definition name step_id key start steps run = record {
  id = concat run.workflow_id (concat "@" (concat step_id (concat "/" key)));
  version = 1;
  tenant_id = none;
  name = name;
  description = "";
  start = start;
  entrypoints = [];
  steps = steps;
  published = true;
  created_at = 0;
  created_by = "";
}

-- Stores the synthetic definition and the child of one branch.
unfoldable pub spawn_branch :
    Env → String → SagaRun → Step → String → WorkflowDefinition → Fields → Exec World ℕ
unfolding fresh now on_store upsert_workflow_definition spawn_child_run
spawn_branch env failure run step key def inputs = do
  row ← fresh env
  wrapping ("upsert branch def: %w" ∷ failure ∷ []) (on_store (upsert_workflow_definition row def))
  fresh_def ← fresh env
  child_id ← fresh env
  t ← now env
  wrapping ("spawn branch: %w" ∷ failure ∷ [])
      (on_store (spawn_child_run fresh_def child_id t run.id step.id key def inputs))

abbrev wrap_steps : Result (List Step) → Result (List Step)
wrap_steps (ok steps) = ok steps
wrap_steps (err e) = err (wrap ("parallel: branch %d parse: %w" ∷ []) e)

-- `len(steps) == 0`
abbrev pub steps_of : Env → Option Values → Result (List Step)
steps_of env none = err (errorf ("parallel: branch %d missing steps" ∷ []))
steps_of env (some nil) = err (errorf ("parallel: branch %d missing steps" ∷ []))
steps_of env (some (cons v l)) = wrap_steps (env.parse_steps (cons v l))

abbrev start_branch : Env → SagaRun → Step → ℕ → Fields → Exec World ℕ
start_branch env run step i b =
    let start = as_string (get "start" b) in
    if start == "" then raise (errorf ("parallel: branch %d missing start" ∷ [])) else do
      steps ← lift (steps_of env (as_list (get "steps" b)))
      let key = keyed env i (as_string (get "key" b)) in
          spawn_branch env "parallel" run step key
            (branch_definition "synthetic-branch" step.id key start steps run) run.variables

abbrev spawn_one : Env → SagaRun → Step → ℕ → Option Fields → Exec World ℕ
spawn_one env run step i none = raise (errorf ("parallel: branch %d must be an object" ∷ []))
spawn_one env run step i (some b) = start_branch env run step i (normalize_branch env b i)

-- The loop over the branches. An error leaves the children of the branches before it behind.
unfoldable pub spawn_branches : Env → SagaRun → Step → ℕ → List Value → Exec World (List ℕ)
unfolding normalize_branch spawn_branch
spawn_branches env run step i [] = pure []
spawn_branches env run step i (v ∷ rest) = do
  id ← spawn_one env run step i (as_fields (some v))
  ids ← spawn_branches env run step (suc i) rest
  pure (id ∷ ids)

unfoldable pub publish_children : Env → String → List ℕ → Exec World Unit
unfolding send
publish_children env failure [] = pure tt
publish_children env failure (id ∷ rest) = do
  if env.has_publisher
      then wrapping (failure ∷ "publish branch %d: %w" ∷ []) (send env (saga_advance id))
      else pure tt
  publish_children env failure rest

-- Pauses the parent before it publishes a child.
unfoldable pub pause_and_publish : Env → String → SagaRun → Step → List ℕ → Exec World Fields
unfolding on_store publish_children
pause_and_publish env failure run step ids = do
  wrapping (failure ∷ "pause parent: %w" ∷ []) (on_store (update_run_state run.id paused step.id))
  publish_children env failure ids
  raise saga_paused

-- `len(branchesAny) == 0`
abbrev non_empty_list : Values → Result (List Value)
non_empty_list nil = err (
    errorf (
      "parallel: branches required and must be non-empty list (after CEL eval if applicable)" ∷ []))
non_empty_list (cons v l) = ok (v ∷ elements l)

unfoldable pub parallel_verb : Env → SagaRun → Step → Exec World Fields
unfolding raw_branches check_strategy spawn_branches pause_and_publish
parallel_verb env run step = do
  raw ← lift (raw_branches env run.variables (get "branches" step.inputs))
  branches ← lift (non_empty_list raw)
  lift (check_strategy env run.variables step.inputs (length branches))
  ids ← spawn_branches env run step 0 branches
  pause_and_publish env "parallel" run step ids
