-- ===== src/Verbs/Foreach.antt =====
-- The verb that fans a run out over the items of a list: engine/verbs/foreach.go.
pub mod Spawning
use go_saga_orchestration.Prelude.{
  ℕ, suc, Bool, true, false, not, String, Option, none, some, List, [], ◌∷◌, ◌++◌, string_eq, ◌==◌,
  concat, pos, ℤ, Exec, Result, ok, err, Error, errorf, wrap, saga_paused, pure, raise, lift,
  wrapping, is_nonpositive, leb_ℕ, length, ◌>>=◌, ◌>>◌, if◌then◌else◌,
}
use go_saga_orchestration.Domain.{
  Value, Values, null, bool, int, str, list, obj, nil, cons, Fields, end, field, get, put,
  as_string, as_fields, as_list, elements, SagaRun, paused, Step, WorkflowDefinition,
}
use go_saga_orchestration.Store.Runs.{update_run_state}
use go_saga_orchestration.Store.Children.{spawn_child_run}
use go_saga_orchestration.Store.Definitions.{upsert_workflow_definition}
use go_saga_orchestration.Runtime.{Env, World, fresh, now, on_store, send, saga_advance}
use go_saga_orchestration.Verbs.Fan.{branch_definition, spawn_branch, pause_and_publish}

abbrev pub is_sequential : Option Value → Bool
is_sequential (some (bool parallel)) = not parallel
is_sequential _ = false

abbrev pub body_of : Option Values → Result Values
body_of (some (cons v l)) = ok (cons v l)
body_of _ = err (errorf ("foreach: body required (non-empty []any of step objects)" ∷ []))

abbrev pub items_result : Value → Result (List Value)
items_result (list l) = ok (elements l)
items_result v = err (errorf ("foreach: list expr did not produce []any, got %T" ∷ []))

-- The parent's variables, with the item and its index.
abbrev pub item_inputs : Fields → Value → ℕ → Fields
item_inputs vars item i = put "_foreach_index" (int (pos i)) (put "_foreach_item" item vars)

unfoldable pub spawn_items :
    Env → SagaRun → Step → String → List Step → ℕ → List Value → Exec World (List ℕ)
unfolding spawn_branch
spawn_items env run step start steps i [] = pure []
spawn_items env run step start steps i (item ∷ rest) =
    let key = concat "i" (env.decimal i) in
    do
      id ←
          spawn_branch env "foreach" run step key
            (branch_definition "synthetic-foreach-iter" step.id key start steps run)
            (item_inputs run.variables item i)
      ids ← spawn_items env run step start steps (suc i) rest
      pure (id ∷ ids)

-- An empty list spawns nothing, and the run goes on.
abbrev pub fan_items : Env → SagaRun → Step → String → Values → List Value → Exec World Fields
fan_items env run step start body [] = pure end
fan_items env run step start body (item ∷ rest) = do
  steps ← wrapping ("foreach: parse body: %w" ∷ []) (lift (env.parse_steps body))
  ids ← spawn_items env run step start steps 0 (item ∷ rest)
  pause_and_publish env "foreach" run step ids

unfoldable pub foreach_verb : Env → SagaRun → Step → Exec World Fields
unfolding spawn_items pause_and_publish
foreach_verb env run step =
    let expr = as_string (get "list" step.inputs) in
    let start = as_string (get "start" step.inputs) in
    if is_sequential (get "parallel" step.inputs)
    then raise
        (errorf ("foreach: sequential mode deferred; use `while` with an index counter" ∷ []))
    else if expr == ""
    then raise (errorf ("foreach: list required" ∷ []))
    else do
      body ← lift (body_of (as_list (get "body" step.inputs)))
      if start == ""
          then raise (errorf ("foreach: start (first step ID of body) required" ∷ []))
          else do
            value ←
                wrapping ("foreach: eval list: %w" ∷ []) (lift (env.eval_cel expr run.variables))
            items ← lift (items_result value)
            fan_items env run step start body items
