-- ===== src/Verbs/Join.antt =====
-- The join condition: engine/verbs/join_shared.go, with `ToInt` of parallel.go, and the join verb.
pub mod Progress
pub mod Order
pub mod Quorum
use go_saga_orchestration.Prelude.{
  ℕ, zero, suc, Bool, true, false, not, String, Option, none, some, List, [], ◌∷◌, ◌++◌, ℤ,
  is_nonpositive, leb_ℕ, Exec, Result, ok, err, errorf, wrap, raise, pure, wrapping, gets, lift,
  ◌>>=◌, ◌>>◌, ◌==◌, string_eq, length, all, count, member, concat, if◌then◌else◌, saga_paused,
}
use go_saga_orchestration.Domain.{
  Value, int, float, str, list, obj, Values, nil, cons, elements, Fields, end, field, get,
  as_string, RunState, is_terminal, is_succeeded, pending, running, paused, compensating, succeeded,
  failed, cancelled, SagaRun, Step, UserTask, state_text,
}
use go_saga_orchestration.Store.{Store}
use go_saga_orchestration.Store.Runs.{update_run_state}
use go_saga_orchestration.Store.Children.{list_children_by_parent}
use go_saga_orchestration.Store.Tasks.{list_user_tasks_by_run}
use go_saga_orchestration.Runtime.{Env, World, on_store}

-- `ToInt`, and `ToIntFromAny`, whose further cases (int32, uint64) CEL does not produce.
abbrev pub to_int : Option Value → Option ℤ
to_int (some (int n)) = some n
to_int (some (float n)) = some n
to_int _ = none

-- "all" unless the step names another strategy.
abbrev pub join_strategy : Fields → String
join_strategy inputs =
    let s = as_string (get "join_strategy" inputs) in if s == "" then "all" else s

abbrev evaluated : Result Value → Result ℤ
evaluated (err e) = err (wrap ("quorum_n CEL eval: %w" ∷ []) e)
evaluated (ok v) = elim (to_int (some v)) [
  | none ↦ err (errorf ("quorum_n CEL result is not numeric: %T %v" ∷ []))
  | some n ↦ ok n
]

abbrev literal : Option ℤ → Result ℤ
literal none =
    err (errorf ("quorum_n required and must be positive when join_strategy=quorum" ∷ []))
literal (some n) = ok n

-- The `quorum_n` input: a CEL text over the variables, or a number.
unfoldable pub quorum_n : Env → Fields → Fields → Result ℤ
quorum_n env inputs vars = elim (get "quorum_n" inputs) [
  | some (str expr) ↦ evaluated (env.eval_cel expr vars)
  | v ↦ literal (to_int v)
]

abbrev check_quorum : ℕ → Result ℤ → Result (Unit {0})
check_quorum watched_count (err e) = err e
check_quorum watched_count (ok n) =
    if is_nonpositive n
    then err (errorf ("quorum_n must be positive" ∷ []))
    else if not (leb_ℕ n watched_count)
    then err (errorf ("quorum_n=%d exceeds watched-child count=%d" ∷ []))
    else ok tt

unfoldable pub validate_join_strategy : Env → Fields → Fields → ℕ → Result (Unit {0})
unfolding quorum_n
validate_join_strategy env inputs vars watched_count =
    let strategy = join_strategy inputs in
    if strategy == "all"
    then ok tt
    else if strategy == "quorum"
    then check_quorum watched_count (quorum_n env inputs vars)
    else err (errorf ("join_strategy %q not supported (use 'all' or 'quorum')" ∷ strategy ∷ []))

abbrev pub all_terminal : List SagaRun → Bool
all_terminal = all (λ r. is_terminal r.state)

abbrev pub succeeded_count : List SagaRun → ℕ
succeeded_count = count (λ r. is_succeeded r.state)

-- An invalid quorum falls back to "all".
abbrev quorum_met : List SagaRun → Result ℤ → Bool
quorum_met group (err e) = all_terminal group
quorum_met group (ok n) =
    if is_nonpositive n then all_terminal group else leb_ℕ n (succeeded_count group)

abbrev is_nil {ℓ} : {A : Type ℓ} → List A → Bool
is_nil [] = true
is_nil (x ∷ xs) = false

unfoldable pub join_condition_met : Env → Fields → Fields → List SagaRun → Bool
unfolding quorum_n
join_condition_met env inputs vars group =
    let strategy = join_strategy inputs in
    if is_nil group
    then false
    else if strategy == "all"
    then all_terminal group
    else if strategy == "quorum"
    then quorum_met group (quorum_n env inputs vars)
    else false

abbrev branch_key : Env → ℕ → Option String → String
branch_key env i none = concat "b" (env.decimal i)
branch_key env i (some k) = if k == "" then concat "b" (env.decimal i) else k

-- The first submitted task, as the entry of the result shows it.
unfoldable pub user_task_fields : Env → List UserTask → Fields
user_task_fields env [] = end
user_task_fields env (t ∷ rest) = elim t.submitted_at [
  | none ↦ user_task_fields env rest
  | some at ↦
      field "_user_task"
        (obj (
          field "id" (str (env.uuid_text t.id)) (
            field "result" (obj t.result) (
              field "submitted_by" (str t.submitted_by)
                (field "submitted_at" (str (env.rfc3339 at)) end)))))
        end
]

abbrev tasks_of : Result (List UserTask) → List UserTask
tasks_of (ok l) = l
tasks_of (err e) = []

unfoldable pub join_entry : Env → Store → ℕ → SagaRun → Value
unfolding user_task_fields list_user_tasks_by_run
join_entry env s i child = obj (
    field "key" (str (branch_key env i child.parent_branch_id)) (
      field "variables" (obj child.variables) (
        field "state" (str (state_text child.state))
          (user_task_fields env (tasks_of (list_user_tasks_by_run child.id s).0)))))

unfoldable pub join_entries : Env → Store → ℕ → List SagaRun → Values
unfolding join_entry
join_entries env s i [] = nil
join_entries env s i (child ∷ rest) =
    cons (join_entry env s i child) (join_entries env s (suc i) rest)

unfoldable pub aggregate_join_results : Env → List SagaRun → Exec World Value
unfolding join_entries
aggregate_join_results env children = gets (λ w. list (join_entries env w.store zero children))

abbrev not_streams : Result (List String)
not_streams = err (errorf ("streams must be a list of step IDs or a CEL string, got %T" ∷ []))

-- Every entry a non-empty step id.
unfoldable pub step_ids : List Value → Result (List String)
step_ids [] = ok []
step_ids (v ∷ rest) =
    let sid = as_string (some v) in
    if sid == ""
    then err (errorf ("streams[%d] must be a non-empty step ID string, got %T" ∷ []))
    else elim (step_ids rest) [ ok ids ↦ ok (sid ∷ ids) | err e ↦ err e ]

abbrev non_empty : List Value → Result (List String)
non_empty [] = err (errorf ("streams required and must be a non-empty list of step IDs" ∷ []))
non_empty (v ∷ l) = step_ids (v ∷ l)

abbrev evaluated_streams : Result Value → Result (List String)
evaluated_streams (err e) = err (wrap ("streams CEL eval: %w" ∷ []) e)
evaluated_streams (ok (list l)) = non_empty (elements l)
evaluated_streams (ok _) = err (errorf ("streams CEL eval: %w" ∷ []))

-- The case of a `[]string` does not arise for inputs that come from JSON or CEL.
unfoldable pub resolve_join_streams : Env → Option Value → Fields → Result (List String)
unfolding step_ids
resolve_join_streams env (some (str expr)) vars = evaluated_streams (env.eval_cel expr vars)
resolve_join_streams env (some (list l)) vars = non_empty (elements l)
resolve_join_streams env _ vars = not_streams

-- The children of each named step, each step once. The store method does not fail.
unfoldable pub collect_watched : ℕ → List String → List String → Exec World (List SagaRun)
unfolding list_children_by_parent on_store
collect_watched run_id seen [] = pure []
collect_watched run_id seen (sid ∷ rest) = elim (member sid seen) [
  | true ↦ collect_watched run_id seen rest
  | false ↦ do
    children ← on_store (list_children_by_parent run_id sid)
    others ← collect_watched run_id (sid ∷ seen) rest
    pure (children ++ others)
]

abbrev pub branches_key : String → String → String
branches_key prefix step_id = concat prefix (concat step_id ".branches")

-- Pauses on this step. The coordinator wakes the run once the strategy is met.
unfoldable pub join_pause : SagaRun → Step → Exec World Fields
unfolding on_store
join_pause run step = do
  wrapping ("join: pause run: %w" ∷ []) (on_store (update_run_state run.id paused step.id))
  raise saga_paused

unfoldable pub join_continue : Env → Step → List SagaRun → Exec World Fields
unfolding aggregate_join_results
join_continue env step watched = do
  aggregated ← aggregate_join_results env watched
  pure (field (branches_key "_join." step.id) aggregated end)

abbrev join_settled : Env → SagaRun → Step → List SagaRun → Exec World Fields
join_settled env run step watched =
    if join_condition_met env step.inputs run.variables watched
    then join_continue env step watched
    else join_pause run step

abbrev some_watched : List String → List SagaRun → Exec World Unit
some_watched streams [] =
    raise (errorf ("join: streams %v matched no spawned children in this run" ∷ streams))
some_watched streams (r ∷ rest) = pure tt

-- Continues at once where the barrier is met already, and else pauses the run on this step.
unfoldable pub join_verb : Env → SagaRun → Step → Exec World Fields
unfolding on_store
join_verb env run step = do
  streams ←
      wrapping ("join: %w" ∷ [])
        (lift (resolve_join_streams env (get "streams" step.inputs) run.variables))
  watched ← collect_watched run.id [] streams
  some_watched streams watched
  wrapping ("join: %w" ∷ [])
      (lift (validate_join_strategy env step.inputs run.variables (length watched)))
  join_settled env run step watched
