-- ===== src/Verbs/Control.antt =====
-- The verbs of control flow and data: noop.go, error.go, log.go, assert.go, switch.go,
-- transform.go, set_var.go, while.go and try_catch.go of engine/verbs.
use go_saga_orchestration.Prelude.{
  ℕ, zero, suc, ◌+◌, Bool, true, false, not, String, Option, none, some, [], ◌∷◌, ℤ, pos, negsuc,
  ltb, leb, Exec, Result, ok, err, errorf, pure, raise, lift, wrapping, ◌>>=◌, ◌>>◌, ◌==◌,
  string_eq, concat, if◌then◌else◌,
}
use go_saga_orchestration.Domain.{
  Value, obj, bool, int, float, str, Values, cons, Fields, end, field, get, as_string, as_fields,
  as_list, SagaRun, Step, log, metric,
}
use go_saga_orchestration.Store.Children.{push_try_catch}
use go_saga_orchestration.Runtime.{Env, World, on_store, emit_with}

unfoldable pub noop_verb : SagaRun → Step → Exec World Fields
noop_verb run step = pure end

unfoldable pub error_verb : SagaRun → Step → Exec World Fields
error_verb run step =
    let code = as_string (get "code" step.inputs) in
    let msg = as_string (get "message" step.inputs) in
    if code == ""
    then raise (errorf ("error: code required" ∷ []))
    else if msg == ""
    then raise (errorf ("%s" ∷ code ∷ []))
    else raise (errorf ("%s: %s" ∷ code ∷ msg ∷ []))

abbrev default_to : String → String → String
default_to d s = if s == "" then d else s

unfoldable pub log_verb : Env → SagaRun → Step → Exec World Fields
unfolding emit_with
log_verb env run step =
    let msg = as_string (get "message" step.inputs) in
    if msg == "" then raise (errorf ("log: message required" ∷ [])) else do
      emit_with env
          (field "message" (str msg)
            (field "level" (str (default_to "info" (as_string (get "level" step.inputs)))) end))
          run.id step.id 0 log "workflow"
      pure end

-- A nil map of labels is the empty map.
abbrev labels_value : Option Fields → Value
labels_value none = obj end
labels_value (some labels) = obj labels

-- `value, ok := step.Inputs["value"]`, and the event.
abbrev append_metric : Env → SagaRun → Step → String → Option Value → Exec World Fields
append_metric env run step name none = raise (errorf ("metric_emit: value required" ∷ []))
append_metric env run step name (some value) = do
  wrapping ("metric_emit: append event: %w" ∷ []) (
      emit_with env
        (field "name" (str name) (
          field "value" value
            (field "labels" (labels_value (as_fields (get "labels" step.inputs))) end)))
        run.id step.id 0 metric "workflow")
  pure end

unfoldable pub metric_emit_verb : Env → SagaRun → Step → Exec World Fields
unfolding emit_with
metric_emit_verb env run step =
    let name = as_string (get "name" step.inputs) in
    if name == ""
    then raise (errorf ("metric_emit: name required" ∷ []))
    else append_metric env run step name (get "value" step.inputs)

abbrev is_true : Value → Bool
is_true (bool b) = b
is_true _ = false

-- Compiles and evaluates an expression over the run's variables.
unfoldable pub evaluate : Env → String → String → SagaRun → Exec World Value
evaluate env verb expr run =
    wrapping ((concat verb ": %w") ∷ []) (lift (env.eval_cel expr run.variables))

unfoldable pub assert_verb : Env → SagaRun → Step → Exec World Fields
unfolding evaluate
assert_verb env run step =
    let expr = as_string (get "expr" step.inputs) in
    if expr == "" then raise (errorf ("assert: expr required" ∷ [])) else do
      val ← evaluate env "assert" expr run
      if is_true val
          then pure end
          else raise (
              errorf (
                "%s: %q is false"
                ∷ default_to "assertion_failed" (as_string (get "code" step.inputs))
                ∷ expr
                ∷ []))

abbrev switch_key : Value → Result Fields
switch_key (str key) = ok (field "branch" (str key) end)
switch_key _ = err (errorf ("switch: expr must evaluate to string, got %T" ∷ []))

unfoldable pub switch_verb : Env → SagaRun → Step → Exec World Fields
unfolding evaluate
switch_verb env run step =
    let expr = as_string (get "expr" step.inputs) in
    if expr == ""
    then raise (errorf ("switch: expr required" ∷ []))
    else do val ← evaluate env "switch" expr run; lift (switch_key val)

unfoldable pub transform_verb : Env → SagaRun → Step → Exec World Fields
unfolding evaluate
transform_verb env run step =
    let expr = as_string (get "expr" step.inputs) in
    let out_var = as_string (get "out_var" step.inputs) in
    if expr == ""
    then raise (errorf ("transform: expr required" ∷ []))
    else if out_var == ""
    then raise (errorf ("transform: out_var required" ∷ []))
    else do val ← evaluate env "transform" expr run; pure (field out_var val end)

abbrev set_literal : String → Option Value → Exec World Fields
set_literal out_var none = raise (errorf ("set_var: one of value or expr is required" ∷ []))
set_literal out_var (some v) = pure (field out_var v end)

abbrev set_value : Env → SagaRun → Step → String → Option Value → Exec World Fields
set_value env run step out_var none = set_literal out_var (get "value" step.inputs)
set_value env run step out_var (some e) =
    let expr = as_string (some e) in
    if expr == ""
    then raise (errorf ("set_var: expr must be a non-empty string" ∷ []))
    else do val ← evaluate env "set_var" expr run; pure (field out_var val end)

-- An expression wins over a literal.
unfoldable pub set_var_verb : Env → SagaRun → Step → Exec World Fields
unfolding evaluate
set_var_verb env run step =
    let out_var = as_string (get "out_var" step.inputs) in
    if out_var == ""
    then raise (errorf ("set_var: out_var required" ∷ []))
    else set_value env run step out_var (get "expr" step.inputs)

abbrev pub default_max_iterations : ℕ
default_max_iterations = 100

abbrev pub hard_max_iterations : ℕ
hard_max_iterations = 10000

abbrev requested_iterations : Option Value → ℤ
requested_iterations (some (float n)) = n
requested_iterations _ = pos default_max_iterations

abbrev bounded_iterations : ℤ → ℕ
bounded_iterations (negsuc n) = default_max_iterations
bounded_iterations (pos n) =
    if ltb hard_max_iterations n
    then hard_max_iterations
    else if ltb n 1
    then default_max_iterations
    else n

-- The cap that counts for a step.
unfoldable pub max_iterations : Step → ℕ
max_iterations step = bounded_iterations (requested_iterations (get "max_iterations" step.inputs))

abbrev counter_of : Option Value → ℤ
counter_of (some (int n)) = n
counter_of (some (float n)) = n
counter_of _ = pos 0

abbrev step_counter : Option Fields → ℤ
step_counter none = pos 0
step_counter (some m) = counter_of (get "iter" m)

abbrev while_counter : String → Option Fields → ℤ
while_counter id none = pos 0
while_counter id (some m) = step_counter (as_fields (get id m))

-- Variables._while.{step.ID}.iter
unfoldable pub iterations : SagaRun → Step → ℤ
iterations run step = while_counter step.id (as_fields (get "_while" run.variables))

abbrev pub increment : ℤ → ℤ
increment (pos n) = pos (n + 1)
increment (negsuc zero) = pos 0
increment (negsuc (suc n)) = negsuc n

abbrev reached : ℤ → ℕ → Bool
reached (pos n) cap = leb cap n
reached (negsuc n) cap = false

abbrev branch_name : Bool → String
branch_name true = "continue"
branch_name false = "exit"

abbrev pub counter_key : String → String
counter_key step_id = concat "_while." (concat step_id ".iter")

unfoldable pub while_verb : Env → SagaRun → Step → Exec World Fields
unfolding iterations max_iterations evaluate
while_verb env run step =
    let cond = as_string (get "condition" step.inputs) in
    if cond == ""
    then raise (errorf ("while: condition required" ∷ []))
    else if reached (iterations run step) (max_iterations step)
    then raise (errorf ("while: max_iterations %d reached" ∷ []))
    else do
      val ← evaluate env "while" cond run
      pure (
          field "branch" (str (branch_name (is_true val)))
            (field (counter_key step.id) (int (increment (iterations run step))) end))

abbrev names_steps : Option Values → Bool
names_steps (some (cons v l)) = true
names_steps _ = false

unfoldable pub try_catch_verb : SagaRun → Step → Exec World Fields
unfolding on_store
try_catch_verb run step =
    let catch = as_string (get "catch" step.inputs) in
    if not (names_steps (as_list (get "try" step.inputs)))
    then raise (errorf ("try_catch: try list required" ∷ []))
    else if catch == ""
    then raise (errorf ("try_catch: catch step ID required" ∷ []))
    else do
      wrapping ("try_catch: push frame: %w" ∷ [])
          (on_store (push_try_catch run.id (record { step_id = step.id; catch_step = catch })))
      pure end
