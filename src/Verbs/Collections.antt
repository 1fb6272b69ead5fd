-- ===== src/Verbs/Collections.antt =====
-- The verbs on lists and maps: merge.go, filter.go and map.go of engine/verbs. Where a CEL
-- text is compiled and evaluated at once, this is one call here.
use go_saga_orchestration.Prelude.{
  Bool, true, false, ◌||◌, String, none, some, List, [], ◌∷◌, string_eq, ◌==◌, concat, Exec, Result,
  ok, err, errorf, wrap, pure, raise, lift, wrapping, ◌>>=◌, ◌>>◌, if◌then◌else◌,
}
use go_saga_orchestration.Domain.{
  Value, Values, null, bool, list, obj, nil, cons, Fields, end, field, get, put, as_string,
  elements, SagaRun, Step,
}
use go_saga_orchestration.Runtime.{Env, World}

-- Entries under dotted keys: a nested map is walked, and any other value stands under its path.
unfoldable pub deep_flatten : String → Fields → Fields → Fields
deep_flatten prefix end out = out
deep_flatten prefix (field k (obj nested) rest) out =
    let inner = deep_flatten (concat prefix (concat "." k)) nested out in
    deep_flatten prefix rest inner
deep_flatten prefix (field k v rest) out =
    deep_flatten prefix rest (put (concat prefix (concat "." k)) v out)

abbrev flattened : String → Value → Result Fields
flattened into (obj m) = ok (deep_flatten into m end)
flattened into v = err (errorf ("merge: from did not evaluate to a string-keyed map, got %T" ∷ []))

unfoldable pub merge_verb : Env → SagaRun → Step → Exec World Fields
unfolding deep_flatten
merge_verb env run step =
    let expr = as_string (get "from" step.inputs) in
    let into = as_string (get "into" step.inputs) in
    if expr == "" || into == "" then raise (errorf ("merge: from and into required" ∷ [])) else do
      value ← wrapping ("merge: eval: %w" ∷ []) (lift (env.eval_cel expr run.variables))
      lift (flattened into value)

-- The variables with the element bound as `_`, unless a variable of that name shadows it.
abbrev bind_element : Fields → Value → Fields
bind_element vars x = elim (get "_" vars) [ none ↦ put "_" x vars | some v ↦ vars ]

abbrev list_of : String → Value → Result (List Value)
list_of verb (list l) = ok (elements l)
list_of verb v = err (errorf (verb ∷ "list expr did not produce []any, got %T" ∷ []))

abbrev is_true : Value → Bool
is_true (bool b) = b
is_true v = false

abbrev keep_if : Bool → Value → Result Values → Result Values
keep_if b x (err e) = err e
keep_if true x (ok l) = ok (cons x l)
keep_if false x (ok l) = ok l

abbrev filter_answer : Value → Result Value → Result Values → Result Values
filter_answer x (err e) rest = err (wrap ("filter: eval pred for element %v: %w" ∷ []) e)
filter_answer x (ok v) rest = keep_if (is_true v) x rest

unfoldable pub filter_elements : Env → String → Fields → List Value → Result Values
filter_elements env expr vars [] = ok nil
filter_elements env expr vars (x ∷ rest) =
    filter_answer x (env.eval_cel expr (bind_element vars x)) (filter_elements env expr vars rest)

abbrev map_answer : Result Value → Result Values → Result Values
map_answer (err e) rest = err (wrap ("map: eval for element %v: %w" ∷ []) e)
map_answer (ok v) rest = keep_if true v rest

unfoldable pub map_elements : Env → String → Fields → List Value → Result Values
map_elements env expr vars [] = ok nil
map_elements env expr vars (x ∷ rest) =
    map_answer (env.eval_cel expr (bind_element vars x)) (map_elements env expr vars rest)

abbrev out_fields : String → Values → Fields
out_fields out_var l = field out_var (list l) end

-- What filter and map both do with their inputs, around the loop over the elements.
abbrev with_list :
    String → (String → List Value → Result Values) → Env → SagaRun → Step → Exec World Fields
with_list verb loop env run step =
    let list_expr = as_string (get "list" step.inputs) in
    let expr = as_string (get "expr" step.inputs) in
    let out_var = as_string (get "out_var" step.inputs) in
    if (list_expr == "") || (expr == "") || (out_var == "")
    then raise (errorf (verb ∷ "list, expr, out_var required" ∷ []))
    else do
      value ← wrapping (verb ∷ "eval list: %w" ∷ []) (lift (env.eval_cel list_expr run.variables))
      xs ← lift (list_of verb value)
      wrapping (verb ∷ "compile expr: %w" ∷ [])
          (lift (env.compile_cel expr (put "_" null run.variables)))
      out ← lift (loop expr xs)
      pure (out_fields out_var out)

unfoldable pub filter_verb : Env → SagaRun → Step → Exec World Fields
unfolding filter_elements
filter_verb env run step =
    with_list "filter" (λ expr xs. filter_elements env expr run.variables xs) env run step

unfoldable pub map_verb : Env → SagaRun → Step → Exec World Fields
unfolding map_elements
map_verb env run step =
    with_list "map" (λ expr xs. map_elements env expr run.variables xs) env run step
