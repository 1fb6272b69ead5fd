-- ===== src/Engine/Validation.antt =====
-- The checks on a workflow definition before it is published: engine/validate.go.
pub mod Entries
use go_saga_orchestration.Prelude.{
  ℕ, Bool, true, false, not, ◌&&◌, String, Option, none, some, List, [], ◌∷◌, Map, lookup, insert,
  string_eq, ◌==◌, is_some, Exec, Result, ok, err, Error, errorf, wrap, pure, raise, lift, ◌>>=◌,
  ◌>>◌, if◌then◌else◌,
}
use go_saga_orchestration.Domain.{
  Value, Values, nil, cons, as_list, as_string, get, Step, WorkflowDefinition, step_type_try_catch,
  step_type_parallel,
}
use go_saga_orchestration.Runtime.{Env, World, tick, RegistryEntry, checked}
use go_saga_orchestration.Verbs.Licensing.{feature_of, license_group_for_step}

-- `stepIndex`: of two steps with the same id the later one is kept.
unfoldable pub index_steps : List Step → Map String Step → Map String Step
index_steps [] index = index
index_steps (s ∷ rest) index = index_steps rest (insert s.id s index)

unfoldable pub check_entrypoints : Map String Step → Map String String → Result (Unit {0})
check_entrypoints index [] = ok tt
check_entrypoints index ((name, step_id) ∷ rest) =
    if is_some (lookup step_id index)
    then check_entrypoints index rest
    else err (errorf ("validate: entrypoint %q references missing step %q" ∷ name ∷ step_id ∷ []))

abbrev is_parallel : Option Step → Bool
is_parallel none = false
is_parallel (some inner) = inner.type == step_type_parallel

unfoldable pub check_try : Map String Step → Step → Values → Result (Unit {0})
check_try index s nil = ok tt
check_try index s (cons v rest) =
    let id = as_string (some v) in
    if is_parallel (lookup id index)
    then err (
        errorf
          ("validate: try_catch step %q contains parallel step %q (forbidden)" ∷ s.id ∷ id ∷ []))
    else check_try index s rest

-- A malformed try_catch step is left to the runtime.
abbrev check_list : Map String Step → Step → Option Values → Result (Unit {0})
check_list index s none = ok tt
check_list index s (some ids) = check_try index s ids

abbrev check_step : Map String Step → Step → Result (Unit {0})
check_step index s =
    if not (s.type == step_type_try_catch)
    then ok tt
    else check_list index s (as_list (get "try" s.inputs))

abbrev pub and_then : Result (Unit {0}) → Result (Unit {0}) → Result (Unit {0})
and_then (ok u) next = next
and_then (err e) next = err e

unfoldable pub check_steps : Map String Step → List Step → Result (Unit {0})
unfolding check_try
check_steps index [] = ok tt
check_steps index (s ∷ rest) = and_then (check_step index s) (check_steps index rest)

unfoldable pub validate_definition : WorkflowDefinition → Result (Unit {0})
unfolding index_steps check_entrypoints check_steps
validate_definition def =
    let index = index_steps def.steps [] in
    and_then (check_entrypoints index def.entrypoints) (check_steps index def.steps)

abbrev license_error : String → String → String → Error
license_error step_id group feature = errorf (
    "license_gate: step %q in group %q requires feature %q (not enabled for tenant)" ∷ step_id
    ∷ group ∷ feature ∷ [])

abbrev decide_license : Step → String → String → Result Bool → Result (Unit {0})
decide_license s group feature (err e) =
    err (wrap ("validate: license check for step %q: %w" ∷ s.id ∷ []) e)
decide_license s group feature (ok true) = ok tt
decide_license s group feature (ok false) = err (license_error s.id group feature)

abbrev check_feature : Env → Option ℕ → Map String Bool → Step → String → String → Exec World Unit
check_feature env tenant overrides s group feature = if feature == "" then pure tt else do
  n ← tick
  lift (
      decide_license s group feature
        (checked (env.is_feature_enabled_at n tenant feature overrides)))

-- An unknown step type is left to the runtime.
abbrev check_entry :
    Env → Option ℕ → Map String Bool → Step → Option RegistryEntry → Exec World Unit
check_entry env tenant overrides s none = pure tt
check_entry env tenant overrides s (some entry) =
    let group = license_group_for_step s entry.license_group in
    check_feature env tenant overrides s group (feature_of group)

unfoldable pub check_licenses :
    Env → Map String RegistryEntry → Option ℕ → Map String Bool → List Step → Exec World Unit
unfolding tick
check_licenses env registry tenant overrides [] = pure tt
check_licenses env registry tenant overrides (s ∷ rest) = do
  check_entry env tenant overrides s (lookup s.type registry)
  check_licenses env registry tenant overrides rest

unfoldable pub validate_definition_with_license :
    Env
    → Map String RegistryEntry
    → Option ℕ
    → Map String Bool
    → WorkflowDefinition
    → Exec World Unit
unfolding validate_definition check_licenses
validate_definition_with_license env registry tenant overrides def = do
  lift (validate_definition def)
  check_licenses env registry tenant overrides def.steps
