-- ===== src/Engine/Validation/Entries.antt =====
-- A run of a validated definition starts at a step that the definition has: engine/validate.go, and
-- ResolveEntry of domain/definition.go.
use go_saga_orchestration.Engine.Advance.{or_start}
use mathlib.Core.Path.{subst}
use go_saga_orchestration.Prelude.{
  ◌≡◌, refl, inl, inr, true, false, ◌||◌, String, Option, none, some, List, [], ◌∷◌, Map, lookup,
  insert, lookup-insert, string_eq, ◌==◌, is_some, arith, Result, ok, err, Bool-cases, Error,
  required,
}
use go_saga_orchestration.Domain.{Step, WorkflowDefinition, step_by_id, find_step, resolve_entry}
use go_saga_orchestration.Engine.Validation.{
  index_steps, check_entrypoints, check_steps, validate_definition, and_then,
}

-- The index has no step that the list has not.
indexed-found :
    (id : String) (steps : List Step) (index : Map String Step)
    → is_some (lookup id (index_steps steps index)) ≡ true
    → (is_some (lookup id index) || is_some (find_step id steps)) ≡ true
unfolding index_steps find_step
indexed-found id [] index h = ground (arith, h)
indexed-found id (s ∷ steps) index h =
    ground (arith, indexed-found id steps (insert s.id s index) h, lookup-insert s.id id s index)

same_id : (x y : String) → some x ≡ some y → x ≡ y
same_id x y e = cc

entry-indexed :
    (index : Map String Step) (entries : Map String String) (name id : String)
    → check_entrypoints index entries ≡ ok tt
    → lookup name entries ≡ some id
    → is_some (lookup id index) ≡ true
unfolding check_entrypoints lookup
entry-indexed index [] name id = λ passed found. absurd cc
entry-indexed index ((key, step_id) ∷ rest) name id =
    elim (Bool-cases (is_some (lookup step_id index))) [
      | inl there ↦ rw there λ passed. elim (Bool-cases (key == name)) [
        | inl here ↦
            rw here (λ found.
              subst (λ x. is_some (lookup x index) ≡ true) (same_id step_id id found) there)
        | inr other ↦ rw other (entry-indexed index rest name id passed)
      ]
      | inr missing ↦ rw missing (λ passed. absurd cc)
    ]

first_passed : (a b : Result (Unit {0})) → and_then a b ≡ ok tt → a ≡ ok tt
first_passed (ok u) b e = refl
first_passed (err x) b e = e

required-some :
    (e : Error) (o : Option String) (start : String) → required e o ≡ ok start → o ≡ some start
required-some e none start h = absurd cc
required-some e (some x) start h = cc

some_step : (o : Option Step) → is_some o ≡ true → (step : Step) × (o ≡ some step)
some_step none e = absurd cc
some_step (some step) e = (step, refl)

-- An entry point, other than the default one, of a definition that passes the validation resolves to a
-- step at which the advance loop finds a step of the definition, if the id of that step is not empty.
pub resolve_entry-exists :
    (def : WorkflowDefinition) (entrypoint start : String)
    → validate_definition def ≡ ok tt
    → (entrypoint == "" || entrypoint == "default") ≡ false
    → resolve_entry def entrypoint ≡ ok start
    → (start == "") ≡ false
    → (step : Step) × (step_by_id def (or_start def.start start) ≡ some step)
unfolding validate_definition resolve_entry find_step lookup
resolve_entry-exists def entrypoint start valid named = rw named λ resolved given.
    let index = index_steps def.steps [] in
    let passed =
      first_passed (check_entrypoints index def.entrypoints) (check_steps index def.steps) valid in
    let entry = required-some _ (lookup entrypoint def.entrypoints) start resolved in
    let indexed = entry-indexed index def.entrypoints entrypoint start passed entry in
    rw given (some_step (find_step start def.steps) (indexed-found start def.steps [] indexed))
