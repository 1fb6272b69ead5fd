-- ===== src/Verbs/Decision.antt =====
-- Decision tables: internal/rules/rules.go, and the decision verb of engine/verbs/decision.go.
pub mod FirstHit
use go_saga_orchestration.Prelude.{
  ℕ, suc, Bool, true, false, not, String, Option, none, some, List, [], ◌∷◌, string_eq, ◌==◌, pos,
  Exec, Result, ok, err, Error, errorf, wrap, pure, raise, lift, wrapping, ignoring, ◌>>=◌, ◌>>◌,
  if◌then◌else◌,
}
use go_saga_orchestration.Domain.{
  Value, Values, null, bool, int, str, list, obj, nil, cons, Fields, end, field, get, put,
  as_string, as_fields, SagaRun, Step, DecisionTableRow, RuleDefinition, rule_type_decision_table,
  hit_policy_first, rule_evaluated,
}
use go_saga_orchestration.Store.Rules.{get_published_rule_by_id}
use go_saga_orchestration.Runtime.{Env, World, on_store, emit_with}

pub record EvaluatedRow : Type 0 where
  pub index : ℕ
  pub when : String
  pub matched : Bool

-- `matched, _ := v.(bool)`
abbrev pub is_match : Value → Bool
is_match (bool b) = b
is_match v = false

abbrev pub evaluated_row : ℕ → DecisionTableRow → Bool → EvaluatedRow
evaluated_row i row matched = record { index = i; when = row.when; matched = matched }

abbrev add_row :
    EvaluatedRow → Result (Fields × List EvaluatedRow) → Result (Fields × List EvaluatedRow)
add_row r (err e) = err e
add_row r (ok (out, audit)) = ok (out, r ∷ audit)

abbrev default_of : Option Fields → Result (Fields × List EvaluatedRow)
default_of none = err (errorf ("rules: no_decision_row_matched" ∷ []))
default_of (some out) = ok (out, [])

abbrev decide_row :
    ℕ
    → DecisionTableRow
    → Result Value
    → Result (Fields × List EvaluatedRow)
    → Result (Fields × List EvaluatedRow)
decide_row i row (err e) rest = err (wrap ("rules: row %d eval: %w" ∷ []) e)
decide_row i row (ok v) rest =
    if is_match v
    then ok (row.outputs, evaluated_row i row true ∷ [])
    else add_row (evaluated_row i row false) rest

-- The loop over the rows, up to the first one that matches.
unfoldable pub evaluate_rows :
    Env → Fields → Option Fields → ℕ → List DecisionTableRow → Result (Fields × List EvaluatedRow)
evaluate_rows env inputs default i [] = default_of default
evaluate_rows env inputs default i (row ∷ rest) =
    decide_row i row (env.eval_cel row.when inputs) (evaluate_rows env inputs default (suc i) rest)

unfoldable pub evaluate_rule : Env → RuleDefinition → Fields → Result (Fields × List EvaluatedRow)
unfolding evaluate_rows
evaluate_rule env def inputs =
    if not (def.rule_type == rule_type_decision_table)
    then err (errorf ("rules: unsupported rule type: %s" ∷ def.rule_type ∷ []))
    else if not (def.hit_policy == hit_policy_first)
    then err (errorf ("rules: unsupported hit policy: %s" ∷ def.hit_policy ∷ []))
    else evaluate_rows env inputs def.default_output 0 def.rows

-- A variable that the run does not have reads as nil.
abbrev variable : Option Value → Value
variable none = null
variable (some v) = v

abbrev with_entry : String → Value → Result Fields → Result Fields
with_entry k v (err e) = err e
with_entry k v (ok m) = ok (field k v m)

unfoldable pub map_rule_inputs : Fields → Fields → Result Fields
map_rule_inputs vars end = ok end
map_rule_inputs vars (field k v rest) =
    if as_string (some v) == ""
    then err (errorf ("decision: inputs_map[%s] must be a string variable name" ∷ k ∷ []))
    else with_entry k (variable (get (as_string (some v)) vars)) (map_rule_inputs vars rest)

abbrev rule_inputs : Fields → Option Fields → Result Fields
rule_inputs vars none = ok vars
rule_inputs vars (some mapping) = map_rule_inputs vars mapping

abbrev audit_value : List EvaluatedRow → Values
audit_value [] = nil
audit_value (r ∷ rest) =
    cons
      (obj (
        field "index" (int (pos r.index))
          (field "when" (str r.when) (field "matched" (bool r.matched) end))))
      (audit_value rest)

unfoldable pub decision_verb : Env → SagaRun → Step → Exec World Fields
unfolding on_store get_published_rule_by_id map_rule_inputs evaluate_rule emit_with
decision_verb env run step =
    let rule_id = as_string (get "rule_id" step.inputs) in
    if rule_id == "" then raise (errorf ("decision: rule_id required" ∷ [])) else do
      def ←
          wrapping ("decision: rule_not_found: %w" ∷ [])
            (on_store (get_published_rule_by_id rule_id none))
      inputs ← lift (rule_inputs run.variables (as_fields (get "inputs_map" step.inputs)))
      (out, audit) ← wrapping ("decision: %w" ∷ []) (lift (evaluate_rule env def inputs))
      emit_with env (field "rule_id" (str rule_id) (field "audit" (list (audit_value audit)) end))
          run.id step.id 0 rule_evaluated "workflow"
      pure out
