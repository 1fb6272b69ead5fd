-- ===== src/Verbs/Decision/FirstHit.antt =====
-- The first matching row decides: internal/rules/rules.go.
use go_saga_orchestration.Prelude.{
  ℕ, suc, ◌+◌, ◌≡◌, true, false, Option, List, [], ◌∷◌, ◌++◌, string_eq, ◌==◌, arith, All, length,
  Result, ok, ap,
}
use go_saga_orchestration.Domain.{
  Value, Fields, DecisionTableRow, RuleDefinition, rule_type_decision_table, hit_policy_first,
}
use go_saga_orchestration.Runtime.{Env}
use go_saga_orchestration.Verbs.Decision.{
  EvaluatedRow, is_match, evaluated_row, evaluate_rows, evaluate_rule,
}

-- The row's condition evaluates, to something other than true.
pub record Misses (env : Env) (inputs : Fields) (row : DecisionTableRow) : Type 0 where
  pub value : Value
  pub evaluates : env.eval_cel row.when inputs ≡ ok value
  pub fails : is_match value ≡ false

-- The rows in order, as the audit trail shows those that did not match.
abbrev pub missed : ℕ → List DecisionTableRow → List EvaluatedRow
missed i [] = []
missed i (row ∷ rest) = evaluated_row i row false ∷ missed (suc i) rest

-- The answer at a position.
abbrev answer_at : DecisionTableRow → List EvaluatedRow → ℕ → Result (Fields × List EvaluatedRow)
answer_at row trail k = ok (row.outputs, trail ++ evaluated_row k row true ∷ [])

plus_zero : (i : ℕ) → i ≡ i + 0
plus_zero i = omega arith

plus_suc : (i n : ℕ) → suc i + n ≡ i + suc n
plus_suc i n = omega arith

zero_plus : (n : ℕ) → 0 + n ≡ n
zero_plus n = omega arith

rows-first :
    (env : Env) (inputs : Fields) (default : Option Fields) (i : ℕ) (before : List DecisionTableRow)
    (row : DecisionTableRow) (after : List DecisionTableRow) (v : Value)
    → All (Misses env inputs) before
    → env.eval_cel row.when inputs ≡ ok v
    → is_match v ≡ true
    → evaluate_rows env inputs default i (before ++ row ∷ after)
      ≡ ok (row.outputs, missed i before ++ evaluated_row (i + length before) row true ∷ [])
unfolding evaluate_rows
rows-first env inputs default i [] row after v misses evaluates hit =
    rw (evaluates, hit) (ap (answer_at row []) (plus_zero i))
rows-first env inputs default i (b ∷ before) row after v misses evaluates hit =
    rw
      (
        misses.0.evaluates,
        misses.0.fails,
        rows-first env inputs default (suc i) before row after v misses.1 evaluates hit,
      )
      (ap (answer_at row (evaluated_row i b false ∷ missed (suc i) before))
        (plus_suc i (length before)))

-- A decision table of which one row matches, and no row before it does, gives that row's outputs,
-- whatever its later rows are; the audit trail holds the rows before it as not matched, and it as matched,
-- each with its position.
pub evaluate_rule-first :
    (env : Env) (def : RuleDefinition) (inputs : Fields) (before : List DecisionTableRow)
    (row : DecisionTableRow) (after : List DecisionTableRow) (v : Value)
    → (def.rule_type == rule_type_decision_table) ≡ true
    → (def.hit_policy == hit_policy_first) ≡ true
    → def.rows ≡ before ++ row ∷ after
    → All (Misses env inputs) before
    → env.eval_cel row.when inputs ≡ ok v
    → is_match v ≡ true
    → evaluate_rule env def inputs
      ≡ ok (row.outputs, missed 0 before ++ evaluated_row (length before) row true ∷ [])
unfolding evaluate_rule
evaluate_rule-first env def inputs before row after v table first rows misses evaluates hit =
    rw
      (
        table,
        first,
        rows,
        rows-first env inputs def.default_output 0 before row after v misses evaluates hit,
      )
      (ap (answer_at row (missed 0 before)) (zero_plus (length before)))
