-- ===== src/Examples/Listings.antt =====
-- The listings and rules of the store, and the checks on a definition.
use go_saga_orchestration.Prelude.{
  ◌≡◌, ◌≤◌, refl, true, false, none, some, [], ◌∷◌, lookup, nat_eq, string_eq, arith, ◌==◌, ok, pos,
  insert, zero, suc, ℕ, reverse,
}
use mathlib.Core.List.{Permᴰ}
use mathlib.Core.List.Permᴰ
use go_saga_orchestration.Domain.{
  bool, str, field, end, Step, step_by_id, resolve_entry, WorkflowDefinition, RuleDefinition,
  DecisionTableRow, rule_type_decision_table, hit_policy_first,
}
use go_saga_orchestration.Store.{Store, new}
use go_saga_orchestration.Store.Sorting.{Ordered}
use go_saga_orchestration.Store.Listings.{
  RunFilter, Visit, filter_runs, count_runs, run_matches, build_trigger_type_map,
}
use go_saga_orchestration.Store.Listings.Paging.{list_runs-pages, fetch, matching, IsVisit}
use go_saga_orchestration.Store.Rules.{upsert_rule_definition, get_published_rule_by_id}
use go_saga_orchestration.Store.Rules.Newest.{upsert-get, upsert-Indexed, Indexed}
use go_saga_orchestration.Runtime.{Env}
use go_saga_orchestration.Engine.Validation.{
  validate_definition, index_steps, check_entrypoints, check_steps, check_try,
}
use go_saga_orchestration.Engine.Validation.Entries.{resolve_entry-exists}
use go_saga_orchestration.Verbs.Decision.{evaluate_rule}
use go_saga_orchestration.Verbs.Decision.FirstHit.{evaluate_rule-first}
use go_saga_orchestration.Examples.{services, order, waiting, store_with}

-- All runs.
abbrev every_run : RunFilter
every_run = record {
  workflow_id = "";
  state = "";
  trigger_type = "";
  since = none;
  has_error = none;
  requires_review = none;
  limit = pos 0;
  offset = pos 0;
}

-- An order that started later than the other run of the store.
abbrev later_store : Store
later_store = store_with (record waiting { started_at = 5 })

-- One call visits the table forwards, the next one backwards.
abbrev visits : ℕ → Visit
visits zero l = l
visits (suc i) l = reverse l

visits-IsVisit : (i : ℕ) → IsVisit (visits i)
visits-IsVisit zero l = Permᴰ.refl l
visits-IsVisit (suc i) l = Permᴰ.reverse l

list_runs-pages_example :
    Ordered (λ x y. y.started_at ≤ x.started_at) (fetch visits 2 1 0 every_run later_store)
    × Permᴰ (fetch visits 2 1 0 every_run later_store) (matching every_run later_store)
unfolding count_runs filter_runs run_matches build_trigger_type_map
list_runs-pages_example =
    list_runs-pages visits 2 1 every_run later_store visits-IsVisit
      (((λ e. omega (arith, e)), tt), (tt, tt)) (omega arith) 2 refl (omega arith)

-- Big orders are routed to a review, and the others go on.
abbrev big : DecisionTableRow
big = record { when = "big"; outputs = field "branch" (str "review") end }

abbrev small : DecisionTableRow
small = record { when = "small"; outputs = field "branch" (str "pay") end }

abbrev routing : RuleDefinition
routing = record {
  id = 4;
  rule_id = "routing";
  version = 1;
  published = true;
  rule_type = rule_type_decision_table;
  hit_policy = hit_policy_first;
  rows = big ∷ small ∷ [];
  default_output = none;
}

upsert-get_example :
    (get_published_rule_by_id "routing" none (upsert_rule_definition 9 routing new).1).0
    ≡ ok routing
upsert-get_example = upsert-get 9 routing none new refl

new-Indexed : Indexed new
unfolding lookup
new-Indexed = record { once = λ name k. refl }

upsert-Indexed_example : Indexed (upsert_rule_definition 9 routing new).1
upsert-Indexed_example = upsert-Indexed 9 routing new new-Indexed

-- Answers true to the small orders only.
abbrev judging : Env
judging = record services { eval_cel = λ expr vars. ok (bool (expr == "small")) }

evaluate_rule-first_example :
    evaluate_rule judging routing end
    ≡ ok (
      small.outputs,
      record { index = 0; when = "big"; matched = false }
          ∷ record { index = 1; when = "small"; matched = true }
          ∷ [],
    )
evaluate_rule-first_example =
    evaluate_rule-first judging routing end (big ∷ []) small [] (bool true) refl refl refl
      (record { value = bool false; evaluates = refl; fails = refl }, tt) refl refl

-- Has an entry point of its own.
abbrev express : WorkflowDefinition
express = record order { entrypoints = ("express", "charge") ∷ [] }

resolve_entry-exists_example : (step : Step) × (step_by_id express "charge" ≡ some step)
unfolding validate_definition index_steps check_entrypoints check_steps check_try lookup insert
    resolve_entry
resolve_entry-exists_example = resolve_entry-exists express "express" "charge" refl refl refl refl
