-- ===== src/Store/Rules.antt =====
-- Rule definitions: store/memory/store.go, UpsertRuleDefinition and GetPublishedRuleByID.
pub mod Newest
use go_saga_orchestration.Prelude.{
  ℕ, Bool, true, false, not, String, Option, none, some, List, [], ◌∷◌, ◌++◌, reverse, Map, lookup,
  insert, nat_eq, string_eq, ◌==◌, Exec, ok, from_option, not_found, select, if◌then◌else◌,
}
use go_saga_orchestration.Domain.{RuleDefinition}
use go_saga_orchestration.Store.{Store, rows}

-- Drops the id from the list of the rule id that its row had before.
abbrev pub forget : ℕ → Option RuleDefinition → Map String (List ℕ) → Map String (List ℕ)
forget id none ids = ids
forget id (some old) ids =
    insert old.rule_id (select (λ k. not (k == id)) (rows (lookup old.rule_id ids))) ids

-- The caller's id, or a fresh one for the nil UUID.
abbrev pub rule_key : ℕ → RuleDefinition → ℕ
rule_key fresh def = if def.id == 0 then fresh else def.id

abbrev pub index_rule : ℕ → String → Map String (List ℕ) → Map String (List ℕ)
index_rule id rule_id ids = insert rule_id (rows (lookup rule_id ids) ++ id ∷ []) ids

unfoldable pub upsert_rule_definition : ℕ → RuleDefinition → Exec Store ℕ
upsert_rule_definition fresh def s =
    let id = rule_key fresh def in
    (
      ok id,
      record s {
        rules = insert id (record def { id = id }) s.rules;
        rules_by_id = index_rule id def.rule_id (forget id (lookup id s.rules) s.rules_by_id);
      },
    )

-- The first published rule on the way down the list, which is newest first. An id with no row reads
-- as the zero value, which is not published.
unfoldable pub first_published_rule : Map ℕ RuleDefinition → List ℕ → Option RuleDefinition
first_published_rule rules [] = none
first_published_rule rules (id ∷ rest) = elim (lookup id rules) [
  | none ↦ first_published_rule rules rest
  | some r ↦ elim r.published [ true ↦ some r | false ↦ first_published_rule rules rest ]
]

abbrev newest_rule : Map ℕ RuleDefinition → List ℕ → Option RuleDefinition
newest_rule rules [] = none
newest_rule rules (id ∷ rest) = lookup id rules

abbrev or_newest_rule : Option RuleDefinition → Option RuleDefinition → Option RuleDefinition
or_newest_rule (some r) other = some r
or_newest_rule none other = other

-- The tenant is ignored.
unfoldable pub get_published_rule_by_id : String → Option ℕ → Exec Store RuleDefinition
unfolding first_published_rule
get_published_rule_by_id rule_id tenant_id s =
    let ids = reverse (rows (lookup rule_id s.rules_by_id)) in
    from_option (not_found "rule_definition")
      (or_newest_rule (first_published_rule s.rules ids) (newest_rule s.rules ids)) s
