-- ===== src/Store/Rules/Newest.antt =====
-- What UpsertRuleDefinition stores is what GetPublishedRuleByID finds: store/memory/store.go.
use mathlib.Core.List.{reverse-append}
use go_saga_orchestration.Prelude.{
  ℕ, ◌≡◌, refl, true, not, String, Option, none, some, List, [], ◌∷◌, ◌++◌, reverse, Map, lookup,
  insert, lookup-insert, nat_eq, string_eq, nat_beq_self, ◌==◌, arith, ok, count, select,
  Option-cases, Bool-cases, inl, inr, if◌then◌else◌, suc, ◌∙◌, sym,
}
use go_saga_orchestration.Domain.{RuleDefinition}
use go_saga_orchestration.Store.{Store, rows}
use go_saga_orchestration.Store.Rules.{
  upsert_rule_definition, get_published_rule_by_id, first_published_rule, rule_key, forget,
}

same_name : (t : String) → (t == t) ≡ true
same_name t = (string_eq.beq_iff t t).1 refl

count-snoc :
    (k id : ℕ) (l : List ℕ)
    → count (λ j. j == k) (l ++ id ∷ [])
      ≡ (if id == k then suc (count (λ j. j == k) l) else count (λ j. j == k) l)
count-snoc k id [] = refl
count-snoc k id (j ∷ l) = ground (arith, count-snoc k id l)

count-without :
    (k id : ℕ) (l : List ℕ)
    → count (λ j. j == k) (select (λ j. not (j == id)) l)
      ≡ (if id == k then 0 else count (λ j. j == k) l)
count-without k id [] = ground arith
count-without k id (j ∷ l) = ground (arith, count-without k id l)

-- How often the row of the id belongs into the list of the rule id.
abbrev due_count : String → Option RuleDefinition → ℕ
due_count name none = 0
due_count name (some r) = if r.rule_id == name then 1 else 0

-- The list of each rule id names each of its rows once, and no other row.
pub record Indexed (s : Store) : Type 0 where
  pub once :
      (name : String) (k : ℕ)
      → count (λ j. j == k) (rows (lookup name s.rules_by_id)) ≡ due_count name (lookup k s.rules)

forget-count :
    (s : Store)
    → Indexed s
    → (id : ℕ) (name : String) (k : ℕ)
    → count (λ j. j == k) (rows (lookup name (forget id (lookup id s.rules) s.rules_by_id)))
      ≡ (if id == k then 0 else due_count name (lookup k s.rules))
forget-count s i id name k = elim (Option-cases (lookup id s.rules)) [
  | inl missing ↦ rw missing (ground (arith, i.once name k, missing))
  | inr (old, found) ↦
      rw (found, lookup-insert)
        (elim (Bool-cases (old.rule_id == name)) [
          | inl here ↦ rw here (
              count-without k id (rows (lookup old.rule_id s.rules_by_id))
              ∙ rw (i.once old.rule_id k, (string_eq.beq_iff old.rule_id name).0 here) refl)
          | inr there ↦ rw there (
              i.once name k ∙ elim (Bool-cases (id == k)) [
                | inl same ↦ rw (same, sym ((nat_eq.beq_iff id k).0 same), found, there) refl
                | inr other ↦ rw other refl
              ])
        ])
]

published_first :
    (rules : Map ℕ RuleDefinition) (id : ℕ) (ids : List ℕ) (r : RuleDefinition)
    → lookup id rules ≡ some r
    → r.published ≡ true
    → first_published_rule rules (id ∷ ids) ≡ some r
unfolding first_published_rule
published_first rules id ids r stored published =
    simp (first_published_rule, stored, published) refl

inserted_rule :
    (id : ℕ) (r : RuleDefinition) (rules : Map ℕ RuleDefinition)
    → lookup id (insert id r rules) ≡ some r
inserted_rule id r rules = rw (lookup-insert id id r rules, nat_beq_self id) refl

-- A published rule that is stored is what the next look for its rule id finds, whatever was stored
-- before, also under the same key or rule id, and for every tenant.
pub upsert-get :
    (fresh : ℕ) (def : RuleDefinition) (tenant : Option ℕ) (s : Store)
    → def.published ≡ true
    → (get_published_rule_by_id def.rule_id tenant (upsert_rule_definition fresh def s).1).0
      ≡ ok (record def { id = rule_key fresh def })
unfolding get_published_rule_by_id upsert_rule_definition
upsert-get fresh def tenant s published =
    let id = rule_key fresh def in
    let stored = record def { id = id } in
    let ids = forget id (lookup id s.rules) s.rules_by_id in
    rw
      (
        lookup-insert def.rule_id def.rule_id (rows (lookup def.rule_id ids) ++ id ∷ []) ids,
        same_name def.rule_id,
        reverse-append (rows (lookup def.rule_id ids)) (id ∷ []),
        published_first (insert id stored s.rules) id (reverse (rows (lookup def.rule_id ids)))
            stored (inserted_rule id stored s.rules) published,
      )
      refl

-- Storing a rule keeps the lists of the rule ids: each names each of its rows once, and no row of
-- another rule id, also when the rule moves to another rule id.
pub upsert-Indexed :
    (fresh : ℕ) (def : RuleDefinition) (s : Store)
    → Indexed s
    → Indexed (upsert_rule_definition fresh def s).1
unfolding upsert_rule_definition
upsert-Indexed fresh def s i = record {
  once = λ name k.
      let id = rule_key fresh def in
      let ids = forget id (lookup id s.rules) s.rules_by_id in
      let counts = forget-count s i id name k in
      rw
        (
          lookup-insert def.rule_id name (rows (lookup def.rule_id ids) ++ id ∷ []) ids,
          lookup-insert id k (record def { id = id }) s.rules,
        )
        (elim (Bool-cases (def.rule_id == name)) [
          | inl here ↦ rw here (
              count-snoc k id (rows (lookup def.rule_id ids))
              ∙ rw (forget-count s i id def.rule_id k) (elim (Bool-cases (id == k)) [
                | inl same ↦ rw same (rw here refl)
                | inr other ↦ rw (other, (string_eq.beq_iff def.rule_id name).0 here) refl
              ]))
          | inr there ↦ rw there (elim (Bool-cases (id == k)) [
            | inl same ↦ rw (counts, same) (rw there refl)
            | inr other ↦ rw (counts, other) refl
          ])
        ]);
}
