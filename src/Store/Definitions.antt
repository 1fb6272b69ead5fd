-- ===== src/Store/Definitions.antt =====
-- Workflow definitions: store/memory/store.go, UpsertWorkflowDefinition to
-- GetPublishedWorkflowByID.
use go_saga_orchestration.Prelude.{
  ℕ, true, false, String, Option, none, some, List, [], ◌∷◌, ◌++◌, reverse, Map, lookup, insert,
  nat_eq, string_eq, Exec, ok, not_found, from_option,
}
use go_saga_orchestration.Domain.{WorkflowDefinition}
use go_saga_orchestration.Store.{Store, rows}

-- The fresh storage id is an argument.
unfoldable pub upsert_workflow_definition : ℕ → WorkflowDefinition → Exec Store ℕ
upsert_workflow_definition id def s = (
  ok id,
  record s {
    defs = insert id def s.defs;
    defs_by_name = insert def.id (rows (lookup def.id s.defs_by_name) ++ id ∷ []) s.defs_by_name;
  },
)

unfoldable pub get_workflow_definition : ℕ → Exec Store WorkflowDefinition
get_workflow_definition id s = from_option (not_found "workflow_definition") (lookup id s.defs) s

-- The first published definition on the way down the list, which is newest first. An id with no
-- row reads as Go's zero value, which is not published.
unfoldable pub first_published : Map ℕ WorkflowDefinition → List ℕ → Option WorkflowDefinition
first_published defs [] = none
first_published defs (id ∷ rest) = elim (lookup id defs) [
  | none ↦ first_published defs rest
  | some d ↦ elim d.published [ true ↦ some d | false ↦ first_published defs rest ]
]

-- The newest version whatever its status.
abbrev newest : Map ℕ WorkflowDefinition → List ℕ → Option WorkflowDefinition
newest defs [] = none
newest defs (id ∷ rest) = lookup id defs

abbrev or_newest : Option WorkflowDefinition → Option WorkflowDefinition → Option WorkflowDefinition
or_newest (some d) other = some d
or_newest none other = other

-- The newest published version, or else the newest version. The tenant is ignored.
unfoldable pub get_published_workflow_by_id : String → Option ℕ → Exec Store WorkflowDefinition
unfolding first_published
get_published_workflow_by_id workflow_id tenant_id s =
    let ids = reverse (rows (lookup workflow_id s.defs_by_name)) in
    from_option (not_found "workflow_definition")
      (or_newest (first_published s.defs ids) (newest s.defs ids)) s
