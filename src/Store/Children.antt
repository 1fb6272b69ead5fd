-- ===== src/Store/Children.antt =====
-- Child runs and the try_catch stack: store/memory/store.go, SpawnChildRunAt to PopTryCatch.
pub mod Frames
use go_saga_orchestration.Prelude.{◌≡◌, arith}
use go_saga_orchestration.Prelude.{
  ℕ, Bool, ◌&&◌, String, Option, none, some, List, [], ◌∷◌, ◌++◌, lookup, insert, nat_eq, string_eq,
  Exec, ok, errorf, raise, gets, is_just, leb, length, select, values, if◌then◌else◌,
}
use go_saga_orchestration.Domain.{Fields, WorkflowDefinition, SagaRun, new_saga_run, TryCatchFrame}
use go_saga_orchestration.Store.{Store, rows, on_run, put_run}

abbrev pub last : List ℕ → Option ℕ
last [] = none
last (x ∷ []) = some x
last (x ∷ y ∷ l) = last (y ∷ l)

-- The newest stored version of the definition, which is stored first if there is none.
unfoldable pub resolve_definition : ℕ → WorkflowDefinition → Store → ℕ × Store
resolve_definition fresh def s = elim (last (rows (lookup def.id s.defs_by_name))) [
  | some stored ↦ (stored, s)
  | none ↦ (
    fresh,
    record s {
      defs = insert fresh def s.defs;
      defs_by_name =
          insert def.id (rows (lookup def.id s.defs_by_name) ++ fresh ∷ []) s.defs_by_name;
    },
  )
]

unfoldable pub child_run : ℕ → ℕ → ℕ → String → String → String → ℕ → Fields → String → SagaRun
unfolding new_saga_run
child_run child_id now parent_id parent_step_id branch_key workflow_id definition_id inputs
      start_step =
    record (new_saga_run child_id now workflow_id definition_id none inputs) {
      current_step = start_step;
      parent_run_id = some parent_id;
      parent_step_id = some parent_step_id;
      parent_branch_id = some branch_key;
    }

-- The fresh ids of a definition and of the run, and the time, are arguments.
unfoldable pub spawn_child_run_at :
    ℕ → ℕ → ℕ → ℕ → String → String → WorkflowDefinition → Fields → String → Exec Store ℕ
unfolding resolve_definition child_run
spawn_child_run_at fresh_def child_id now parent_id parent_step_id branch_key def inputs start_step
      s =
    let (stored, s') = resolve_definition fresh_def def s in
    (
      ok child_id,
      record s' {
        runs =
            insert child_id
              (child_run child_id now parent_id parent_step_id branch_key def.id stored inputs
                start_step)
              s'.runs;
      },
    )

unfoldable pub spawn_child_run :
    ℕ → ℕ → ℕ → ℕ → String → String → WorkflowDefinition → Fields → Exec Store ℕ
unfolding spawn_child_run_at
spawn_child_run fresh_def child_id now parent_id parent_step_id branch_key def inputs =
    spawn_child_run_at fresh_def child_id now parent_id parent_step_id branch_key def inputs ""

abbrev pub is_child_of : ℕ → String → SagaRun → Bool
is_child_of parent_id parent_step_id r =
    is_just r.parent_run_id parent_id && is_just r.parent_step_id parent_step_id

unfoldable pub list_children_by_parent : ℕ → String → Exec Store (List SagaRun)
list_children_by_parent parent_id parent_step_id =
    gets (λ s. select (is_child_of parent_id parent_step_id) (values s.runs))

abbrev pub max_depth : ℕ
max_depth = 3

unfoldable pub push_try_catch : ℕ → TryCatchFrame → Exec Store Unit
push_try_catch run_id frame = on_run run_id λ r.
    if leb max_depth (length r.try_catch_stack)
    then raise (errorf ("try_catch max nesting depth %d exceeded for run %s" ∷ []))
    else put_run run_id (record r { try_catch_stack = frame ∷ r.try_catch_stack })

abbrev pub pop_frame : ℕ → SagaRun → List TryCatchFrame → Exec Store (Option TryCatchFrame)
pop_frame run_id r [] s = (ok none, s)
pop_frame run_id r (top ∷ rest) s =
    (ok (some top), record s { runs = insert run_id (record r { try_catch_stack = rest }) s.runs })

-- No frame, and no error, when the stack is empty.
unfoldable pub pop_try_catch : ℕ → Exec Store (Option TryCatchFrame)
pop_try_catch run_id = on_run run_id λ r. pop_frame run_id r r.try_catch_stack

pub resolve_definition-runs :
    (fresh : ℕ) (def : WorkflowDefinition) (s : Store)
    → (resolve_definition fresh def s).1.runs ≡ s.runs
unfolding resolve_definition
resolve_definition-runs fresh def s = ground arith
