-- ===== src/Store/Tasks.antt =====
-- User tasks: store/memory/store.go, CreateUserTask to SubmitUserTask.
pub mod Sorting
use go_saga_orchestration.Prelude.{
  ℕ, Bool, String, Option, none, some, List, [], ◌∷◌, reverse, lookup, insert, nat_eq, Exec, ok,
  err, not_found, from_option, gets, ◌==◌, ltb, select, values, if◌then◌else◌,
}
use go_saga_orchestration.Domain.{Fields, UserTask}
use go_saga_orchestration.Store.{Store}
use go_saga_orchestration.Store.Sorting.{insertion_sort}

unfoldable pub create_user_task : UserTask → Exec Store Unit
create_user_task task s = (ok tt, record s { user_tasks = insert task.id task s.user_tasks })

unfoldable pub get_user_task : ℕ → Exec Store UserTask
get_user_task id s = from_option (not_found "user_task") (lookup id s.user_tasks) s

-- Byte order of the UUIDs is the order of the numbers that stand for them.
abbrev pub uuid_less : UserTask → UserTask → Bool
uuid_less a b = ltb a.id b.id

unfoldable pub list_user_tasks_by_run : ℕ → Exec Store (List UserTask)
unfolding insertion_sort
list_user_tasks_by_run run_id =
    gets (λ s. insertion_sort uuid_less (select (λ t. t.run_id == run_id) (values s.user_tasks)))

abbrev submit : ℕ → ℕ → String → Fields → Option UserTask → Exec Store Unit
submit now task_id submitted_by result none s = (err (not_found "user_task"), s)
submit now task_id submitted_by result (some t) s = (
  ok tt,
  record s {
    user_tasks =
        insert task_id
          (record t { submitted_at = some now; submitted_by = submitted_by; result = result })
          s.user_tasks;
  },
)

unfoldable pub submit_user_task : ℕ → ℕ → String → Fields → Exec Store Unit
submit_user_task now task_id submitted_by result s =
    submit now task_id submitted_by result (lookup task_id s.user_tasks) s
