-- ===== src/Store/Tasks/Sorting.antt =====
-- The tasks of a run come back sorted.
use go_saga_orchestration.Prelude.{ℕ, ◌≡◌, ◌≤◌, refl, List, arith, select, values, ok, nat_eq, ◌==◌}
use mathlib.Core.List.{Permᴰ}
use go_saga_orchestration.Domain.{UserTask}
use go_saga_orchestration.Store.{Store}
use go_saga_orchestration.Store.Sorting.{
  insertion_sort, Ordered, insertion_sort-perm, insertion_sort-Ordered,
}
use go_saga_orchestration.Store.Tasks.{uuid_less, list_user_tasks_by_run}

-- In the order of the ids.
abbrev pub Ascending : List UserTask → Type 0
Ascending = Ordered (λ x y. x.id ≤ y.id)

-- The tasks of a run are listed in the order of their ids, each task of the run exactly as often as
-- the table holds it.
pub list_user_tasks-sorted :
    (id : ℕ) (s : Store)
    → (l : List UserTask) × (list_user_tasks_by_run id s ≡ (ok l, s))
      × Ascending l
      × Permᴰ l (select (λ t. t.run_id == id) (values s.user_tasks))
unfolding list_user_tasks_by_run
list_user_tasks-sorted id s =
    let found = select (λ t. t.run_id == id) (values s.user_tasks) in
    (
      insertion_sort uuid_less found,
      refl,
      insertion_sort-Ordered uuid_less (λ x y. x.id ≤ y.id) (λ x y z h k. omega (arith, h, k))
          (λ x y e. ground (arith, e)) (λ x y e. ground (arith, e)) found,
      insertion_sort-perm uuid_less found,
    )
