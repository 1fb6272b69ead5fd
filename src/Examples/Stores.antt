-- ===== src/Examples/Stores.antt =====
-- The theorems on the store, at work on the tables of an order.
use go_saga_orchestration.Prelude.{
  ◌≡◌, refl, true, false, List, [], ◌∷◌, ok, lookup, nat_eq, string_eq, select, values, ◌==◌, arith,
}
use mathlib.Core.List.{Permᴰ}
use go_saga_orchestration.Domain.{end, running, succeeded, UserTask, field, str}
use go_saga_orchestration.Store.{new}
use go_saga_orchestration.Store.Runs.{cancel}
use go_saga_orchestration.Store.Runs.Cancelling.{IsCancelled, cancel-IsCancelled}
use go_saga_orchestration.Store.Pauses.{try_consume_awaited_signal}
use go_saga_orchestration.Store.Pauses.Signals.{IsWoken, try_consume-once}
use go_saga_orchestration.Store.Tasks.{list_user_tasks_by_run}
use go_saga_orchestration.Store.Tasks.Sorting.{Ascending, list_user_tasks-sorted}
use go_saga_orchestration.Store.Histories.{
  Call, creates, cancels, marks_failed, merges, wakes, pushes, pops, replay,
}
use go_saga_orchestration.Store.Histories.WellFormed.{WellFormed, replay-WellFormed}
use go_saga_orchestration.Store.Histories.Terminal.{KeepsEnded, replay-KeepsEnded}
use go_saga_orchestration.Examples.{run_at, store_with, waiting, frame}

-- A run that is created, enters a try block, merges a result, and is cancelled.
abbrev calls : List Call
calls =
    creates (run_at 1 running "charge")
    ∷ pushes 1 frame
    ∷ merges 1 (field "a.b" (str "c") end)
    ∷ cancels 6 1 "stop"
    ∷ pops 1
    ∷ []

new-WellFormed : WellFormed new.runs
unfolding lookup
new-WellFormed = record { at = λ id r h. cc }

replay-WellFormed_example : WellFormed (replay calls new).runs
replay-WellFormed_example =
    replay-WellFormed calls new (omega arith, (tt, (tt, (tt, (tt, tt))))) new-WellFormed

-- Late calls on a run that has succeeded.
abbrev late_calls : List Call
late_calls = cancels 6 1 "stop" ∷ marks_failed 6 1 "charge" "late" ∷ wakes 1 ∷ []

replay-KeepsEnded_example :
    KeepsEnded
      (store_with (run_at 1 succeeded "")).runs
      (replay late_calls (store_with (run_at 1 succeeded ""))).runs
replay-KeepsEnded_example =
    replay-KeepsEnded late_calls (store_with (run_at 1 succeeded "")) (tt, (tt, (tt, tt)))

cancel-IsCancelled_example :
    IsCancelled 1 6 (store_with waiting) (cancel 5 6 1 "stop" (store_with waiting)).1
unfolding lookup
cancel-IsCancelled_example =
    cancel-IsCancelled 5 6 1 "stop" (store_with waiting) {r = waiting} refl refl

try_consume-once_example :
    ((try_consume_awaited_signal 6 1 "approved" (store_with waiting)).0 ≡ ok true)
    × IsWoken 1 "approved" waiting
        (store_with waiting)
        (try_consume_awaited_signal 6 1 "approved" (store_with waiting)).1
    × (try_consume_awaited_signal 7 1 "approved"
          (try_consume_awaited_signal 6 1 "approved" (store_with waiting)).1
        ≡ (ok false, (try_consume_awaited_signal 6 1 "approved" (store_with waiting)).1))
unfolding lookup
try_consume-once_example =
    try_consume-once 6 7 1 "approved" (store_with waiting) {r = waiting} refl refl refl

list_user_tasks-sorted_example :
    (l : List UserTask) × (list_user_tasks_by_run 1 (store_with waiting)
      ≡ (ok l, store_with waiting))
    × Ascending l
    × Permᴰ l (select (λ t. t.run_id == 1) (values (store_with waiting).user_tasks))
list_user_tasks-sorted_example = list_user_tasks-sorted 1 (store_with waiting)
