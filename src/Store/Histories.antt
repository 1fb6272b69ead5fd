-- ===== src/Store/Histories.antt =====
-- Histories of the store: the methods that write a run, as steps that a caller may take in any order.
pub mod WellFormed
pub mod Terminal
use go_saga_orchestration.Prelude.{
  ℕ, Bool, true, false, String, Option, List, [], ◌∷◌, Map, ok, err,
}
use go_saga_orchestration.Domain.{
  Fields, SagaRun, SagaRunEvent, RunState, TryCatchFrame, WorkflowDefinition,
}
use go_saga_orchestration.Store.{Store}
use go_saga_orchestration.Store.Runs.{
  create_run, update_run_state, cancel_locked, append_event, mark_run_failed, update_run_variables,
}
use go_saga_orchestration.Store.Pauses.{
  set_paused_with_wakeup, set_paused_awaiting_signal, set_paused_awaiting_event_with_deadline,
  clear_pause, try_consume_awaited_signal, wake_from_external,
}
use go_saga_orchestration.Store.Children.{spawn_child_run_at, push_try_catch, pop_try_catch}
use go_saga_orchestration.Store.Actions.{mark_awaiting_action, complete_action, fail_locked}

-- A call of a method with its arguments. Cancel and FailAction append their audit event behind the
-- release of the mutex, which is a call of its own here.
pub data Call : Type 0 where
  creates : SagaRun → Call
  sets_state : ℕ → RunState → String → Call
  cancels : ℕ → ℕ → String → Call
  marks_failed : ℕ → ℕ → String → String → Call
  merges : ℕ → Fields → Call
  pauses : ℕ → ℕ → Call
  awaits_signal : ℕ → String → Option ℕ → Call
  awaits_event : ℕ → String → Map String String → Option ℕ → Call
  clears : ℕ → Call
  consumes : ℕ → ℕ → String → Call
  wakes : ℕ → Call
  spawns : ℕ → ℕ → ℕ → ℕ → String → String → WorkflowDefinition → Fields → String → Call
  pushes : ℕ → TryCatchFrame → Call
  pops : ℕ → Call
  awaits_action : ℕ → String → ℕ → Call
  completes : ℕ → ℕ → ℕ → Fields → Call
  fails : ℕ → ℕ → ℕ → String → Call
  appends : SagaRunEvent → Call

-- The store after the call, which may have returned an error.
unfoldable pub after : Call → Store → Store
after (creates r) s = (create_run r s).1
after (sets_state id state step) s = (update_run_state id state step s).1
after (cancels now id reason) s = (cancel_locked now id reason s).1
after (marks_failed now id step error) s = (mark_run_failed now id step error s).1
after (merges id merge) s = (update_run_variables id merge s).1
after (pauses id at) s = (set_paused_with_wakeup id at s).1
after (awaits_signal id name deadline) s = (set_paused_awaiting_signal id name deadline s).1
after (awaits_event id topic headers deadline) s =
    (set_paused_awaiting_event_with_deadline id topic headers deadline s).1
after (clears id) s = (clear_pause id s).1
after (consumes now id name) s = (try_consume_awaited_signal now id name s).1
after (wakes id) s = (wake_from_external id s).1
after (spawns fresh_def child now parent step branch def inputs start) s =
    (spawn_child_run_at fresh_def child now parent step branch def inputs start s).1
after (pushes id frame) s = (push_try_catch id frame s).1
after (pops id) s = (pop_try_catch id s).1
after (awaits_action id dispatch attempt) s = (mark_awaiting_action id dispatch attempt s).1
after (completes now id attempt result) s = (complete_action now id attempt result s).1
after (fails now id attempt message) s = (fail_locked now id attempt message s).1
after (appends e) s = (append_event e s).1

unfoldable pub replay : List Call → Store → Store
replay [] s = s
replay (c ∷ cs) s = replay cs (after c s)
