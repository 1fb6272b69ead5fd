-- ===== src/Engine/Advance/Resuming.antt =====
-- How a paused run goes on.
use go_saga_orchestration.Prelude.{Bool-cases, inl, inr, if◌then◌else◌, ◌⊎◌, is_some, Option, sym}
use go_saga_orchestration.Prelude.{
  ℕ, suc, ◌≡◌, ◌≢◌, refl, Bool, true, false, String, none, some, lookup, insert, lookup-insert,
  nat_eq, nat_beq_self, string_eq, ok, Result, arith, Map, ◌==◌,
}
use go_saga_orchestration.Domain.{
  SagaRun, Step, WorkflowDefinition, step_by_id, paused, running, new_event, Branch,
}
use go_saga_orchestration.Store.{run_of}
use go_saga_orchestration.Store.Runs.{get_run, update_run_state, append_event}
use go_saga_orchestration.Store.Pauses.{is_due, clear_pause, cleared_run}
use go_saga_orchestration.Store.Definitions.{get_workflow_definition}
use go_saga_orchestration.Runtime.{
  Env, World, Coordinator, tick, now, fresh, on_store, emit, emit_with,
}
use go_saga_orchestration.Store.Children.{list_children_by_parent}
use go_saga_orchestration.Verbs.Join.{join_condition_met}
use go_saga_orchestration.Engine.Hooks.Waking.{children_of}
use go_saga_orchestration.Engine.Hooks.{spawns_and_waits, children_still_running}
use go_saga_orchestration.Engine.Resume.{
  Turn, again, finished, paused_turn, has_awaits, resume, resume_target, move_on,
}
use go_saga_orchestration.Engine.Advance.{turn}

-- The run that goes on at a step: running, with no pause marker. The dispatch that it may await
-- stays recorded.
abbrev pub moved : SagaRun → String → SagaRun
moved r step_id = record (cleared_run r) { state = running; current_step = step_id }

-- The outcome of a turn from `w` that leaves only the run with the id changed, sends nothing, and
-- goes round again.
pub record MovesTo (id : ℕ) (r : SagaRun) (w : World) (out : Result Turn × World) : Type 0 where
  pub repeats : out.0 ≡ ok again
  pub stored : run_of out.1.store id ≡ some r
  pub others : (k : ℕ) → k ≢ id → run_of out.1.store k ≡ run_of w.store k
  pub silent : out.1.outbox ≡ w.outbox

twice-other :
    (id k : ℕ) (r r' : SagaRun) (m : Map ℕ SagaRun)
    → k ≢ id
    → lookup k (insert id r' (insert id r m)) ≡ lookup k m
twice-other id k r r' m ne = rw (lookup-insert, lookup-insert) (ground (arith, nat_eq.beq_iff id k))

resume-MovesTo :
    (env : Env) (id : ℕ) (timed_out : Bool) (w : World) {r : SagaRun} {d : WorkflowDefinition}
    {step : Step}
    → run_of w.store id ≡ some r
    → lookup r.definition_id w.store.defs ≡ some d
    → step_by_id d r.current_step ≡ some step
    → (resume_target step timed_out == "") ≡ false
    → MovesTo id (moved r (resume_target step timed_out)) w (resume env id timed_out w)
unfolding resume clear_pause cleared_run get_run get_workflow_definition emit emit_with fresh now
    tick on_store append_event new_event move_on update_run_state
resume-MovesTo env id timed_out w {r} found defined at target = record {
  repeats =
      rw (found, lookup-insert, nat_beq_self, defined, at, target, lookup-insert, nat_beq_self)
        refl;
  stored =
      rw
        (
          found, lookup-insert, nat_beq_self, defined, at, target, lookup-insert, nat_beq_self,
          lookup-insert, nat_beq_self,
        )
        refl;
  others = λ k ne.
      rw (found, lookup-insert, nat_beq_self, defined, at, target, lookup-insert, nat_beq_self)
        (twice-other id k (cleared_run r) _ w.store.runs ne);
  silent =
      rw (found, lookup-insert, nat_beq_self, defined, at, target, lookup-insert, nat_beq_self)
        refl;
}

-- The run awaits a signal or an event.
abbrev pub Awaits : SagaRun → Type 0
Awaits r = (r.awaited_signal ≢ none) ⊎ (r.awaited_event_topic ≢ none)

-- Where a run goes on when its timer is due.
pub data GoesOnAt (r : SagaRun) (step : Step) : String → Type 0 where
  timeout :
      (br : Branch)
      → Awaits r
      → lookup "timeout" step.branches ≡ some br
      → (br.next == "") ≡ false
      → GoesOnAt r step br.next
  no_timeout : Awaits r → lookup "timeout" step.branches ≡ none → GoesOnAt r step step.next
  empty_timeout :
      (br : Branch)
      → Awaits r
      → lookup "timeout" step.branches ≡ some br
      → br.next ≡ ""
      → GoesOnAt r step step.next
  plain_wait : r.awaited_signal ≡ none → r.awaited_event_topic ≡ none → GoesOnAt r step step.next

is_some-present : {A : Type 0} (o : Option A) → o ≢ none → is_some o ≡ true
is_some-present none h = absurd (h refl)
is_some-present (some x) h = refl

Awaits-true : (r : SagaRun) → Awaits r → has_awaits r ≡ true
Awaits-true r (inl signal) = rw (is_some-present r.awaited_signal signal) refl
Awaits-true r (inr event) = ground (arith, is_some-present r.awaited_event_topic event)

GoesOnAt-target :
    (r : SagaRun) (step : Step) (next : String)
    → GoesOnAt r step next
    → resume_target step (has_awaits r) ≡ next
unfolding resume_target
GoesOnAt-target r step next (timeout br awaits has_branch named) =
    rw (Awaits-true r awaits, has_branch, named) refl
GoesOnAt-target r step next (no_timeout awaits no_branch) =
    rw (Awaits-true r awaits, no_branch) refl
GoesOnAt-target r step next (empty_timeout br awaits has_branch blank) =
    rw (Awaits-true r awaits, has_branch, blank) refl
GoesOnAt-target r step next (plain_wait no_signal no_event) = rw (no_signal, no_event) refl

-- When the timer of a paused run is due, the run goes on where GoesOnAt says, unless that is empty: at
-- the "timeout" branch of its step if it was awaiting a signal or an event and the step has such a
-- branch with a next, and at the step's next otherwise. Its children are not asked, and no other run
-- changes.
pub turn-due :
    (c : Coordinator) (id : ℕ) (w : World) (next : String) {r : SagaRun} {d : WorkflowDefinition}
    {step : Step}
    → c.env.context_error_at w.clock ≡ none
    → run_of w.store id ≡ some r
    → r.state ≡ paused
    → is_due (c.env.time_at (suc w.clock)) r.wakeup_at ≡ true
    → lookup r.definition_id w.store.defs ≡ some d
    → step_by_id d r.current_step ≡ some step
    → GoesOnAt r step next
    → (next == "") ≡ false
    → MovesTo id (moved r next) w (turn c id w)
unfolding turn tick now on_store get_run paused_turn cleared_run
turn-due c id w next {r} {d} {step} alive found pausing due defined at goes named =
    let target = GoesOnAt-target r step next goes in
    let ticked = record w { clock = suc (suc w.clock) } in
    let m = resume-MovesTo c.env id (has_awaits r) ticked found defined at (rw target named) in
    rw (sym target, alive, found, pausing, due)
      (record { repeats = m.repeats; stored = m.stored; others = m.others; silent = m.silent })

-- A run that is paused with no timer, signal or event to wait for, on a step that spawns no
-- children, goes on at the step's next at the first advance that comes in, whatever caused that
-- advance. The dispatch that the run may still be awaiting is not asked for, and stays recorded.
pub turn-stray :
    (c : Coordinator) (id : ℕ) (w : World) {r : SagaRun} {d : WorkflowDefinition} {step : Step}
    → c.env.context_error_at w.clock ≡ none
    → run_of w.store id ≡ some r
    → r.state ≡ paused
    → r.wakeup_at ≡ none
    → has_awaits r ≡ false
    → lookup r.definition_id w.store.defs ≡ some d
    → step_by_id d r.current_step ≡ some step
    → spawns_and_waits step.type ≡ false
    → (step.next == "") ≡ false
    → MovesTo id (moved r step.next) w (turn c id w)
unfolding turn tick now on_store get_run paused_turn children_still_running get_workflow_definition
    resume_target cleared_run
turn-stray c id w {r} alive found pausing timeless free defined at plain target =
    let next = record w { clock = suc (suc w.clock) } in
    let m = resume-MovesTo c.env id false next found defined at target in
    rw (alive, found, pausing, timeless, free, defined, at, plain)
      (record { repeats = m.repeats; stored = m.stored; others = m.others; silent = m.silent })

-- A run that is paused on a step that spawned children, with no timer, signal or event to wait for,
-- goes on at the step's next if the join condition of the step holds of its children. If it does
-- not hold, an advance changes no run and sends nothing.
pub turn-children :
    (c : Coordinator) (id : ℕ) (w : World) {r : SagaRun} {d : WorkflowDefinition} {step : Step}
    → c.env.context_error_at w.clock ≡ none
    → run_of w.store id ≡ some r
    → r.state ≡ paused
    → r.wakeup_at ≡ none
    → has_awaits r ≡ false
    → lookup r.definition_id w.store.defs ≡ some d
    → step_by_id d r.current_step ≡ some step
    → spawns_and_waits step.type ≡ true
    → (step.next == "") ≡ false
    → if join_condition_met c.env step.inputs r.variables (children_of r.id step.id w.store)
      then MovesTo id (moved r step.next) w (turn c id w)
      else (turn c id w ≡ (ok finished, record w { clock = suc (suc w.clock) }))
unfolding turn tick now on_store get_run paused_turn children_still_running get_workflow_definition
    list_children_by_parent resume_target cleared_run
turn-children c id w {r} {d} {step} alive found pausing timeless free defined at spawns target =
    let next = record w { clock = suc (suc w.clock) } in
    let m = resume-MovesTo c.env id false next found defined at target in
    elim (Bool-cases
      (join_condition_met c.env step.inputs r.variables (children_of r.id step.id w.store))) [
        | inl met ↦
            rw (met, alive, found, pausing, timeless, free, defined, at, spawns, met)
              (record {
                repeats = m.repeats;
                stored = m.stored;
                others = m.others;
                silent = m.silent;
              })
        | inr unmet ↦
            rw (unmet, alive, found, pausing, timeless, free, defined, at, spawns, unmet) refl
      ]
