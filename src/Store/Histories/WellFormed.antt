-- ===== src/Store/Histories/WellFormed.antt =====
-- Every history keeps the table of runs well formed.
use mathlib.Core.Path.{subst}
use go_saga_orchestration.Prelude.{
  ℕ, suc, ◌≤◌, ◌≡◌, refl, sym, leb, false, String, some, List, [], ◌∷◌, Map, lookup, insert,
  lookup-insert, nat_eq, arith, length, All, Exec, Option-cases, inl, inr, Bool-cases, ◌&&◌, not,
  ◌==◌, is_just, string_eq,
}
use go_saga_orchestration.Domain.{
  SagaRun, TryCatchFrame, is_terminal, is_paused_state, WorkflowDefinition, Fields,
}
use go_saga_orchestration.Store.{Store, on_run, run_of}
use go_saga_orchestration.Store.Runs.{
  create_run, update_run_state, cancel_locked, append_event, mark_run_failed, update_run_variables,
}
use go_saga_orchestration.Store.Pauses.{
  set_paused_with_wakeup, set_paused_awaiting_signal, set_paused_awaiting_event_with_deadline,
  clear_pause, try_consume_awaited_signal, wake_from_external, woken_run,
}
use go_saga_orchestration.Store.Children.{
  spawn_child_run_at, push_try_catch, pop_try_catch, max_depth, resolve_definition,
  resolve_definition-runs, pop_frame,
}
use go_saga_orchestration.Store.Actions.{mark_awaiting_action, complete_action, fail_locked}
use go_saga_orchestration.Store.Histories.{
  Call, creates, sets_state, cancels, marks_failed, merges, pauses, awaits_signal, awaits_event,
  clears, consumes, wakes, spawns, pushes, pops, awaits_action, completes, fails, after, replay,
  appends,
}

-- A run that is stored under its own id, with a try_catch stack within the limit.
abbrev pub Fits : ℕ → SagaRun → Type 0
Fits id r = (r.id ≡ id) × (length r.try_catch_stack ≤ max_depth)

pub record WellFormed (runs : Map ℕ SagaRun) : Type 0 where
  pub at : (id : ℕ) (r : SagaRun) → lookup id runs ≡ some r → Fits id r

-- What a caller has to bring along: a new run starts with a stack within the limit.
abbrev pub IsAllowed : Call → Type 0
IsAllowed (creates r) = length r.try_catch_stack ≤ max_depth
IsAllowed _ = Unit

insert-WellFormed :
    (id : ℕ) (r : SagaRun) {runs : Map ℕ SagaRun}
    → Fits id r
    → WellFormed runs
    → WellFormed (insert id r runs)
insert-WellFormed id r {runs} f w = record {
  at = λ j x h. ground (arith, lookup-insert id j r runs, nat_eq.beq_iff id j, w.at j x);
}

-- The rule for a method that looks the run up and writes it back.
on_run-WellFormed :
    (id : ℕ) {A : Type 0} (f : SagaRun → Exec Store A) (s : Store)
    → ((r : SagaRun) → Fits id r → WellFormed (f r s).1.runs)
    → WellFormed s.runs
    → WellFormed (on_run id f s).1.runs
on_run-WellFormed id f s h w = elim (Option-cases (run_of s id)) [
  | inl missing ↦ rw missing w
  | inr (r, found) ↦ rw found (h r (w.at id r found))
]

consume-WellFormed :
    (now id : ℕ) (name : String) (s : Store)
    → WellFormed s.runs
    → WellFormed (try_consume_awaited_signal now id name s).1.runs
unfolding try_consume_awaited_signal
consume-WellFormed now id name s w = elim (Option-cases (run_of s id)) [
  | inl missing ↦ rw missing w
  | inr (r, found) ↦ elim (Bool-cases (is_paused_state r.state && is_just r.awaited_signal name)) [
    | inl waits ↦ rw (found, waits) (insert-WellFormed id (woken_run r) (w.at id r found) w)
    | inr other ↦ rw (found, other) w
  ]
]

pop_frame-WellFormed :
    (id : ℕ) (r : SagaRun) (l : List TryCatchFrame) (s : Store)
    → length l ≤ max_depth
    → r.id ≡ id
    → WellFormed s.runs
    → WellFormed (pop_frame id r l s).1.runs
pop_frame-WellFormed id r [] s h e w = w
pop_frame-WellFormed id r (top ∷ rest) s h e w = insert-WellFormed id _ (e, omega arith) w

pop-WellFormed : (id : ℕ) (s : Store) → WellFormed s.runs → WellFormed (pop_try_catch id s).1.runs
unfolding pop_try_catch
pop-WellFormed id s w = elim (Option-cases (run_of s id)) [
  | inl missing ↦ rw missing w
  | inr (r, found) ↦
      let (own, depth) = w.at id r found in
      rw found (pop_frame-WellFormed id r r.try_catch_stack s depth own w)
]

resolve-WellFormed :
    (fresh : ℕ) (def : WorkflowDefinition) (s : Store)
    → WellFormed s.runs
    → WellFormed (resolve_definition fresh def s).1.runs
resolve-WellFormed fresh def s w = subst WellFormed (sym (resolve_definition-runs fresh def s)) w

spawn-WellFormed :
    (fresh_def child now parent : ℕ) (step branch : String) (def : WorkflowDefinition)
    (inputs : Fields) (start : String) (s : Store)
    → WellFormed s.runs
    → WellFormed
        (spawn_child_run_at fresh_def child now parent step branch def inputs start s).1.runs
unfolding spawn_child_run_at
spawn-WellFormed fresh_def child now parent step branch def inputs start s w =
    insert-WellFormed child _ (refl, omega arith) (resolve-WellFormed fresh_def def s w)

room : (n : ℕ) → leb max_depth n ≡ false → suc n ≤ max_depth
room n h = ground arith

-- Each method keeps every run under its own id with at most three try_catch frames.
pub after-WellFormed :
    (c : Call) (s : Store) → IsAllowed c → WellFormed s.runs → WellFormed (after c s).runs
unfolding after create_run update_run_state cancel_locked append_event mark_run_failed
    update_run_variables set_paused_with_wakeup set_paused_awaiting_signal
    set_paused_awaiting_event_with_deadline clear_pause wake_from_external push_try_catch
    mark_awaiting_action complete_action fail_locked
after-WellFormed (creates r) s a w = insert-WellFormed r.id r (refl, a) w
after-WellFormed (sets_state id state step) s a w =
    on_run-WellFormed id _ s (λ r f. insert-WellFormed id _ f w) w
after-WellFormed (cancels now id reason) s a w =
    on_run-WellFormed id _ s
      (λ r f. elim (Bool-cases (is_terminal r.state)) [
        | inl e ↦ rw e w
        | inr e ↦ rw e (insert-WellFormed id _ f w)
      ])
      w
after-WellFormed (marks_failed now id step error) s a w =
    on_run-WellFormed id _ s
      (λ r f. elim (Bool-cases (is_terminal r.state)) [
        | inl e ↦ rw e w
        | inr e ↦ rw e (insert-WellFormed id _ f w)
      ])
      w
after-WellFormed (merges id merge) s a w =
    on_run-WellFormed id _ s (λ r f. insert-WellFormed id _ f w) w
after-WellFormed (pauses id at) s a w =
    on_run-WellFormed id _ s (λ r f. insert-WellFormed id _ f w) w
after-WellFormed (awaits_signal id name deadline) s a w =
    on_run-WellFormed id _ s (λ r f. insert-WellFormed id _ f w) w
after-WellFormed (awaits_event id topic headers deadline) s a w =
    on_run-WellFormed id _ s (λ r f. insert-WellFormed id _ f w) w
after-WellFormed (clears id) s a w = on_run-WellFormed id _ s (λ r f. insert-WellFormed id _ f w) w
after-WellFormed (consumes now id name) s a w = consume-WellFormed now id name s w
after-WellFormed (wakes id) s a w = on_run-WellFormed id _ s (λ r f. insert-WellFormed id _ f w) w
after-WellFormed (spawns fresh_def child now parent step branch def inputs start) s a w =
    spawn-WellFormed fresh_def child now parent step branch def inputs start s w
after-WellFormed (pushes id frame) s a w =
    on_run-WellFormed id _ s
      (λ r f. elim (Bool-cases (leb max_depth (length r.try_catch_stack))) [
        | inl e ↦ rw e w
        | inr e ↦ rw e (insert-WellFormed id _ (f.0, room _ e) w)
      ])
      w
after-WellFormed (pops id) s a w = pop-WellFormed id s w
after-WellFormed (awaits_action id dispatch attempt) s a w =
    on_run-WellFormed id _ s
      (λ r f.
        elim (Bool-cases
          ((r.current_attempt == attempt) && is_just r.awaited_action_dispatch dispatch)) [
            | inl e ↦ rw e w
            | inr e ↦ rw e (insert-WellFormed id _ f w)
          ])
      w
after-WellFormed (completes now id attempt result) s a w =
    on_run-WellFormed id _ s
      (λ r f. elim (Bool-cases (not (r.current_attempt == attempt))) [
        | inl e ↦ rw e w
        | inr e ↦ rw e (insert-WellFormed id _ f w)
      ])
      w
after-WellFormed (fails now id attempt message) s a w =
    on_run-WellFormed id _ s
      (λ r f. elim (Bool-cases (not (r.current_attempt == attempt))) [
        | inl e ↦ rw e w
        | inr e ↦ rw e (insert-WellFormed id _ f w)
      ])
      w
after-WellFormed (appends e) s a w = w

-- Any history of calls, in any order and with any arguments but new runs that start with more than
-- three try_catch frames, keeps every run stored under its own id and its stack within that limit.
pub replay-WellFormed :
    (cs : List Call) (s : Store)
    → All IsAllowed cs
    → WellFormed s.runs
    → WellFormed (replay cs s).runs
unfolding replay
replay-WellFormed [] s a w = w
replay-WellFormed (c ∷ cs) s a w = replay-WellFormed cs (after c s) a.1 (after-WellFormed c s a.0 w)
