-- ===== src/Store/Histories/Terminal.antt =====
-- The methods that respect the end of a run.
use go_saga_orchestration.Prelude.{
  ℕ, ◌≡◌, refl, ◌∙◌, ap, Bool, true, false, not, ◌&&◌, String, some, List, [], ◌∷◌, Map, lookup,
  insert, lookup-insert, nat_eq, nat_beq_iff, string_eq, arith, All, Exec, Option-cases, inl, inr,
  Bool-cases, is_just, leb, length, ◌==◌,
}
use go_saga_orchestration.Domain.{SagaRun, TryCatchFrame, is_terminal, is_paused_state}
use go_saga_orchestration.Store.{Store, on_run, run_of}
use go_saga_orchestration.Store.Runs.{
  cancel_locked, append_event, mark_run_failed, update_run_variables,
}
use go_saga_orchestration.Store.Pauses.{try_consume_awaited_signal, wake_from_external, woken_run}
use go_saga_orchestration.Store.Children.{push_try_catch, pop_try_catch, pop_frame, max_depth}
use go_saga_orchestration.Store.Actions.{complete_action}
use go_saga_orchestration.Store.Histories.{
  Call, creates, sets_state, cancels, marks_failed, merges, pauses, awaits_signal, awaits_event,
  clears, consumes, wakes, spawns, pushes, pops, awaits_action, completes, fails, after, replay,
  appends,
}

-- The calls that test for a terminal run, or that leave the state alone.
abbrev pub RespectsEnd : Call → Type 0
RespectsEnd (cancels now id reason) = Unit
RespectsEnd (marks_failed now id step error) = Unit
RespectsEnd (merges id merge) = Unit
RespectsEnd (consumes now id name) = Unit
RespectsEnd (wakes id) = Unit
RespectsEnd (pushes id frame) = Unit
RespectsEnd (pops id) = Unit
RespectsEnd (completes now id attempt result) = Unit
RespectsEnd (appends e) = Unit
RespectsEnd _ = ⊥

-- Every run that has ended is still there, in the same state.
pub record KeepsEnded (runs runs' : Map ℕ SagaRun) : Type 0 where
  pub at :
      (id : ℕ) (r : SagaRun)
      → lookup id runs ≡ some r
      → is_terminal r.state ≡ true
      → (r' : SagaRun) × (lookup id runs' ≡ some r') × (r'.state ≡ r.state)

KeepsEnded-refl : (runs : Map ℕ SagaRun) → KeepsEnded runs runs
KeepsEnded-refl runs = record { at = λ id r h t. (r, h, refl) }

KeepsEnded-trans : {a b c : Map ℕ SagaRun} → KeepsEnded a b → KeepsEnded b c → KeepsEnded a c
KeepsEnded-trans k l = record {
  at = λ id r h t.
      let (x, hx, sx) = k.at id r h t in
      let (y, hy, sy) = l.at id x hx (ap is_terminal sx ∙ t) in (y, hy, sy ∙ sx);
}

insert-KeepsEnded :
    (id : ℕ) (r x : SagaRun) (runs : Map ℕ SagaRun)
    → lookup id runs ≡ some r
    → (is_terminal r.state ≡ true → x.state ≡ r.state)
    → KeepsEnded runs (insert id x runs)
insert-KeepsEnded id r x runs found same = record {
  at = λ j y h t. elim (Bool-cases (id == j)) [
    | inl here ↦ (x, rw (lookup-insert, here), ground (arith, nat_beq_iff id j, same))
    | inr there ↦ (y, rw (lookup-insert, there) h, refl)
  ];
}

on_run-KeepsEnded :
    (id : ℕ) {A : Type 0} (f : SagaRun → Exec Store A) (s : Store)
    → ((r : SagaRun) → run_of s id ≡ some r → KeepsEnded s.runs (f r s).1.runs)
    → KeepsEnded s.runs (on_run id f s).1.runs
on_run-KeepsEnded id f s h = elim (Option-cases (run_of s id)) [
  | inl missing ↦ rw missing (KeepsEnded-refl s.runs)
  | inr (r, found) ↦ rw found (h r found)
]

consume-KeepsEnded :
    (now id : ℕ) (name : String) (s : Store)
    → KeepsEnded s.runs (try_consume_awaited_signal now id name s).1.runs
unfolding try_consume_awaited_signal
consume-KeepsEnded now id name s = elim (Option-cases (run_of s id)) [
  | inl missing ↦ rw missing (KeepsEnded-refl s.runs)
  | inr (r, found) ↦ elim (Bool-cases (is_paused_state r.state && is_just r.awaited_signal name)) [
    | inl waits ↦ rw (found, waits) (insert-KeepsEnded id r (woken_run r) s.runs found (λ t. refl))
    | inr other ↦ rw (found, other) (KeepsEnded-refl s.runs)
  ]
]

pop_frame-KeepsEnded :
    (id : ℕ) (r : SagaRun) (l : List TryCatchFrame) (s : Store)
    → run_of s id ≡ some r
    → KeepsEnded s.runs (pop_frame id r l s).1.runs
pop_frame-KeepsEnded id r [] s found = KeepsEnded-refl s.runs
pop_frame-KeepsEnded id r (top ∷ rest) s found = insert-KeepsEnded id r _ s.runs found (λ t. refl)

pop-KeepsEnded : (id : ℕ) (s : Store) → KeepsEnded s.runs (pop_try_catch id s).1.runs
unfolding pop_try_catch
pop-KeepsEnded id s = elim (Option-cases (run_of s id)) [
  | inl missing ↦ rw missing (KeepsEnded-refl s.runs)
  | inr (r, found) ↦ rw found (pop_frame-KeepsEnded id r r.try_catch_stack s found)
]

-- A state that is terminal and not terminal.
never_ended : {P : Type 0} (b : Bool) → b ≡ false → b ≡ true → P
never_ended b e t = cc

after-KeepsEnded : (c : Call) (s : Store) → RespectsEnd c → KeepsEnded s.runs (after c s).runs
unfolding after cancel_locked append_event mark_run_failed update_run_variables wake_from_external
    push_try_catch complete_action
after-KeepsEnded (cancels now id reason) s g = on_run-KeepsEnded id _ s (λ r found.
    elim (Bool-cases (is_terminal r.state)) [
      | inl e ↦ rw e (KeepsEnded-refl s.runs)
      | inr e ↦ rw e (insert-KeepsEnded id r _ s.runs found (λ t. never_ended _ e t))
    ])
after-KeepsEnded (marks_failed now id step error) s g = on_run-KeepsEnded id _ s (λ r found.
    elim (Bool-cases (is_terminal r.state)) [
      | inl e ↦ rw e (KeepsEnded-refl s.runs)
      | inr e ↦ rw e (insert-KeepsEnded id r _ s.runs found (λ t. never_ended _ e t))
    ])
after-KeepsEnded (merges id merge) s g =
    on_run-KeepsEnded id _ s (λ r found. insert-KeepsEnded id r _ s.runs found (λ t. refl))
after-KeepsEnded (consumes now id name) s g = consume-KeepsEnded now id name s
after-KeepsEnded (wakes id) s g =
    on_run-KeepsEnded id _ s (λ r found. insert-KeepsEnded id r _ s.runs found (λ t. refl))
after-KeepsEnded (pushes id frame) s g = on_run-KeepsEnded id _ s (λ r found.
    elim (Bool-cases (leb max_depth (length r.try_catch_stack))) [
      | inl e ↦ rw e (KeepsEnded-refl s.runs)
      | inr e ↦ rw e (insert-KeepsEnded id r _ s.runs found (λ t. refl))
    ])
after-KeepsEnded (pops id) s g = pop-KeepsEnded id s
after-KeepsEnded (completes now id attempt result) s g = on_run-KeepsEnded id _ s (λ r found.
    elim (Bool-cases (not (r.current_attempt == attempt))) [
      | inl e ↦ rw e (KeepsEnded-refl s.runs)
      | inr e ↦ rw e (insert-KeepsEnded id r _ s.runs found (λ t. refl))
    ])
after-KeepsEnded (creates r) s g = absurd g
after-KeepsEnded (sets_state id state step) s g = absurd g
after-KeepsEnded (pauses id at) s g = absurd g
after-KeepsEnded (awaits_signal id name deadline) s g = absurd g
after-KeepsEnded (awaits_event id topic headers deadline) s g = absurd g
after-KeepsEnded (clears id) s g = absurd g
after-KeepsEnded (spawns fresh_def child now parent step branch def inputs start) s g = absurd g
after-KeepsEnded (awaits_action id dispatch attempt) s g = absurd g
after-KeepsEnded (fails now id attempt message) s g = absurd g
after-KeepsEnded (appends e) s g = KeepsEnded-refl s.runs

-- No history of calls that test for a terminal run or leave the state alone (Cancel, MarkRunFailed,
-- AppendEvent, UpdateRunVariables, TryConsumeAwaitedSignal, WakeFromExternal, PushTryCatch, PopTryCatch and
-- CompleteAction) moves a run out of a terminal state, or from one to another.
pub replay-KeepsEnded :
    (cs : List Call) (s : Store) → All RespectsEnd cs → KeepsEnded s.runs (replay cs s).runs
unfolding replay
replay-KeepsEnded [] s g = KeepsEnded-refl s.runs
replay-KeepsEnded (c ∷ cs) s g =
    KeepsEnded-trans (after-KeepsEnded c s g.0) (replay-KeepsEnded cs (after c s) g.1)
