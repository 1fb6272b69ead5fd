-- ===== src/Store/Runs/Cancelling.antt =====
-- What cancelling a run does to the tables.
use mathlib.Core.Option
use go_saga_orchestration.Prelude.{
  ℕ, ◌≡◌, ◌≢◌, refl, ap, ◌⊎◌, inl, inr, true, false, String, Option, none, some, [], ◌∷◌, ◌++◌, Map,
  lookup, lookup-insert, nat_eq, nat_beq_self, arith, is_some, Option-cases, Bool-cases,
}
use go_saga_orchestration.Domain.{SagaRun, is_terminal, cancelled, UserTask, SagaRunEvent}
use go_saga_orchestration.Store.{Store, rows, run_of}
use go_saga_orchestration.Store.Runs.{
  cancel, close_task, close_tasks, cancelled_run, cancel_event, cancel_locked,
}

lookup-close_tasks :
    (now run_id id : ℕ) (m : Map ℕ UserTask)
    → lookup id (close_tasks now run_id m) ≡ Option.map (close_task now run_id) (lookup id m)
unfolding lookup close_tasks
lookup-close_tasks now run_id id [] = refl
lookup-close_tasks now run_id id ((j, t) ∷ m) = ground (arith, lookup-close_tasks now run_id id m)

-- The state after a cancellation, for the run with the id and for all else.
pub record IsCancelled (id now : ℕ) (s s' : Store) : Type 0 where
  -- the run is terminal, and nothing is left that could wake it
  pub run : SagaRun
  pub stored : run_of s' id ≡ some run
  pub ended : (run.state ≡ cancelled) × (run.terminal_at ≡ some now)
  pub unmarked :
      (run.wakeup_at ≡ none)
      × (run.awaited_signal ≡ none)
      × (run.awaited_event_topic ≡ none)
      × (run.awaited_action_dispatch ≡ none)
  -- none of its user tasks is open
  pub closed :
      (k : ℕ) (t : UserTask)
      → lookup k s'.user_tasks ≡ some t
      → t.run_id ≡ id
      → is_some t.submitted_at ≡ true
  -- the tasks of other runs and those submitted before are as they were
  pub tasks_kept :
      (k : ℕ) (t : UserTask)
      → lookup k s.user_tasks ≡ some t
      → (t.run_id ≢ id) ⊎ (is_some t.submitted_at ≡ true)
      → lookup k s'.user_tasks ≡ some t
  pub runs_kept : (k : ℕ) → k ≢ id → run_of s' k ≡ run_of s k
  -- one event more in its trail
  pub recorded :
      (e : SagaRunEvent) × (rows (lookup id s'.events) ≡ rows (lookup id s.events) ++ e ∷ [])

close_task-closed :
    (now id : ℕ) (t : UserTask)
    → (close_task now id t).run_id ≡ id
    → is_some (close_task now id t).submitted_at ≡ true
unfolding close_task
close_task-closed now id t h = ground (arith, nat_eq.beq_iff t.run_id id)

close_task-kept :
    (now id : ℕ) (t : UserTask)
    → (t.run_id ≢ id) ⊎ (is_some t.submitted_at ≡ true)
    → close_task now id t ≡ t
unfolding close_task
close_task-kept now id t (inl h) = ground (arith, nat_eq.beq_iff t.run_id id)
close_task-kept now id t (inr h) = ground (arith)

map-some {ℓ κ} :
    {A : Type ℓ} {B : Type κ} (f : A → B) (o : Option A) {b : B}
    → Option.map f o ≡ some b
    → (a : A) × (o ≡ some a) × (f a ≡ b)
map-some f none h = cc
map-some f (some a) h = (a, refl, ground arith)

-- Cancelling a run that is not terminal makes it cancelled with no pause marker left, closes its
-- open user tasks, records one event, and leaves every other run, the tasks of other runs and the
-- tasks submitted before alone.
pub cancel-IsCancelled :
    (event_id now id : ℕ) (reason : String) (s : Store) {r : SagaRun}
    → run_of s id ≡ some r
    → is_terminal r.state ≡ false
    → IsCancelled id now s (cancel event_id now id reason s).1
unfolding cancel cancel_locked cancel_event cancelled_run
cancel-IsCancelled event_id now id reason s {r} found live =
    rw (found, live)
      (record {
        run = cancelled_run now reason r;
        stored = rw lookup-insert (ground (arith, nat_eq.beq_iff id id));
        ended = (refl, refl);
        unmarked = (refl, refl, refl, refl);
        closed = λ k t h e.
            let (u, stored, closes) =
              map-some (close_task now id) (lookup k s.user_tasks) (rw lookup-close_tasks at h) in
            rw (← closes) (close_task-closed now id u (rw (← closes) at e));
        tasks_kept =
            λ k t h keep. rw (lookup-close_tasks, h) (ap some (close_task-kept now id t keep));
        runs_kept = λ k ne. rw lookup-insert (ground (arith, nat_eq.beq_iff id k));
        recorded = (
          cancel_event event_id now id r.current_step reason,
          rw lookup-insert (ground (arith, nat_eq.beq_iff id id)),
        );
      })

-- Cancelling twice is cancelling once, with the same answer: no second event, no new reason.
pub cancel-cancel :
    (event_id event_id' now now' id : ℕ) (reason reason' : String) (s : Store)
    → cancel event_id' now' id reason' (cancel event_id now id reason s).1
      ≡ cancel event_id now id reason s
unfolding cancel cancel_locked cancelled_run
cancel-cancel event_id event_id' now now' id reason reason' s = elim (Option-cases (run_of s id)) [
  | inl missing ↦ simp missing
  | inr (r, found) ↦ elim (Bool-cases (is_terminal r.state)) [
    | inl ended ↦ simp (found, ended)
    | inr live ↦ simp (found, live, lookup-insert, nat_beq_self)
  ]
]
