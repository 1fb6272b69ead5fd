-- ===== src/Engine/Retry/Bounds.antt =====
-- How often a step is tried.
use go_saga_orchestration.Prelude.{
  ℕ, zero, suc, ◌+◌, ◌-◌, ◌≤◌, ◌≡◌, refl, false, ◌∷◌, [], length, length-append, lookup,
  lookup-insert, nat_eq, nat_beq_self, arith, Bool-cases, Option-cases, inl, inr, ltb, ◌==◌, ◌∙◌,
  Exec,
}
use go_saga_orchestration.Domain.{SagaRun, Step, Fields, step_failed}
use go_saga_orchestration.Store.{rows}
use go_saga_orchestration.Store.Runs.{append_event}
use go_saga_orchestration.Runtime.{Env, World, Handler, emit, emit_with, fresh, now, tick, on_store}
use go_saga_orchestration.Engine.Steady.{Result-cases}
use go_saga_orchestration.Engine.Retry.{
  execute, execute_step, attempts, wait_then, is_control_signal, max_attempts,
}

-- How long the run's audit trail is.
abbrev pub trail : SagaRun → World → ℕ
trail run w = length (rows (lookup run.id w.store.events))

emit-trail :
    (env : Env) (run : SagaRun) (step : Step) (attempt : ℕ) (w : World)
    → trail run (emit env run.id step.id attempt step_failed "engine-retry" w).1 ≡ suc (trail run w)
unfolding emit emit_with fresh now tick on_store append_event
emit-trail env run step attempt w =
    rw (lookup-insert, nat_beq_self)
      (length-append (rows (lookup run.id w.store.events)) (_ ∷ []) ∙ omega arith)

abbrev Quiet : Env → Handler → SagaRun → Step → Type 0
Quiet env h run step = (w : World) → trail run (execute env h run step w).1 ≡ trail run w

wait_then-trail :
    (env : Env) (run : SagaRun) (step : Step) (attempt bound : ℕ) (m : Exec World Fields)
    (w : World)
    → ((w' : World)
        → trail run w' ≡ suc (trail run w)
        → trail run (m w').1 ≤ suc (trail run w) + bound)
    → trail run (wait_then env run step attempt m w).1 ≤ suc (trail run w) + bound
unfolding wait_then emit emit_with fresh now tick on_store append_event
wait_then-trail env run step attempt bound m w h =
    elim (Option-cases (
      env.context_error_at
        (emit env run.id step.id (suc attempt) step_failed "engine-retry" w).1.clock)) [
          | inl alive ↦ rw alive (h _ (emit-trail env run step (suc attempt) w))
          | inr (e, dead) ↦ rw dead (omega (arith, emit-trail env run step (suc attempt) w))
        ]

suc-not_zero : (n : ℕ) → (suc n == 0) ≡ false
suc-not_zero n = ground arith

attempts-trail :
    (env : Env) (h : Handler) (run : SagaRun) (step : Step) (attempt left : ℕ) (w : World)
    → Quiet env h run step
    → trail run (attempts env h run step attempt (suc left) w).1 ≤ trail run w + left
unfolding attempts
attempts-trail env h run step attempt zero w quiet =
    elim (Result-cases (execute env h run step w).0) [
      | inl (a, done) ↦ rw done (omega (arith, quiet w))
      | inr (e, failed) ↦ elim (Bool-cases (is_control_signal e)) [
        | inl control ↦ rw (failed, control) (omega (arith, quiet w))
        | inr plain ↦ rw (failed, plain) (omega (arith, quiet w))
      ]
    ]
attempts-trail env h run step attempt (suc left) w quiet =
    elim (Result-cases (execute env h run step w).0) [
      | inl (a, done) ↦ rw done (omega (arith, quiet w))
      | inr (e, failed) ↦ elim (Bool-cases (is_control_signal e)) [
        | inl control ↦ rw (failed, control) (omega (arith, quiet w))
        | inr plain ↦
            rw (failed, plain, suc-not_zero left)
              (omega (
                arith,
                quiet w,
                wait_then-trail env run step attempt left
                    (attempts env h run step (suc attempt) (suc left)) (execute env h run step w).1
                    (λ w' e.
                      omega (arith, e, attempts-trail env h run step (suc attempt) left w' quiet)),
              ))
      ]
    ]

max_attempts-positive : (step : Step) → (n : ℕ) × (max_attempts step ≡ suc n)
max_attempts-positive step = elim (Option-cases step.retry) [
  | inl once ↦ (0, rw once refl)
  | inr (p, found) ↦ elim (Bool-cases (ltb 1 p.max_attempts)) [
    | inl more ↦ (p.max_attempts - 1, rw (found, more) (ground (arith, more)))
    | inr fewer ↦ (0, rw (found, fewer) refl)
  ]
]

-- The retries of a step add to the run's audit trail at most one failure less than the attempts
-- that its policy allows, one without a policy, if the handler itself writes nothing there.
pub execute_step-trail :
    (env : Env) (h : Handler) (run : SagaRun) (step : Step) (w : World)
    → Quiet env h run step
    → trail run (execute_step env h run step w).1 + 1 ≤ trail run w + max_attempts step
unfolding execute_step
execute_step-trail env h run step w quiet =
    let (n, e) = max_attempts-positive step in
    rw e (omega (arith, attempts-trail env h run step 0 n w quiet))
