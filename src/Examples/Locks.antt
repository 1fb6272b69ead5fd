-- ===== src/Examples/Locks.antt =====
-- Two goroutines at the lock of one run: engine/runlock.go.
use go_saga_orchestration.Prelude.{
  ◌≤◌, ◌≡◌, ◌↔◌, refl, none, [], ◌∷◌, lookup, insert, delete, count, nat_eq,
}
use go_saga_orchestration.Engine.Locks.{
  RunLocks, no_locks, enter, take, give, leave, outside, waiting, holding, entering, taking, giving,
  Reach, start, spawn, step, holds_run, uses_run, size,
}
use go_saga_orchestration.Engine.Locks.Exclusion.{lock-exclusive, lock-tidy}
use go_saga_orchestration.Engine.Locks.Refinement.{
  lock-refines, MutexStep, has, idle, is_run_locked,
}

-- The table when one of two goroutines is inside and the other one waits.
abbrev contended : RunLocks
contended = (enter 4 (take 0 (enter 4 no_locks).1)).1

contended-Reach : Reach contended (holding 4 0 ∷ waiting 4 0 ∷ [])
unfolding enter take lookup insert
contended-Reach =
    step (holding 4 0 ∷ []) []
      (step [] (outside ∷ []) (step [] (outside ∷ []) (spawn (spawn start)) (entering 4))
        (taking refl))
      (entering 4)

lock-exclusive_example : count (holds_run 4) (holding 4 0 ∷ waiting 4 0 ∷ []) ≤ 1
lock-exclusive_example = lock-exclusive 4 contended-Reach

lock-tidy_example :
    (lookup 5 contended.locks ≡ none) ↔ (count (uses_run 5) (holding 4 0 ∷ waiting 4 0 ∷ []) ≡ 0)
lock-tidy_example = lock-tidy 5 contended-Reach

lock-refines_example :
    MutexStep (has 4) (is_run_locked contended) idle (is_run_locked (give 0 contended))
lock-refines_example = lock-refines [] (waiting 4 0 ∷ []) contended-Reach giving

-- Both goroutines share one entry, which the second one to leave removes.
contended-size : size contended ≡ 1
unfolding enter take lookup insert
contended-size = refl

left-size : size (leave 4 0 (leave 4 0 (give 0 (take 0 (give 0 contended))))) ≡ 0
unfolding enter take give leave lookup insert delete
left-size = refl
