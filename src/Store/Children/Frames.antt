-- ===== src/Store/Children/Frames.antt =====
-- The try_catch frames of a run are a stack.
use go_saga_orchestration.Prelude.{ℕ, ◌≡◌}
use go_saga_orchestration.Store.{Store, run_of}

-- The store agrees with another on every run.
abbrev pub SameRuns : Store → Store → Type 0
SameRuns s s' = (k : ℕ) → run_of s' k ≡ run_of s k
