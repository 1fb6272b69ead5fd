-- ===== src/Verbs/Join/Progress.antt =====
-- What the join condition promises while the children run.
use go_saga_orchestration.Prelude.{
  ◌≤◌, ◌≡◌, refl, true, List, [], ◌∷◌, ℤ, Result, ok, err, arith, length, All, string_eq,
}
use go_saga_orchestration.Domain.{Fields, SagaRun, is_terminal, succeeded}
use go_saga_orchestration.Runtime.{Env}
use go_saga_orchestration.Verbs.Join.{
  join_condition_met, validate_join_strategy, quorum_n, quorum_met, all_terminal, succeeded_count,
  check_quorum,
}

-- A later view of a group: a child that has ended keeps its state, the others may have moved on.
abbrev pub Progress : List SagaRun → List SagaRun → Type 0
Progress [] [] = Unit
Progress [] (r' ∷ g') = ⊥
Progress (r ∷ g) [] = ⊥
Progress (r ∷ g) (r' ∷ g') = (is_terminal r.state ≡ true → r'.state ≡ r.state) × Progress g g'

all_terminal-Progress :
    (g g' : List SagaRun) → Progress g g' → all_terminal g ≡ true → all_terminal g' ≡ true
all_terminal-Progress [] [] p h = refl
all_terminal-Progress [] (r' ∷ g') p h = absurd p
all_terminal-Progress (r ∷ g) [] p h = absurd p
all_terminal-Progress (r ∷ g) (r' ∷ g') p h = ground (arith, all_terminal-Progress g g' p.1)

succeeded_count-Progress :
    (g g' : List SagaRun) → Progress g g' → succeeded_count g ≤ succeeded_count g'
succeeded_count-Progress [] [] p = omega arith
succeeded_count-Progress [] (r' ∷ g') p = absurd p
succeeded_count-Progress (r ∷ g) [] p = absurd p
succeeded_count-Progress (r ∷ g) (r' ∷ g') p = ground (arith, succeeded_count-Progress g g' p.1)

quorum_met-Progress :
    (q : Result ℤ) (g g' : List SagaRun)
    → Progress g g'
    → quorum_met g q ≡ true
    → quorum_met g' q ≡ true
quorum_met-Progress (err e) g g' p h = all_terminal-Progress g g' p h
quorum_met-Progress (ok n) g g' p h =
    ground (arith, all_terminal-Progress g g' p, succeeded_count-Progress g g' p)

-- A join condition that is met stays met, whatever the children that still run do.
pub join_condition_met-Progress :
    (env : Env) (inputs vars : Fields) (g g' : List SagaRun)
    → Progress g g'
    → join_condition_met env inputs vars g ≡ true
    → join_condition_met env inputs vars g' ≡ true
unfolding join_condition_met
join_condition_met-Progress env inputs vars [] g' p h = cc
join_condition_met-Progress env inputs vars (r ∷ g) [] p h = absurd p
join_condition_met-Progress env inputs vars (r ∷ g) (r' ∷ g') p h = ground (
  arith,
  all_terminal-Progress (r ∷ g) (r' ∷ g') p,
  quorum_met-Progress (quorum_n env inputs vars) (r ∷ g) (r' ∷ g') p,
)

all_terminal-All :
    (g : List SagaRun)
    → All (λ r. r.state ≡ succeeded) g
    → (all_terminal g ≡ true) × (succeeded_count g ≡ length g)
all_terminal-All [] h = (refl, refl)
all_terminal-All (r ∷ g) h = ground (arith, all_terminal-All g h.1)

quorum_met-check_quorum :
    (q : Result ℤ) (g : List SagaRun)
    → succeeded_count g ≡ length g
    → check_quorum (length g) q ≡ ok tt
    → quorum_met g q ≡ true
quorum_met-check_quorum (err e) g c h = cc
quorum_met-check_quorum (ok n) g c h = ground arith

-- A barrier that passes the validation before it pauses is met once every child has succeeded.
pub join_condition_met-validate :
    (env : Env) (inputs vars : Fields) (r : SagaRun) (g : List SagaRun)
    → validate_join_strategy env inputs vars (length (r ∷ g)) ≡ ok tt
    → All (λ c. c.state ≡ succeeded) (r ∷ g)
    → join_condition_met env inputs vars (r ∷ g) ≡ true
unfolding join_condition_met validate_join_strategy
join_condition_met-validate env inputs vars r g v h =
    ground (
      arith,
      all_terminal-All (r ∷ g) h,
      quorum_met-check_quorum (quorum_n env inputs vars) (r ∷ g),
    )
