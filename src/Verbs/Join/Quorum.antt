-- ===== src/Verbs/Join/Quorum.antt =====
-- A quorum that too many failures have put out of reach.
use go_saga_orchestration.Prelude.{ℕ, ◌<◌, ◌≡◌, refl, true, false, List, [], ◌∷◌, pos, ok, arith}
use go_saga_orchestration.Domain.{Fields, SagaRun}
use go_saga_orchestration.Runtime.{Env}
use go_saga_orchestration.Verbs.Join.{
  join_condition_met, quorum_n, join_strategy, all_terminal, succeeded_count,
}
use go_saga_orchestration.Verbs.Join.Progress.{Progress}

succeeded_count-ended :
    (g g' : List SagaRun)
    → Progress g g'
    → all_terminal g ≡ true
    → succeeded_count g' ≡ succeeded_count g
succeeded_count-ended [] [] p h = refl
succeeded_count-ended [] (r' ∷ g') p h = absurd p
succeeded_count-ended (r ∷ g) [] p h = absurd p
succeeded_count-ended (r ∷ g) (r' ∷ g') p h = ground (arith, succeeded_count-ended g g' p.1)

-- Once every child of a barrier with a quorum has ended and fewer than the quorum succeeded, the
-- join condition is not met for the group, nor for any later view of it.
pub join_condition_met-unreachable :
    (env : Env) (inputs vars : Fields) (n : ℕ) (g g' : List SagaRun)
    → join_strategy inputs ≡ "quorum"
    → quorum_n env inputs vars ≡ ok (pos n)
    → all_terminal g ≡ true
    → succeeded_count g < n
    → Progress g g'
    → join_condition_met env inputs vars g' ≡ false
unfolding join_condition_met
join_condition_met-unreachable env inputs vars n g [] s q t c p = refl
join_condition_met-unreachable env inputs vars n g (r' ∷ g') s q t c p =
    rw (s, q) (ground (arith, succeeded_count-ended g (r' ∷ g') p t))
