-- ===== src/Examples/Barriers.antt =====
-- The theorems on barriers, at work on two children.
use go_saga_orchestration.Prelude.{◌≡◌, refl, true, false, [], ◌∷◌, reverse, arith}
use mathlib.Core.List.{reverse_perm}
use go_saga_orchestration.Domain.{end, running, succeeded}
use go_saga_orchestration.Verbs.Join.{join_condition_met, quorum_n, validate_join_strategy}
use go_saga_orchestration.Verbs.Join.Progress.{
  join_condition_met-Progress, join_condition_met-validate,
}
use go_saga_orchestration.Verbs.Join.Order.{join_condition_met-perm}
use go_saga_orchestration.Verbs.Join.Quorum.{join_condition_met-unreachable}
use go_saga_orchestration.Examples.{services, run_at, quorum_of, children}

-- One success of two is enough; the other child goes on to fail.
join_condition_met-Progress_example : join_condition_met services (quorum_of 1) end children ≡ true
unfolding join_condition_met quorum_n
join_condition_met-Progress_example =
    join_condition_met-Progress services (quorum_of 1) end
      (run_at 3 succeeded "" ∷ run_at 4 running "" ∷ []) children ((λ t. refl), ((λ t. cc), tt))
      refl

join_condition_met-validate_example :
    join_condition_met services
      (quorum_of 2)
      end
      (run_at 3 succeeded "" ∷ run_at 4 succeeded "" ∷ [])
    ≡ true
unfolding validate_join_strategy quorum_n
join_condition_met-validate_example =
    join_condition_met-validate services (quorum_of 2) end (run_at 3 succeeded "")
      (run_at 4 succeeded "" ∷ []) refl (refl, (refl, tt))

join_condition_met-perm_example :
    join_condition_met services (quorum_of 2) end (reverse children)
    ≡ join_condition_met services (quorum_of 2) end children
join_condition_met-perm_example =
    join_condition_met-perm services (quorum_of 2) end (reverse children) children
      (reverse_perm children)

-- One child of two has failed, and both would have to succeed.
join_condition_met-unreachable_example :
    join_condition_met services (quorum_of 2) end children ≡ false
unfolding quorum_n
join_condition_met-unreachable_example =
    join_condition_met-unreachable services (quorum_of 2) end 2 children children refl refl refl
      (omega arith) ((λ t. refl), ((λ t. refl), tt))
