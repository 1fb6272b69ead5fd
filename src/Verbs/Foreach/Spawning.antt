-- ===== src/Verbs/Foreach/Spawning.antt =====
-- What the foreach verb leaves behind: engine/verbs/foreach.go.

use go_saga_orchestration.Prelude.{
  ℕ, suc, ◌≡◌, ◌≢◌, String, List, [], ◌∷◌, nat_eq, string_eq, concat, pos,
}
use go_saga_orchestration.Domain.{Value, int, put, SagaRun, Step}
use go_saga_orchestration.Runtime.{Env, World}
use go_saga_orchestration.Verbs.Fan.{spawn_branch, branch_definition}
use go_saga_orchestration.Verbs.Foreach.{item_inputs}
use go_saga_orchestration.Verbs.Fan.Children.{ChildSpec}

-- One child for each item, from the index on: under the key "i0", "i1" and so on, with the variables of
-- the parent, the item and its index as its inputs.
abbrev pub item_children : Env → SagaRun → String → List Step → ℕ → List Value → List ChildSpec
item_children env run start steps i [] = []
item_children env run start steps i (item ∷ items) =
    record {
      key = concat "i" (env.decimal i);
      start = start;
      steps = steps;
      inputs = put "_foreach_index" (int (pos i)) (put "_foreach_item" item run.variables);
    }
    ∷ item_children env run start steps (suc i) items

module _ (env : Env) (run : SagaRun) (step : Step) (others : (n : ℕ) → env.uuid_at n ≢ run.id)
    (apart : (n m : ℕ) → env.uuid_at n ≡ env.uuid_at m → n ≡ m) where
  -- The world behind the first item.
  abbrev after_item : String → List Step → ℕ → Value → World → World
  after_item start steps i item w =
      let key = concat "i" (env.decimal i) in
      (spawn_branch env "foreach" run step key
        (branch_definition "synthetic-foreach-iter" step.id key start steps run)
        (item_inputs run.variables item i) w).1
