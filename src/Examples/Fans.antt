-- ===== src/Examples/Fans.antt =====
-- A foreach step over two items, and a parallel step with two branches.
use go_saga_orchestration.Prelude.{ℕ, ◌+◌, refl, [], ◌∷◌, lookup, nat_eq, string_eq, arith, ok}
use go_saga_orchestration.Domain.{
  Value, list, str, nil, cons, obj, field, end, SagaRun, Step, running,
}
use go_saga_orchestration.Runtime.{Env}
use go_saga_orchestration.Verbs.Fan.{parallel_verb, normalize_branch, raw_branches, check_strategy}
use go_saga_orchestration.Verbs.Fan.Branching.{IsBranch, parallel_verb-fans, branch_children}
use go_saga_orchestration.Verbs.Fan.Fanning.{Fanned}
use go_saga_orchestration.Examples.{services, run_at, world_with, charge, done, fan}

-- Fresh ids start at 100, and the list of the order's parcels has two elements.
abbrev parcels : Env
parcels = record services {
  uuid_at = λ n. n + 100;
  eval_cel = λ expr vars. ok (list (cons (str "a") (cons (str "b") nil)));
  parse_steps = λ l. ok (charge ∷ done ∷ []);
}

abbrev each_parcel : Step
each_parcel = record fan {
  type = "foreach";
  inputs =
      field "list" (str "parcels")
        (field "body" (list (cons (obj end) nil)) (field "start" (str "charge") end));
}

abbrev shipping : SagaRun
shipping = run_at 1 running "fan"

-- A branch that starts at the charge.
abbrev branch : Value
branch = obj (
    field "key" (str "a")
      (field "start" (str "charge") (field "steps" (list (cons (obj end) nil)) end)))

abbrev both : Step
both = record fan {
  type = "parallel";
  inputs = field "branches" (list (cons branch (cons branch nil))) end;
}

branch-IsBranch : (i : ℕ) → IsBranch parcels i branch
unfolding normalize_branch
branch-IsBranch i = record {
  fields = _;
  start = "charge";
  steps = charge ∷ done ∷ [];
  is_object = refl;
  starts = refl;
  named = refl;
  parsed = refl;
}

parallel_verb-fans_example :
    Fanned shipping both
      (branch_children parcels shipping 0
        (branch ∷ branch ∷ [])
        (branch-IsBranch 0, (branch-IsBranch 1, tt)))
      shipping
      (world_with shipping)
      (parallel_verb parcels shipping both (world_with shipping))
unfolding lookup raw_branches check_strategy
parallel_verb-fans_example =
    parallel_verb-fans parcels shipping both (λ n e. omega (arith, e)) (λ n m e. omega (arith, e))
      branch (cons branch nil) shipping (world_with shipping) refl refl
      (branch-IsBranch 0, (branch-IsBranch 1, tt)) refl (λ n m. refl) refl
